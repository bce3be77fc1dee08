-- ===== src/Lib.antt =====
-- The server side of a network storage: a verification library of its Rust crates.
--
-- The program. An HTTP server (crates/server, crates/api) passes requests to services. The storage
-- service (crates/storage) keeps the users' files: it translates virtual paths (/User/<name>/…,
-- /System/…, /AppData/<app>/…, /Trash/…) into paths of an object store (the crate opendal), keeps a row per
-- file in PostgreSQL (storage.cloud_files) and a row per deleted file (storage.trash_items), and
-- decides who may do what. The authentication service (crates/auth) keeps the accounts and gives out
-- the tokens that the guards of crates/api/src/middleware.rs ask for. The agent (crates/agent) answers a
-- user's question by asking a language model in a loop and running the tools that it calls; it keeps the
-- conversations in tables of its own. Its one tool is the terminal (crates/kernel), a shell whose commands
-- are scripts that call the storage service for the user. The downloader (crates/downloader) fetches
-- files over HTTP and by torrent. The container service (crates/container) has Docker run containers,
-- whose volumes lie in the users' directories. The system service (crates/system) sets a system up, keeps
-- its settings and collects statistics.
--
-- The files.
--   Base, Base/…      texts, lists and tests that the components share.
--   Domain            crates/domain/src/error.rs, and the effects: an operation takes the world and
--                     returns a result with the new world.
--   Storage/World     the tables, and the libraries as a parameter (Platform): the object store, the
--                     database's failures and orders, identifiers, the clock and mime types.
--   Storage/Paths     normalize_path and the functions on paths of std::path::Path.
--   Storage/Access    check_app_access and resolve_opendal_path, one definition per branch.
--   Storage/Tables    the SQL statements on the two tables, with LIKE and the unique key.
--   Storage/Save      save_file, save_file_from_path, commit_blob_change; Storage/Save/Records shows the row
--                     that a save leaves.
--   Storage/Folders   mkdir.
--   Storage/Reading   get_file_reader, get_file_path.
--   Storage/Trash     the functions that move files to the trash, and delete_trash_item_recursive.
--   Storage/Delete    delete; Storage/Delete/Ends is on the loop over the directories,
--                     Storage/Delete/Kept on what it keeps true of the object store,
--                     Storage/Delete/Subtree on the statements of a subtree.
--   Storage/Restore   the branch of rename that restores from the trash.
--   Storage/Rename    rename.  Storage/Purge: one round of run_trash_purger.  Storage/Listing: list.
--   Storage/Isolation what the checks of the owner and of /System guarantee.
--   Storage/Effects   what every operation does to the tables, from what its statements do; the results
--                     are in Storage/Effects/Integrity.
--   Auth/World        the accounts, and argon2, jsonwebtoken and uuid as a parameter (Libraries).
--   Auth              the operations of crates/auth/src/auth_service.rs.
--   Auth/Guards       check_setup and require_auth of crates/api/src/middleware.rs.
--   Auth/Accounts, Auth/Login, Auth/Sessions: what they guarantee, alone and together.
--   Agent/Types       the types of crates/agent/src/traits.rs, with the provider and the tools.
--   Agent             the loop of chat in crates/agent/src/runtime.rs; Agent/Stream and Agent/Dialogue
--                     show what it sends and what it adds to the messages.
--   Agent/OpenAi      complete of crates/agent/src/providers/openai.rs.  Agent/Terminal: the tool of
--                     crates/agent/src/tools/terminal.rs and the runtime with both; Agent/Terminal/Sound
--                     and Agent/Terminal/Trace are on its chats; Agent/Keeps is on those of any runtime.
--   Agent/Conversations   the sessions and messages of crates/agent/src/agent_service.rs, and what its chat
--                     does around the loop; Agent/Conversations/Window is on the history of a session.
--   Agent/Commands    execute_command and complete_command, on the terminal; Agent/Commands/Desks shows what
--                     they do to the directories of the sessions.
--   Kernel/Session    a session of the terminal, with the JavaScript engine, the shlex package and the
--                     server's own files as a parameter (Engine).
--   Kernel/Paths      resolve_path of crates/kernel/src/service.rs.
--   Kernel/CommandLine  heredocs, tokens, pipelines and redirections, each with a child of its own.
--   Kernel/Service    the commands and the pipeline, up to execute_script.
--   Kernel/Completion complete.  Kernel/Userland: crates/kernel/src/userland/mod.rs.
--   Kernel/Files      what scripts may call: crates/kernel/src/sys/fs.rs and process.chdir; Kernel/Files/Sound
--                     and Kernel/Files/Foreign show what these calls keep and what they are denied.
--   Kernel/Scripts    a script as the calls that it makes, and what a command line with scripts keeps.
--   Downloader        one run of download_process_internal; Downloader/Resume is on runs that follow one
--                     another, Downloader/Unfinished on what one leaves in the tables, Downloader/Links
--                     on magnet links and virtual paths. Downloader/Columns: the types of the columns and
--                     of the values that are bound; a UUID and a text do not compare.
--   Downloader/Tasks  create_task, control_task, get_stats; Downloader/Refused is on what the requests
--                     are answered. Downloader/Listing: list_tasks.
--   Downloader/Magnets  resolve_magnet and start_magnet_download, with SaveDir on where the files go.
--   Downloader/Monitor  monitor_torrent_process_internal and spawn_magnet_download.
--   Container/Requests    what is accepted; Container/Requests/Valid describes it a second time.
--   Container/HostPaths   normalize_path and resolve_physical_path; Container/HostPaths/Confined is on where
--                     these stay.
--   Container/World   the calls of Docker and the directories that are created. Container/Gpu:
--                     resolve_gpu_config of crates/gpu/src/lib.rs.
--   Container/Create  create_container; Container/Create/Safe is on what Docker is asked for.
--   Container/Operations  the operations that pass one call on.
--   Container/Pull    the state of pulled images; Container/Pull/Progress is on what a pull leaves.
--   System/World      the tables of the system service.  System/Setup: is_initialized and init_system, with
--                     Once and Halfway on setups that succeed and that the database breaks off.
--   System/Settings   the settings for Docker; System/Ports: check_ports.
--   System/Collector  the statistics; System/Collector/Spaced is on how many are stored and read.
--   Api               the status of an error and the handlers of crates/api/src/handlers/docs.rs; Api/Foreign
--                     is on requests for the files of another user.
--   Storage/Sample, Kernel/Sample   a small installation for the tests.
--
-- Conventions. The sums of the sizes that Docker reports (i64 in the source) are natural numbers:
-- they stay far below 2 ^ 63. PostgreSQL's LIKE is written out in Storage/Tables, as its
-- documentation describes it. A function of the service is an operation on the world under its own
-- name; `?` is the bind of a do block, and an error keeps what was done before it. Each SQL
-- statement may fail. A failure, an identifier and a time depend on the number of statements run so
-- far, so a theorem holds for every course of them. Sizes are natural numbers: they come from the
-- lengths of files; so are the limit and the offset of a listing, of which the database refuses
-- negative ones.
--
-- Fuel. The loop of trash_directory_recursive runs on fuel, since the object store decides what it
-- lists; its result says whether the stack was emptied. The loop of chat needs none: it counts down
-- its own ten iterations. The loops of the terminal and of a download go over lists: the tokens, the
-- segments, the chunks that arrive; so do the loops over the events of a pull and the rounds of the
-- collector.
--
-- Not modelled: the timestamps and checksums of the rows of files, the logs, the sleep of the
-- purger, the speeds and percentages of downloads (what librqbit answers is a parameter), the lists
-- of containers, images, volumes and networks, the description of the hardware, and the crates that
-- only drive libraries (the boa engine, sysinfo).
pub mod Base
pub mod Domain
pub mod Storage
pub mod Auth
pub mod Agent
pub mod Kernel
pub mod Downloader
pub mod Container
pub mod System
pub mod Api
