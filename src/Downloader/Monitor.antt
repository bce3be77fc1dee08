-- ===== src/Downloader/Monitor.antt =====
-- `monitor_torrent_process_internal` and the tasks that run it, of crates/downloader/src/downloader_service.rs. Each round of the
-- loop asks the torrent whether it has finished; its numbers, which go into columns that are not modelled,
-- are left out. What is entered into the table of files is a list of requests.
use nasserver.Base.{
  String, Bool, true, false, Option, none, some, List, [], ◌∷◌, ◌++◌, if◌then◌else◌,
}
use nasserver.Base.Text.{◌<>◌, is_empty, starts_with, strip_prefix}
use nasserver.Base.StdPath.{path_join}
use nasserver.Domain.{Attempt, done, failed, Result}
use nasserver.Storage.Paths.{parent}
use nasserver.Downloader.Links.{enrich_magnet_link}
use nasserver.Downloader.Columns.{text}
use nasserver.Downloader.Tasks.{
  with_uuid, Surroundings, Downloads, execute, set_status, ensure_directory_exists, abort,
}

-- A torrent that is monitored: its task, its owner, and where its files lie.
pub record Torrent : Type 0 where
  pub id : String
  pub user_id : String
  pub username : String
  pub virtual_base_dir : String
  pub files : Option (List String)

-- `synced` is the pairs of a physical path and a virtual directory that `sync_file_to_db_internal` is
-- called with.
pub record Monitored : Type 0 where
  pub downloads : Downloads
  pub synced : List (String × String)

-- A statement whose result is ignored.
abbrev pub run : (Downloads → Result (Unit {0}) × Downloads) → Monitored → Monitored
run m v = record v { downloads = (m v.downloads).1 }

-- The virtual directory of the directory that a torrent is stored in.
unfoldable pub virtual_base : String → String → String → String
virtual_base storage_path username save_dir =
    elim (strip_prefix save_dir (storage_path <> ("/vol1/User/" <> username))) [
      | none ↦ "/下载"
      | some rest ↦ rest
    ]

module _ (S : Surroundings) (T : Torrent) where
  abbrev pub base_path : String
  base_path = S.storage_path <> ("/vol1/User/" <> (T.username <> T.virtual_base_dir))

  -- The virtual directory of a file, for a base directory that starts with a slash.
  unfoldable pub virtual_dir : String → String
  virtual_dir file =
      let dir = parent (path_join T.virtual_base_dir file) in
      if starts_with dir "/" then dir else "/" <> dir

  unfoldable pub enter_file : String → Monitored → Monitored
  enter_file file v =
      let v' = run (ensure_directory_exists S T.user_id (virtual_dir file)) v in
      record v' { synced = v'.synced ++ ((path_join base_path file, virtual_dir file) ∷ []) }

  unfoldable pub enter_files : List String → Monitored → Monitored
  enter_files [] v = v
  enter_files (file ∷ files) v = enter_files files (enter_file file v)

  -- What follows the loop.
  unfoldable pub finish_torrent : Monitored → Monitored
  finish_torrent v =
      let done_row = run (set_status S (text T.id) "done") v in
      let entered : Monitored = elim T.files [
        | none ↦ done_row
        | some files ↦ if is_empty T.username then done_row else enter_files files done_row
      ] in
      record entered { downloads = abort T.id entered.downloads }

  -- The loop, over the answers to "has it finished?"; it goes on after the last of them.
  unfoldable pub watch : List Bool → Monitored → Monitored
  watch [] v = v
  watch (finished ∷ later) v = elim finished [
    | true ↦ finish_torrent v
    | false ↦ watch later (run (with_uuid S (text T.id) (λ i. execute S (λ w. w))) v)
  ]

  -- `monitor_torrent_process_internal`
  unfoldable pub monitor_torrent_process : List Bool → Monitored → Monitored
  monitor_torrent_process answers v = watch answers (run (set_status S (text T.id) "downloading") v)

-- The task of `spawn_magnet_download`. An added torrent has a handle with its files; without one the
-- task panics, and leaves everything as it is.
unfoldable pub magnet_process :
    Surroundings
    → (String → Attempt (Option (Option (List String))))
    → (id url save_dir user_id username : String) → List Bool
    → Monitored
    → Monitored
magnet_process S add id url save_dir user_id username answers v =
    elim (add (enrich_magnet_link S.encode url)) [
      | failed message ↦ run (set_status S (text id) "error") v
      | done none ↦ v
      | done (some files) ↦
          monitor_torrent_process S
            (record {
              id = id;
              user_id = user_id;
              username = username;
              virtual_base_dir = virtual_base S.storage_path username save_dir;
              files = files;
            })
            answers v
    ]
