-- ===== src/Downloader/Tasks.antt =====
-- The tasks of crates/downloader/src/downloader_service.rs: `create_task`, `control_task` and
-- `ensure_directory_exists`. The accounts, the database's failures, identifiers, the urlencoding
-- package and the reader of a torrent's hash are parameters; what the torrent session is asked for is
-- a list of requests. `running` is the keys of the map `download_tasks`: a download that is started is
-- entered there, and what the runs do themselves is in Downloader.
use nasserver.Base.{
  ℕ, ◌+◌, String, code, Bool, true, false, not, ◌&&◌, ◌||◌, ◌==◌, Option, none, some, List, [], ◌∷◌,
  ◌++◌, map, keep, any, find, length, if◌then◌else◌,
}
use nasserver.Base.Text.{◌<>◌, ◌=s=◌, is_empty, starts_with, strip_prefix, split}
use nasserver.Base.Text.Space.{trim}
use nasserver.Domain.{
  not_found, bad_request, database, ok, err, M, pure, fail, expect, ignore, ◌>>=◌, ◌>>◌,
}
use nasserver.Storage.Paths.{path_parts, last?}
use nasserver.Base.Maps.{lookup}
use nasserver.Downloader.Columns.{Value, text, uuid, as_uuid, as_text}
use nasserver.Downloader.Links.{enrich_magnet_link}

-- `DownloadTask`, without its progress and its times.
pub record DownloadTask : Type 0 where
  pub id : String
  pub url : String
  pub path : String
  pub filename : String
  pub status : String

-- A row of `cloud_files` for a directory.
pub record DirectoryRow : Type 0 where
  pub user_id : String
  pub dir : String
  pub name : String

pub data TorrentRequest : Type 0 where
  add_torrent pause_torrent start_torrent delete_torrent : String → TorrentRequest

-- `users` is the table of accounts, with the column `id` of type UUID; `mismatch` is PostgreSQL's
-- error for an operator that it does not have; `decode` yields "" for what it cannot read; `is_eager`
-- says whether the torrent session's pause and start act without being awaited. `fault` also stands
-- for an insertion that fails at the row of a file with the same key.
pub record Surroundings : Type 0 where
  pub storage_path : String
  pub users : List (String × String)
  pub mismatch : String
  pub new_v4 : ℕ → String
  pub fault : ℕ → Option String
  pub encode : String → String
  pub decode : String → String
  pub is_hash : String → Bool
  pub is_eager : Bool

pub record Downloads : Type 0 where
  pub rows : List DownloadTask
  pub directories : List DirectoryRow
  pub running : List String
  pub requests : List TorrentRequest
  pub tick : ℕ

abbrev pub Op : Type 0 → Type 0
Op A = M Downloads A

-- `trim_end_matches([',', ';', ' '])`
unfoldable pub trim_separators : String → String
trim_separators String.[] = ""
trim_separators (String.◌∷◌ c s) =
    let rest = trim_separators s in
    if is_empty rest && (code c == b',' || (code c == b';' || code c == b' '))
    then ""
    else String.◌∷◌ c rest

abbrev pub first_of : List String → String → String
first_of [] d = d
first_of (x ∷ xs) d = x

abbrev pub last_of : List String → String → String
last_of xs d = elim (last? xs) [ none ↦ d | some x ↦ x ]

-- The name in a magnet link, its parameter "dn".
unfoldable pub magnet_name : (String → String) → String → String
magnet_name decode url = elim (find (λ p. starts_with p "dn=") (split b'&' url)) [
  | none ↦ "magnet_download"
  | some p ↦ elim (strip_prefix p "dn=") [ none ↦ "" | some name ↦ decode name ]
]

-- The name of the file behind a link, without what follows a question mark.
unfoldable pub url_name : String → String
url_name url = let name = last_of (split b'/' url) "download" in first_of (split b'?' name) name

-- The hash in a magnet link that starts with it.
unfoldable pub hash_of : String → Option String
hash_of url = elim (strip_prefix url "magnet:?xt=urn:btih:") [
  | none ↦ none
  | some hash ↦ some (first_of (split b'&' hash) hash)
]

abbrev pub has_id : String → DownloadTask → Bool
has_id id t = t.id =s= id

-- `download_tasks.insert`: one entry for an identifier. The run of an entry that is replaced goes on.
abbrev pub enlist : String → Downloads → Downloads
enlist id w = record w { running = id ∷ keep (λ r. not (r =s= id)) w.running }

-- `download_tasks.remove`, and the run is aborted.
abbrev pub abort : String → Downloads → Downloads
abort id w = record w { running = keep (λ r. not (r =s= id)) w.running }

abbrev pub ask : TorrentRequest → Downloads → Downloads
ask r w = record w { requests = w.requests ++ (r ∷ []) }

abbrev pub change : (Downloads → Downloads) → Op (Unit {0})
change f w = (ok tt, f w)

-- `unwrap_or(false)`
abbrev pub or_false : Op Bool → Op Bool
or_false m w = let (r, w') = m w in (ok (elim r [ ok b ↦ b | err e ↦ false ]), w')

module _ (S : Surroundings) where
  -- A statement that reads.
  abbrev pub query : {A : Type 0} → (Downloads → A) → Op A
  query f w = elim (S.fault w.tick) [
    | some message ↦ (err (database message), record w { tick = w.tick + 1 })
    | none ↦ (ok (f w), record w { tick = w.tick + 1 })
  ]

  -- A statement that writes. A failed statement changes no row.
  abbrev pub execute : (Downloads → Downloads) → Op (Unit {0})
  execute f w = elim (S.fault w.tick) [
    | some message ↦ (err (database message), record w { tick = w.tick + 1 })
    | none ↦ (ok tt, f (record w { tick = w.tick + 1 }))
  ]

  -- A statement that compares a column of type UUID with what is bound.
  abbrev pub with_uuid : {A : Type 0} → Value → (String → Op A) → Op A
  with_uuid v f w = elim (as_uuid v) [
    | none ↦ (err (database S.mismatch), record w { tick = w.tick + 1 })
    | some id ↦ f id w
  ]

  -- `get_user_id_by_username`: a result that is not decoded counts as none.
  unfoldable pub get_user_id_by_username : String → Option String
  get_user_id_by_username username = elim (lookup username S.users) [
    | none ↦ none
    | some id ↦ as_text (uuid id)
  ]

  -- The test for a directory's row; a failed statement counts as no.
  unfoldable pub has_directory : DirectoryRow → Op Bool
  has_directory d = or_false (
      with_uuid (text d.user_id) (λ owner. query (λ w.
        any (λ (r : DirectoryRow). r.user_id =s= owner && (r.dir =s= d.dir && r.name =s= d.name))
          w.directories)))

  -- The loop of `ensure_directory_exists` over the parts below `current`.
  unfoldable pub ensure_parts : String → String → List String → Op (Unit {0})
  ensure_parts user_id current [] = pure tt
  ensure_parts user_id current (name ∷ names) =
      let row : DirectoryRow = record { user_id = user_id; dir = current; name = name } in
      (has_directory row >>= λ exists.
      if exists
      then pure tt
      else ignore (
          with_uuid (text user_id) (λ owner. execute (λ w. record w {
            directories = w.directories ++ (record row { user_id = owner } ∷ []);
          }))))
      >> ensure_parts user_id (if current =s= "/" then "/" <> name else current <> ("/" <> name))
          names

  -- `ensure_directory_exists`
  unfoldable pub ensure_directory_exists : String → String → Op (Unit {0})
  ensure_directory_exists user_id virtual_dir =
      if virtual_dir =s= "/" then pure tt else ensure_parts user_id "/" (path_parts virtual_dir)

  abbrev pub insert_download : DownloadTask → Op (Unit {0})
  insert_download t = execute (λ w. record w { rows = w.rows ++ (t ∷ []) })

  -- `create_task`
  unfoldable pub create_task : String → String → Op (Unit {0})
  create_task username link w =
      let id = S.new_v4 w.tick in
      let url = enrich_magnet_link S.encode (trim_separators (trim link)) in
      let save_dir = S.storage_path <> ("/vol1/User/" <> (username <> "/下载")) in
      let magnet : DownloadTask = record {
        id = id;
        url = url;
        path = save_dir;
        filename = magnet_name S.decode url;
        status = "pending";
      } in
      let plain : DownloadTask = record {
        id = id;
        url = url;
        path = save_dir <> ("/" <> url_name url);
        filename = url_name url;
        status = "pending";
      } in
      (expect (get_user_id_by_username username) (not_found "User not found") >>= λ user_id.
      ensure_directory_exists user_id "/下载"
      >> (if starts_with url "magnet:?"
          then insert_download magnet >> change (λ v. enlist id (ask (add_torrent url) v))
          else insert_download plain >> change (enlist id)))
        (record w { tick = w.tick + 1 })

  -- The task of an identifier.
  unfoldable pub task_of : String → Op DownloadTask
  task_of id = do
    found ← with_uuid (text id) (λ i. query (λ w. find (has_id i) w.rows))
    expect found (not_found "Task not found")

  -- A request to the torrent session, where the link starts with a hash that can be read. A call
  -- that is not awaited is made only if the session makes such calls.
  unfoldable pub ask_torrent : Bool → (String → TorrentRequest) → String → Op (Unit {0})
  ask_torrent is_awaited request url = elim (hash_of url) [
    | none ↦ pure tt
    | some hash ↦
        if S.is_hash hash && (is_awaited || S.is_eager)
        then change (ask (request hash))
        else pure tt
  ]

  unfoldable pub set_status : Value → String → Op (Unit {0})
  set_status id status = with_uuid id (λ i. execute (λ w. record w {
    rows =
        map (λ (t : DownloadTask). if has_id i t then record t { status = status } else t) w.rows;
  }))

  unfoldable pub pause_task : String → Op (Unit {0})
  pause_task id = do
    t ← task_of id
    ask_torrent false pause_torrent t.url
    set_status (text id) "paused"
    change (abort id)

  -- A link that does not start with a hash is fetched over HTTP.
  unfoldable pub resume_task : String → Op (Unit {0})
  resume_task id = do
    t ← task_of id
    if starts_with t.url "magnet:?xt=urn:btih:"
        then ask_torrent false start_torrent t.url
        else change (enlist t.id)
    set_status (text id) "downloading"

  unfoldable pub delete_task : String → Op (Unit {0})
  delete_task id = do
    t ← task_of id
    ask_torrent true delete_torrent t.url
    with_uuid (text id) (λ i.
        execute (λ w. record w { rows = keep (λ (t : DownloadTask). not (has_id i t)) w.rows }))
    change (abort id)

  -- `control_task`
  unfoldable pub control_task : String → String → Op (Unit {0})
  control_task id action =
      if action =s= "pause"
      then pause_task id
      else if action =s= "resume"
      then resume_task id
      else if action =s= "delete"
      then delete_task id
      else fail (bad_request "Invalid action")

  -- `get_stats`, without the speed: the numbers of all tasks and of those that are downloading.
  unfoldable pub get_stats : Op (ℕ × ℕ)
  get_stats = do
    total ← query (λ w. length w.rows)
    active ← query (λ w. length (keep (λ (t : DownloadTask). t.status =s= "downloading") w.rows))
    pure (total, active)
