-- ===== src/Downloader/Magnets.antt =====
-- Torrents that a user chooses files of: `resolve_magnet` and `start_magnet_download` of
-- crates/downloader/src/downloader_service.rs. What the torrent session answers, and the reader of a
-- torrent's bytes, are parameters.
pub mod SaveDir
use nasserver.Base.{
  ℕ, ◌+◌, String, Bool, true, false, not, Option, none, some, List, [], ◌∷◌, ◌++◌, if◌then◌else◌,
}
use nasserver.Base.Maps.{lookup, insert}
use nasserver.Base.Text.{◌<>◌, trim_start_char}
use nasserver.Domain.{
  Error, internal, not_found, Result, ok, err, Attempt, done, failed, pure, fail, expect, ◌>>=◌,
  ◌>>◌,
}
use nasserver.Storage.World.{Bytes}
use nasserver.Downloader.Links.{enrich_magnet_link}
use nasserver.Downloader.Tasks.{
  get_user_id_by_username, DownloadTask, Surroundings, Downloads, Op, TorrentRequest, add_torrent,
  ask, change, enlist, insert_download, ensure_directory_exists,
}

-- `magnet_cache`
abbrev pub MagnetCache : Type 0
MagnetCache = List (String × Bytes)

-- What a torrent's bytes say: its name, and whether it is one file.
pub record TorrentMeta : Type 0 where
  pub name : Option String
  pub is_single_file : Bool

-- What `add_torrent` gives for a list only: the hash, the files with their sizes, the name and the bytes.
pub data ListAnswer : Type 0 where
  list_only :
      (info_hash : String) (files : List (String × ℕ)) (name : Option String)
      (torrent_bytes : Bytes)
      → ListAnswer
  other_answer : ListAnswer

-- The torrent session. An added torrent has a handle or none, and the handle a name or none.
pub record Session : Type 0 where
  pub list_torrent : String → Attempt ListAnswer
  pub add : String → Attempt (Option (Option String))
  pub torrent_from_bytes : Bytes → Option TorrentMeta

-- `ResolveMagnetResp`; a file's index is its position.
pub record ResolveMagnetResp : Type 0 where
  pub token : String
  pub files : List (String × ℕ)
  pub name : Option String

-- `StartMagnetDownloadReq`, without the chosen files.
pub record StartMagnetDownloadReq : Type 0 where
  pub token : String
  pub path : Option String

-- The name of the torrent's directory, and whether it is one file.
abbrev pub name_and_kind : Option TorrentMeta → String × Bool
name_and_kind none = ("magnet_download", false)
name_and_kind (some meta) = elim meta.name [
  | none ↦ ("magnet_download", meta.is_single_file)
  | some name ↦ (name, meta.is_single_file)
]

-- The directory of the user's files that is asked for, or the one for downloads.
abbrev pub relative_path : Option String → String
relative_path none = "下载"
relative_path (some p) = trim_start_char b'/' p

abbrev pub base_save_dir : String → String → Option String → String
base_save_dir storage_path username path =
    storage_path <> ("/" <> ("vol1/User" <> ("/" <> (username <> ("/" <> relative_path path)))))

-- Where the torrent is stored: several files get a directory of their own.
unfoldable pub save_dir : String → String → Option String → String × Bool → String
save_dir storage_path username path torrent =
    if not torrent.1
    then base_save_dir storage_path username path <> ("/" <> torrent.0)
    else base_save_dir storage_path username path

module _ (S : Surroundings) (T : Session) where
  -- `resolve_magnet`
  unfoldable pub resolve_magnet : String → MagnetCache → Result ResolveMagnetResp × MagnetCache
  resolve_magnet magnet_url cache = elim (T.list_torrent (enrich_magnet_link S.encode magnet_url)) [
    | failed message ↦ (err (internal ("Failed to resolve magnet: " <> message)), cache)
    | done other_answer ↦
        (err (internal "Unexpected response from torrent engine (not ListOnly)"), cache)
    | done (list_only info_hash files name torrent_bytes) ↦ (
      ok (record { token = info_hash; files = files; name = name }),
      insert info_hash torrent_bytes cache,
    )
  ]

  abbrev pub magnet_task : String → String → String → String → DownloadTask
  magnet_task id url dir name = record {
    id = id;
    url = url;
    path = dir;
    filename = name;
    status = "downloading";
  }

  -- What follows `add_torrent`.
  unfoldable pub store_magnet : String → String → String → String → Op (Unit {0})
  store_magnet id url dir torrent_name = elim (T.add url) [
    | failed message ↦ fail (internal ("Failed to start download: " <> message))
    | done none ↦ fail (internal "Failed to get torrent handle")
    | done (some name) ↦
        insert_download S (magnet_task id url dir (elim name [ none ↦ torrent_name | some n ↦ n ]))
        >> change (enlist id)
  ]

  -- The directory for downloads is entered where no other is asked for.
  abbrev pub enter_default : String → Option String → Op (Unit {0})
  enter_default user_id none = ensure_directory_exists S user_id "/下载"
  enter_default user_id (some p) = pure tt

  -- `start_magnet_download`
  unfoldable pub start_magnet_download :
      MagnetCache → String → StartMagnetDownloadReq → Op (Unit {0})
  start_magnet_download cache username req w =
      (expect (lookup req.token cache) (not_found "Magnet info expired or not found")
          >>= λ torrent_bytes.
              expect (get_user_id_by_username S username) (not_found "User not found")
              >>= λ user_id.
                  let torrent = name_and_kind (T.torrent_from_bytes torrent_bytes) in
                  let dir = save_dir S.storage_path username req.path torrent in
                  let url = enrich_magnet_link S.encode ("magnet:?xt=urn:btih:" <> req.token) in
                  enter_default user_id req.path
                  >> (change (ask (add_torrent url))
                      >> store_magnet (S.new_v4 w.tick) url dir torrent.0))
        (record w { tick = w.tick + 1 })
