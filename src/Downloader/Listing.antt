-- ===== src/Downloader/Listing.antt =====
-- `list_tasks` of crates/downloader/src/downloader_service.rs. What the torrent session tells of a
-- torrent is a parameter; a progress is the pair of numbers that it is the percentage of, and the speed
-- is left out.
use nasserver.Base.{
  ℕ, suc, String, Option, none, some, List, [], ◌∷◌, map, ltb, get_elem?, if◌then◌else◌,
}
use nasserver.Domain.{pure, ◌>>=◌}
use nasserver.Downloader.Links.{get_virtual_path}
use nasserver.Downloader.Tasks.{DownloadTask, Surroundings, Op, query, hash_of}

-- The numbers of a torrent: `file_progress` goes by the files' positions.
pub record TorrentStats : Type 0 where
  pub state : String
  pub progress_bytes : ℕ
  pub total_bytes : ℕ
  pub file_progress : List ℕ

pub record TorrentDetails : Type 0 where
  pub stats : Option TorrentStats
  pub files : Option (List (String × ℕ))

-- The columns of a task that a torrent's numbers replace.
pub record Numbers : Type 0 where
  pub progress : ℕ × ℕ
  pub downloaded_bytes : ℕ
  pub total_bytes : ℕ

pub record SubTask : Type 0 where
  pub filename : String
  pub progress : Option (ℕ × ℕ)
  pub total_bytes : ℕ
  pub downloaded_bytes : ℕ
  pub status : String

-- `DownloadTaskResp`
pub record DownloadTaskResp : Type 0 where
  pub task : DownloadTask
  pub numbers : Numbers
  pub virtual_path : String
  pub sub_tasks : Option (List SubTask)

abbrev pub or_zero : Option ℕ → ℕ
or_zero none = 0
or_zero (some n) = n

-- `file_progress.and_then(|fp| fp.get(idx).copied()).unwrap_or(0)`
abbrev pub file_progress_at : Option TorrentStats → ℕ → ℕ
file_progress_at none i = 0
file_progress_at (some s) i = or_zero (get_elem? s.file_progress i)

abbrev pub sub_task : Option TorrentStats → String → ℕ → String × ℕ → SubTask
sub_task stats status i file = record {
  filename = file.0;
  progress = if ltb 0 file.1 then some (file_progress_at stats i, file.1) else none;
  total_bytes = file.1;
  downloaded_bytes = file_progress_at stats i;
  status = status;
}

-- The loop over the files, from the position `i`.
unfoldable pub sub_tasks_from : Option TorrentStats → String → ℕ → List (String × ℕ) → List SubTask
sub_tasks_from stats status i [] = []
sub_tasks_from stats status i (file ∷ files) =
    sub_task stats status i file ∷ sub_tasks_from stats status (suc i) files

unfoldable pub with_stats : Option TorrentStats → DownloadTaskResp → DownloadTaskResp
with_stats none r = r
with_stats (some s) r = record r {
  task = record (r.task) { status = s.state };
  numbers = record {
    progress =
        if ltb 0 s.total_bytes then (s.progress_bytes, s.total_bytes) else r.numbers.progress;
    downloaded_bytes = s.progress_bytes;
    total_bytes = s.total_bytes;
  };
}

unfoldable pub with_files : TorrentDetails → DownloadTaskResp → DownloadTaskResp
with_files details r = elim details.files [
  | none ↦ r
  | some files ↦ record r { sub_tasks = some (sub_tasks_from details.stats r.task.status 0 files) }
]

-- The details of a task's torrent, where its link starts with a hash that can be read.
unfoldable pub details_of :
    Surroundings → (String → Option TorrentDetails) → DownloadTask → Option TorrentDetails
details_of S torrent_details t = elim (hash_of t.url) [
  | none ↦ none
  | some hash ↦ if S.is_hash hash then torrent_details hash else none
]

unfoldable pub response_of :
    Surroundings
    → (String → Option TorrentDetails)
    → (DownloadTask → Numbers)
    → DownloadTask
    → DownloadTaskResp
response_of S torrent_details numbers t =
    let r : DownloadTaskResp = record {
      task = t;
      numbers = numbers t;
      virtual_path = get_virtual_path S.storage_path t.path;
      sub_tasks = none;
    } in
    elim (details_of S torrent_details t) [
      | none ↦ r
      | some details ↦ with_files details (with_stats details.stats r)
    ]

-- `list_tasks`; `newest_first` is the database's order, and `numbers` the columns of a row.
unfoldable pub list_tasks :
    Surroundings
    → (String → Option TorrentDetails)
    → (DownloadTask → Numbers)
    → (List DownloadTask → List DownloadTask)
    → Op (List DownloadTaskResp)
list_tasks S torrent_details numbers newest_first = do
  tasks ← query S (λ w. newest_first w.rows)
  pure (map (response_of S torrent_details numbers) tasks)
