-- ===== src/Downloader.antt =====
-- Downloads over HTTP: `download_process_internal` of crates/downloader/src/downloader_service.rs.
-- The server's answers, the failures of the database and the disk, and the clock are parameters; the
-- file can be opened. Speeds and percentages are left out.
pub mod Columns
pub mod Resume
pub mod Unfinished
pub mod Links
pub mod Tasks
pub mod Magnets
pub mod Listing
pub mod Monitor
pub mod Refused
mod Tests
use nasserver.Base.{
  ℕ, ◌+◌, String, Bool, true, false, Option, none, some, List, [], ◌∷◌, ◌++◌, length, take, ltb,
  if◌then◌else◌,
}
use nasserver.Base.Text.{◌<>◌}
use nasserver.Storage.World.{Bytes}
use nasserver.Downloader.Columns.{Value, text, uuid, as_uuid}

-- What `send` gives: a failure, or a response with its status, the announced length, and the chunks
-- that arrive. After them the body ends or, where `is_broken`, `chunk()` reports an error.
pub data HttpAnswer : Type 0 where
  no_response : String → HttpAnswer
  refused : String → HttpAnswer
  response : (content_length : Option ℕ) (chunks : List Bytes) (is_broken : Bool) → HttpAnswer

-- The row of `downloads`, without the columns that no run changes.
pub record Download : Type 0 where
  pub status : String
  pub error_msg : Option String
  pub downloaded_bytes : ℕ
  pub total_bytes : ℕ

-- The numbers count the steps of a run: a statement may fail at one, a write too, and a second may
-- have passed since the progress was stored. A write that fails may have written the beginning of its
-- bytes, of the length `part_written`. `get` answers a request, with the start of its range.
pub record Host : Type 0 where
  pub get : Option ℕ → HttpAnswer
  pub fault : ℕ → Bool
  pub write_error : ℕ → Option String
  pub part_written : ℕ → ℕ
  pub is_due : ℕ → Bool

-- A task with its identifier, its owner and its file: `file` is what is on the disk, `synced` the size in the table of files, and
-- `is_listed` says whether the task is in the map of running tasks.
pub record Task : Type 0 where
  pub id : String
  pub user_id : String
  pub row : Download
  pub file : Option Bytes
  pub synced : Option ℕ
  pub is_listed : Bool
  pub tick : ℕ

abbrev pub size_of : Option Bytes → ℕ
size_of none = 0
size_of (some bytes) = length bytes

abbrev pub bytes_of : Option Bytes → Bytes
bytes_of none = []
bytes_of (some bytes) = bytes

-- `download_tasks.remove(&id)`
abbrev pub unlist : Task → Task
unlist t = record t { is_listed = false }

module _ (H : Host) where
  -- `let _ = sqlx::query("update downloads … where id = …")`, with what is bound as the identifier.
  unfoldable pub update : Value → (Download → Download) → Task → Task
  update id change t =
      let row : Download = elim (as_uuid id) [
        | none ↦ t.row
        | some i ↦ if H.fault t.tick then t.row else change t.row
      ] in
      record t { row = row; tick = t.tick + 1 }

  abbrev pub set_error : Value → String → Task → Task
  set_error id message =
      update id (λ row. record row { status = "error"; error_msg = some message })

  -- The progress is stored where it is due.
  unfoldable pub store_progress : ℕ → Task → Task
  store_progress total t =
      if H.is_due t.tick
      then update (text t.id)
          (λ row. record row { downloaded_bytes = size_of t.file; total_bytes = total }) t
      else t

  abbrev pub write : Bytes → Task → Task
  write chunk t = record t { file = some (bytes_of t.file ++ chunk); tick = t.tick + 1 }

  -- The loop over the chunks: the text of the error that ends the run, or none.
  unfoldable pub receive : ℕ → List Bytes → Task → Option String × Task
  receive total [] t = (none, t)
  receive total (chunk ∷ chunks) t = elim (H.write_error t.tick) [
    | some message ↦ (some message, write (take (H.part_written t.tick) chunk) t)
    | none ↦ receive total chunks (store_progress total (write chunk t))
  ]

  -- `sync_file_to_db_internal`: the size of the file is inserted or updated, if the owner that is bound
  -- can stand in a column of that type.
  unfoldable pub sync_file : Value → Task → Task
  sync_file user_id t = elim t.file [
    | none ↦ t
    | some bytes ↦
        let size : Option ℕ = elim (as_uuid user_id) [
          | none ↦ t.synced
          | some u ↦ if H.fault t.tick then t.synced else some (length bytes)
        ] in
        record t { synced = size; tick = t.tick + 1 }
  ]

  -- What follows the loop.
  unfoldable pub conclude : Task → Task
  conclude t =
      unlist
        (sync_file (text t.user_id) (update (text t.id) (λ row. record row { status = "done" }) t))

  -- The file as it is opened: for appending behind what is there, or empty.
  abbrev pub open_file : Task → Task
  open_file t = record t { file = some (bytes_of t.file) }

  -- A response with a body.
  unfoldable pub take_body : Option ℕ → List Bytes → Task → Task
  take_body content_length chunks t =
      let announced : ℕ = elim content_length [ none ↦ 0 | some n ↦ n ] in
      let (error, t') = receive (announced + size_of t.file) chunks (open_file t) in
      elim error [
        | some message ↦ set_error (text t'.id) ("Write error: " <> message) t'
        | none ↦ conclude t'
      ]

  -- What follows `send`.
  unfoldable pub receive_answer : HttpAnswer → Task → Task
  receive_answer (no_response message) t =
      unlist (set_error (uuid t.id) ("Request failed: " <> message) t)
  receive_answer (refused status) t = unlist (set_error (uuid t.id) ("HTTP error: " <> status) t)
  receive_answer (response content_length chunks is_broken) t = take_body content_length chunks t

  -- `download_process_internal`
  unfoldable pub download_process : Task → Task
  download_process t =
      let offset = size_of t.file in
      receive_answer (H.get (if ltb 0 offset then some offset else none))
        (update (uuid t.id) (λ row. record row { status = "downloading" }) t)
