-- ===== src/Downloader/Unfinished.antt =====
-- What a run of `download_process_internal` of crates/downloader/src/downloader_service.rs leaves in the
-- tables once a body has arrived.
use nasserver.Base.{
  ℕ, ◌+◌, ◌≡◌, refl, ap, ◌∙◌, Bool, false, Option, none, some, List, [], ◌∷◌, ◌++◌, ltb,
  if◌then◌else◌, arith, Option-cases, inl, inr,
}
use nasserver.Storage.World.{Bytes}
use nasserver.Downloader.Columns.{uuid, as_uuid}
use nasserver.Downloader.{
  response, Host, Task, size_of, bytes_of, update, store_progress, write, receive, sync_file,
  conclude, open_file, take_body, receive_answer, download_process,
}
use nasserver.Downloader.Resume.{flat, receive-none, take_body-IsPrefix}

-- The tables are as they were.
abbrev pub SameTables : Task → Task → Type 0
SameTables t t' = (t'.row ≡ t.row) × (t'.synced ≡ t.synced)

module _ (H : Host) where
  store_progress-SameTables : (total : ℕ) (t : Task) → SameTables t (store_progress H total t)
  unfolding store_progress update as_uuid
  store_progress-SameTables total t = (ground arith, ground arith)

  receive-SameTables :
      (total : ℕ) (chunks : List Bytes) (t : Task) → SameTables t (receive H total chunks t).1
  unfolding receive
  receive-SameTables total [] t = (refl, refl)
  receive-SameTables total (chunk ∷ chunks) t = elim (Option-cases (H.write_error t.tick)) [
    | inr (message, e) ↦ (rw (e, receive) refl, rw (e, receive) refl)
    | inl e ↦
        let v = write H chunk t in
        let (row, synced) = store_progress-SameTables total v in
        let (row', synced') = receive-SameTables total chunks (store_progress H total v) in
        (rw (e, receive) (row' ∙ row), rw (e, receive) (synced' ∙ synced))
  ]

  conclude-SameTables : (t : Task) → SameTables t (conclude H t)
  unfolding conclude sync_file update as_uuid
  conclude-SameTables t = (ground arith, ground arith)

  take_body-SameTables :
      (len : Option ℕ) (chunks : List Bytes) (t : Task) → SameTables t (take_body H len chunks t)
  unfolding take_body update as_uuid
  take_body-SameTables len chunks t =
      let announced : ℕ = elim len [ none ↦ 0 | some n ↦ n ] in
      let r = receive H (announced + size_of t.file) chunks (open_file H t) in
      let (row, synced) = receive-SameTables (announced + size_of t.file) chunks (open_file H t) in
      let (row', synced') = conclude-SameTables r.1 in
      elim (Option-cases r.0) [
        | inl e ↦ (rw (e, take_body) (row' ∙ row), rw (e, take_body) (synced' ∙ synced))
        | inr (message, e) ↦ (rw (e, take_body) row, rw (e, take_body) synced)
      ]

  take_body-unlisted :
      (len : Option ℕ) (chunks : List Bytes) (t : Task)
      → ((n : ℕ) → H.write_error n ≡ none)
      → (take_body H len chunks t).is_listed ≡ false
  unfolding take_body conclude
  take_body-unlisted len chunks t writes =
      let announced : ℕ = elim len [ none ↦ 0 | some n ↦ n ] in
      rw (receive-none H (announced + size_of t.file) chunks (open_file H t) writes, take_body) refl

-- A run that receives a body, whole or broken off, leaves the row of the download as its first statement
-- has set it: the status is "downloading", where that statement does not fail, and no error and no progress
-- is stored; the table of files is as it was. That holds whatever is written and whatever else fails. If no
-- write fails, all chunks stand in the file behind what was there, and the task leaves the map of running
-- tasks.
pub download_process-StaysDownloading :
    (H : Host) (t : Task) (len : Option ℕ) (chunks : List Bytes) (is_broken : Bool)
    → H.fault t.tick ≡ false
    → H.get (if ltb 0 (size_of t.file) then some (size_of t.file) else none)
      ≡ response len chunks is_broken
    → ((download_process H t).row ≡ record (t.row) { status = "downloading" })
      × ((download_process H t).synced ≡ t.synced)
      × (((n : ℕ) → H.write_error n ≡ none)
          → ((download_process H t).file ≡ some (bytes_of t.file ++ flat chunks))
            × ((download_process H t).is_listed ≡ false))
unfolding download_process receive_answer update as_uuid
download_process-StaysDownloading H t len chunks is_broken first e =
    let v = update H (uuid t.id) (λ row. record row { status = "downloading" }) t in
    let (row, synced) = take_body-SameTables H len chunks v in
    let (written, now, made, all) = take_body-IsPrefix H len chunks v in
    let started : v.row ≡ record (t.row) { status = "downloading" } = ground arith in
    (
      ap (λ a. (receive_answer H a v).row) e ∙ (row ∙ started),
      ap (λ a. (receive_answer H a v).synced) e ∙ synced,
      λ writes. (
        ap (λ a. (receive_answer H a v).file) e
            ∙ (now ∙ ap (λ xs. some (bytes_of t.file ++ xs)) (all writes)),
        ap (λ a. (receive_answer H a v).is_listed) e ∙ take_body-unlisted H len chunks v writes,
      ),
    )
