-- ===== src/Downloader/Refused.antt =====
-- How crates/downloader/src/downloader_service.rs answers the requests that start or control a task, on a
-- database whose identifiers are of type UUID.
use nasserver.Base.{
  String, ◌≡◌, refl, Bool, none, some, [], ◌∷◌, any, arith, if◌then◌else◌, Option-cases, Bool-cases,
  inl, inr,
}
use nasserver.Base.Text.{◌=s=◌}
use nasserver.Base.Maps.{lookup}
use nasserver.Domain.{Error, not_found, bad_request, database, err}
use nasserver.Downloader.Columns.{as_uuid, as_text}
use nasserver.Downloader.Tasks.{
  Surroundings, Downloads, Op, get_user_id_by_username, task_of, pause_task, resume_task,
  delete_task, control_task, create_task,
}
use nasserver.Downloader.Magnets.{
  Session, MagnetCache, StartMagnetDownloadReq, start_magnet_download,
}

-- The operation fails, and only the number of statements may change: no row, no directory, no running
-- task, no request to the torrent session.
abbrev pub Fails : Op (Unit {0}) → Error → Downloads → Type 0
Fails op e w =
    ((op w).0 ≡ err e)
    × ((op w).1.rows ≡ w.rows)
    × ((op w).1.directories ≡ w.directories)
    × ((op w).1.running ≡ w.running)
    × ((op w).1.requests ≡ w.requests)

abbrev pub is_action : String → Bool
is_action action = any (λ a. action =s= a) ("pause" ∷ "resume" ∷ "delete" ∷ [])

module _ (S : Surroundings) where
  no_user : (username : String) → get_user_id_by_username S username ≡ none
  unfolding get_user_id_by_username as_text
  no_user username = ground arith

  control_task-Fails :
      (id action : String) (w : Downloads)
      → Fails
          (control_task S id action)
          (if is_action action then database S.mismatch else bad_request "Invalid action")
          w
  unfolding control_task pause_task resume_task delete_task task_of as_uuid
  control_task-Fails id action w = elim (Bool-cases (action =s= "pause")) [
    | inl e ↦ rw e (refl, refl, refl, refl, refl)
    | inr e ↦ elim (Bool-cases (action =s= "resume")) [
      | inl f ↦ rw (e, f) (refl, refl, refl, refl, refl)
      | inr f ↦ elim (Bool-cases (action =s= "delete")) [
        | inl g ↦ rw (e, f, g) (refl, refl, refl, refl, refl)
        | inr g ↦ rw (e, f, g) (refl, refl, refl, refl, refl)
      ]
    ]
  ]

  create_task-Fails :
      (username link : String) (w : Downloads)
      → Fails (create_task S username link) (not_found "User not found") w
  unfolding create_task
  create_task-Fails username link w = rw (no_user username) (refl, refl, refl, refl, refl)

  start_magnet_download-Fails :
      (T : Session) (cache : MagnetCache) (username : String) (req : StartMagnetDownloadReq)
      (w : Downloads)
      → Fails
          (start_magnet_download S T cache username req)
          (elim (lookup req.token cache) as (λ _. Error) [
            | none ↦ not_found "Magnet info expired or not found"
            | some bytes ↦ not_found "User not found"
          ])
          w
  unfolding start_magnet_download
  start_magnet_download-Fails T cache username req w =
      elim (Option-cases (lookup req.token cache)) [
        | inl e ↦ rw e (refl, refl, refl, refl, refl)
        | inr (bytes, e) ↦ rw e (rw (no_user username) (refl, refl, refl, refl, refl))
      ]

-- On a database whose identifiers are of type UUID, every request to start or to control a download
-- fails, for all accounts, tasks and states, and changes no row, no directory, no running task and asks
-- nothing of the torrent session. Starting a link answers that the user is not found; starting chosen files
-- of a magnet link answers that too, or that the link is not found, where it was not resolved; an action
-- "pause", "resume" or "delete" answers with the database's error, and any other is invalid.
pub requests-Fail :
    (S : Surroundings) (T : Session) (w : Downloads)
    → ((username link : String)
        → Fails (create_task S username link) (not_found "User not found") w)
      × ((cache : MagnetCache) (username : String) (req : StartMagnetDownloadReq)
          → Fails
              (start_magnet_download S T cache username req)
              (elim (lookup req.token cache) as (λ _. Error) [
                | none ↦ not_found "Magnet info expired or not found"
                | some bytes ↦ not_found "User not found"
              ])
              w)
      × ((id action : String)
          → Fails
              (control_task S id action)
              (if is_action action then database S.mismatch else bad_request "Invalid action")
              w)
requests-Fail S T w = (
  λ username link. create_task-Fails S username link w,
  λ cache username req. start_magnet_download-Fails S T cache username req w,
  λ id action. control_task-Fails S id action w,
)
