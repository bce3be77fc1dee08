-- ===== src/Downloader/Tests.antt =====
-- A server with a small body, and the theorems about downloads applied to it.
use mathlib.Core.List.{append-nil}
use nasserver.Base.{ℕ, String, ◌≡◌, refl, true, false, Option, none, some, [], ◌∷◌, ◌++◌, drop}
use nasserver.Base.Text.{◌<>◌}
use nasserver.Storage.World.{Bytes}
use nasserver.Downloader.{response, Host, Task, download_process}
use nasserver.Downloader.Resume.{flat, Serves, Completes, runs, runs-Complete}
use nasserver.Downloader.Unfinished.{download_process-StaysDownloading}
use nasserver.Downloader.Tasks.{DownloadTask, Surroundings, Downloads, create_task, control_task}
use nasserver.Downloader.Refused.{Fails, is_action, requests-Fail}
use nasserver.Base.{◌↔◌, if◌then◌else◌}
use nasserver.Base.Maps.{lookup}
use nasserver.Domain.{Error, not_found, bad_request, database, done}
use nasserver.Storage.Access.Stays.{Stays, stays_test, stays_test_sound}
use nasserver.Downloader.Magnets.{
  Session, MagnetCache, StartMagnetDownloadReq, list_only, save_dir, start_magnet_download,
}
use nasserver.Downloader.Magnets.SaveDir.{save_dir-Stays_iff}

abbrev body : Bytes
body = 1 ∷ 2 ∷ 3 ∷ []

abbrev asked_for : Option ℕ → Bytes
asked_for none = body
asked_for (some offset) = drop offset body

abbrev honest : Host
honest = record {
  get = λ range. response none (asked_for range ∷ []) false;
  fault = λ n. false;
  write_error = λ n. none;
  part_written = λ n. 0;
  is_due = λ n. true;
}

-- Its connections break after the first byte of the body.
abbrev breaking : Host
breaking = record honest {
  get = λ range. elim range [
    | none ↦ response none ((1 ∷ []) ∷ []) true
    | some offset ↦ response none [] true
  ];
}

abbrev task : Task
task = record {
  id = "7";
  user_id = "2";
  row = record { status = "pending"; error_msg = none; downloaded_bytes = 0; total_bytes = 0 };
  file = none;
  synced = none;
  is_listed = true;
  tick = 0;
}

honest-Serves : Serves body honest
honest-Serves = record { whole = refl; part = λ offset. append-nil (drop offset body) }

breaking-Serves : Serves body breaking
breaking-Serves = record { whole = (2 ∷ 3 ∷ [], refl); part = λ offset. (drop offset body, refl) }

honest-Completes : Completes honest
honest-Completes = record {
  answers = λ range. (none, asked_for range ∷ [], refl);
  writes = λ n. refl;
}

runs-Complete_example :
    (download_process honest (runs (breaking ∷ breaking ∷ []) task)).file ≡ some body
runs-Complete_example =
    runs-Complete (breaking ∷ breaking ∷ []) honest body task
      (breaking-Serves, (breaking-Serves, tt)) honest-Serves honest-Completes (body, refl)

download_process-StaysDownloading_example :
    ((download_process breaking task).row ≡ record (task.row) { status = "downloading" })
    × ((download_process breaking task).synced ≡ none)
    × (((n : ℕ) → breaking.write_error n ≡ none)
        → ((download_process breaking task).file ≡ some ([] ++ flat ((1 ∷ []) ∷ [])))
          × ((download_process breaking task).is_listed ≡ false))
download_process-StaysDownloading_example =
    download_process-StaysDownloading breaking task none ((1 ∷ []) ∷ []) true refl refl

abbrev quote_link : String → String
quote_link s = "enc-" <> s

abbrev surroundings : Surroundings
surroundings = record {
  storage_path = "/srv";
  users = ("bob", "2") ∷ [];
  mismatch = "operator does not exist: uuid = text";
  new_v4 = λ n. "id";
  fault = λ n. none;
  encode = quote_link;
  decode = λ s. s;
  is_hash = λ s. true;
  is_eager = false;
}

abbrev first_task : DownloadTask
first_task = record {
  id = "7";
  url = "magnet:?xt=urn:btih:ab&dn=x";
  path = "/srv";
  filename = "x";
  status = "downloading";
}

abbrev second_task : DownloadTask
second_task = record first_task { id = "8" }

abbrev downloads : Downloads
downloads = record {
  rows = first_task ∷ second_task ∷ [];
  directories = [];
  running = "7" ∷ "8" ∷ [];
  requests = [];
  tick = 0;
}

abbrev torrent_session : Session
torrent_session = record {
  list_torrent = λ url. done (list_only "ab" (("x.iso", 5) ∷ []) (some "x") (1 ∷ []));
  add = λ url. done (some none);
  torrent_from_bytes = λ bytes. none;
}

requests-Fail_example :
    ((username link : String)
      → Fails (create_task surroundings username link) (not_found "User not found") downloads)
    × ((cache : MagnetCache) (username : String) (req : StartMagnetDownloadReq)
        → Fails
            (start_magnet_download surroundings torrent_session cache username req)
            (elim (lookup req.token cache) as (λ _. Error) [
              | none ↦ not_found "Magnet info expired or not found"
              | some bytes ↦ not_found "User not found"
            ])
            downloads)
    × ((id action : String)
        → Fails
            (control_task surroundings id action)
            (if is_action action
              then database "operator does not exist: uuid = text"
              else bad_request "Invalid action")
            downloads)
requests-Fail_example = requests-Fail surroundings torrent_session downloads

save_dir-Stays_iff_example :
    Stays (save_dir "/srv" "bob" (some "films") ("../eve", false))
    ↔ (Stays "films" × (false ≡ false → Stays "../eve"))
unfolding stays_test
save_dir-Stays_iff_example =
    save_dir-Stays_iff "/srv" "bob" "films" "../eve" false (stays_test_sound "/srv" refl)
      (stays_test_sound "bob" refl)
