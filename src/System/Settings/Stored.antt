-- ===== src/System/Settings/Stored.antt =====
-- Settings are read as they were stored.
use nasserver.Base.{ℕ, ◌+◌, String, ◌≡◌, none, some, List, arith}
use nasserver.Base.Maps.{insert}
use nasserver.Domain.{ok, done, ◌>>◌}
use nasserver.System.World.{Libraries, State, query, execute}
use nasserver.System.Setup.{set_config}
use nasserver.System.Settings.{
  Json, get_docker_mirrors, set_docker_mirrors, get_docker_settings, set_docker_settings,
}

-- Where no statement fails and serde_json reads what it prints: after the mirrors and then the settings
-- are stored, the mirrors and the settings that were stored are read.
pub docker-Stored :
    (L : Libraries) (J : Json) (mirrors : List J.Value) (settings : J.Value) (list text : String)
    (w : State)
    → ((n : ℕ) → L.fault n ≡ none)
    → J.list_to_string mirrors ≡ done list
    → J.list_from_str list ≡ some mirrors
    → J.to_string settings ≡ done text
    → J.from_str text ≡ some settings
    → (v : State) × ((set_docker_mirrors L J mirrors >> set_docker_settings L J settings) w
        ≡ (ok tt, v))
      × ((get_docker_mirrors L J v).0 ≡ ok mirrors)
      × ((get_docker_settings L J v).0 ≡ ok settings)
unfolding set_docker_mirrors set_docker_settings get_docker_mirrors get_docker_settings query
    execute set_config
docker-Stored L J mirrors settings list text w runs print_list read_list print read =
    let v : State = record w {
      system_config = insert "docker_mirror" text (insert "docker_mirrors" list w.system_config);
      tick = w.tick + 1 + 1;
    } in
    (
      v,
      ground (arith, runs w.tick, runs (w.tick + 1)),
      ground (arith, runs (w.tick + 1 + 1)),
      ground (arith, runs (w.tick + 1 + 1)),
    )
