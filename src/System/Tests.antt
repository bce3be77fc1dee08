-- ===== src/System/Tests.antt =====
-- A database, and the theorems about the system service applied to it.
use nasserver.Base.{
  ℕ, ◌+◌, ◌*◌, ◌≤◌, String, ◌≡◌, refl, true, false, none, some, [], ◌∷◌, length, ◌==◌,
  if◌then◌else◌, arith,
}
use nasserver.Base.Text.{◌=s=◌}
use nasserver.Domain.{database, ok, err, done, ◌>>◌}
use nasserver.System.World.{Libraries, State, query, execute}
use nasserver.System.Setup.{
  InitReq, admin_account, set_config, insert_user, is_initialized, write_setup, init_system,
}
use nasserver.System.Setup.Once.{SetsUp, inits, init_system-Once}
use nasserver.System.Setup.Halfway.{init_system-Halfway}
use nasserver.System.Settings.{
  Json, get_docker_mirrors, set_docker_mirrors, get_docker_settings, set_docker_settings,
}
use nasserver.System.Settings.Stored.{docker-Stored}
use nasserver.System.Ports.{
  Bound, bound, refused, addr_in_use, check_ports, Reports, check_ports-Reports,
}
use nasserver.System.Collector.{Sample, SystemStats, Collector, collect_all, StatsHistoryQuery}
use nasserver.System.Collector.Spaced.{collect_all-grow}

abbrev libraries : Libraries
libraries = record {
  fault = λ n. none;
  violation = "unique";
  hash_password = λ password salt. done "hash";
  new_v4 = λ n. "id";
  random_id = λ n. "beef";
}

-- Its third statement fails.
abbrev failing : Libraries
failing = record libraries { fault = λ n. if n == 2 then some "down" else none }

-- What the migrations leave.
abbrev migrated : State
migrated = record { users = []; system_config = ("setup_completed", "false") ∷ []; tick = 0 }

abbrev request : InitReq
request = record { username = "ann"; password = "secret"; device_name = "nas" }

abbrev set_up : State
set_up = (init_system libraries request migrated).1

init_system-Once_example :
    ((hash : String) × ((salt : ℕ) × (libraries.hash_password "secret" salt ≡ done hash))
      × SetsUp libraries request hash migrated set_up)
    × ((inits libraries (request ∷ request ∷ []) set_up).users ≡ set_up.users)
    × ((inits libraries (request ∷ request ∷ []) set_up).system_config ≡ set_up.system_config)
unfolding init_system is_initialized write_setup query execute insert_user set_config
init_system-Once_example =
    init_system-Once libraries request (request ∷ request ∷ []) migrated set_up refl

init_system-Halfway_example :
    (v : State) × (init_system failing request migrated ≡ (err (database "down"), v))
    × (v.users ≡ admin_account request "hash" "id" ∷ [])
    × (v.system_config ≡ migrated.system_config)
init_system-Halfway_example =
    init_system-Halfway failing request "hash" "down" migrated refl refl refl refl refl refl

-- A printer that knows one value.
abbrev json : Json
json = record {
  Value = Unit {0};
  to_string = λ v. done "{}";
  from_str = λ s. some tt;
  list_to_string = λ vs. done "[{}]";
  list_from_str = λ s. some (tt ∷ []);
  no_mirror = tt;
}

docker-Stored_example :
    (v : State) × ((set_docker_mirrors libraries json (tt ∷ [])
          >> set_docker_settings libraries json tt)
        migrated
      ≡ (ok tt, v))
    × ((get_docker_mirrors libraries json v).0 ≡ ok (tt ∷ []))
    × ((get_docker_settings libraries json v).0 ≡ ok tt)
docker-Stored_example =
    docker-Stored libraries json (tt ∷ []) tt "[{}]" "{}" migrated (λ n. refl) refl refl refl refl

-- Only one address is taken.
abbrev bind : String → Bound
bind address = if address =s= "[::]:80" then refused addr_in_use "in use" else bound

abbrev sample : Sample ℕ
sample = record {
  readings = 7;
  diskstats = none;
  made = 100;
  checked = 100;
  stored = 101;
  fails = false;
}

abbrev starting : Collector ℕ
starting = record {
  last_record = 30;
  last_disk_read = 0;
  last_disk_write = 0;
  first_disk_run = true;
  last_stats = none;
  rows = [];
}

collect_all-grow_example :
    60 * length (collect_all (sample ∷ sample ∷ []) starting).rows + 30
    ≤ 60 * 0 + (collect_all (sample ∷ sample ∷ []) starting).last_record
collect_all-grow_example = collect_all-grow (sample ∷ sample ∷ []) starting (omega arith)

abbrev stats : SystemStats ℕ
stats = record { readings = 7; disk_read = 0; disk_write = 0; created_at = 100 }

abbrev last_ten : StatsHistoryQuery
last_ten = record { start = none; end = none; limit = some 10 }

check_ports-Reports_example :
    Reports bind (λ n. "80") (80 ∷ 81 ∷ []) (check_ports bind (λ n. "80") (80 ∷ 81 ∷ []))
check_ports-Reports_example = check_ports-Reports bind (λ n. "80") (80 ∷ 81 ∷ [])
