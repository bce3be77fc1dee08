-- ===== src/Container/Tests.antt =====
-- A host with Docker, and the theorems about containers applied to it.
use nasserver.Base.{ℕ, String, ◌≡◌, ◌↔◌, refl, true, false, none, some, List, [], ◌∷◌, ltb, arith}
use nasserver.Base.Text.{◌=s=◌, starts_with}
use nasserver.Domain.{ok, done}
use nasserver.Container.Requests.{pos, Numbers, CreateContainerReq, validate_create_req}
use nasserver.Container.Requests.Valid.{IsValid, validate_create_req_iff}
use nasserver.Container.World.{Host, World}
use nasserver.Container.Create.{create_container}
use nasserver.Container.Create.Safe.{AsksFor, create_container-IsSafe}
use nasserver.Base.Maps.{lookup}
use nasserver.Container.Pull.{PullEvent, info, broken, run_pull}
use nasserver.Container.Pull.Progress.{Leaves, run_pull-Leaves}

abbrev numbers : Numbers
numbers = record {
  Float = ℕ;
  of_ℕ = λ n. n;
  lt = ltb;
  mul = λ a b. a;
  to_i64 = pos;
  is_alphanumeric = λ c. true;
}

abbrev host : Host
host = record {
  answer = λ c n. done "c1";
  devices = record { find_render_node_by_pci = λ pci. none; exists = λ path. false };
  storage_path = "/srv";
}

abbrev request : CreateContainerReq numbers
request = record {
  image_id = "nginx";
  name = some "web";
  cpu_limit = some 2;
  memory_limit = none;
  auto_start = none;
  ports = some (record { host = "8080"; container = "80" } ∷ []);
  volumes = some ("/www:/html:ro" ∷ "cache:/tmp" ∷ []);
  env = none;
  gpu_id = none;
  privileged = none;
  cap_add = none;
  network_mode = none;
  cmd = none;
  username = some "bob";
}

abbrev idle : World
idle = record { calls = []; directories = []; tick = 0 }

create_container-IsSafe_example :
    AsksFor numbers host request idle (create_container numbers host request idle).1
unfolding starts_with
create_container-IsSafe_example = create_container-IsSafe numbers host request idle refl

validate_create_req_iff_example :
    (validate_create_req numbers request ≡ ok tt) ↔ IsValid numbers request
validate_create_req_iff_example = validate_create_req_iff numbers request

abbrev stream : List PullEvent
stream = info (some "l1") (some (some 3, some 10)) ∷ broken "lost" ∷ []

run_pull-Leaves_example :
    Leaves (some "lost") (lookup "nginx" (run_pull "nginx" stream []))
    × ((k : String) → ("nginx" =s= k) ≡ false → lookup k (run_pull "nginx" stream []) ≡ none)
run_pull-Leaves_example = run_pull-Leaves "nginx" stream [] (omega arith, (tt, tt))
