-- ===== src/Container/Create.antt =====
-- `create_container` of crates/container/src/container_service.rs.
pub mod Safe
use nasserver.Base.{
  String, Bool, true, false, not, ◌&&◌, ◌||◌, Option, none, some, List, [], ◌∷◌, ◌++◌, all, any,
  keep, if◌then◌else◌,
}
use nasserver.Base.Text.{◌<>◌, ◌=s=◌, is_empty, starts_with, split, join}
use nasserver.Base.Text.Search.{split_once}
use nasserver.Domain.{bad_request, Result, ok, err, pure, ◌>>=◌, ◌>>◌}
use nasserver.Container.Requests.{
  ℤ, Numbers, PortMapping, CreateContainerReq, or_empty, validate_create_req,
}
use nasserver.Container.Gpu.{GpuDockerConfig, no_gpu, resolve_gpu_config}
use nasserver.Container.HostPaths.{resolve_physical_path}
use nasserver.Container.World.{
  HostConfig, Config, DockerCall, create_call, start_call, Host, Op, lift, docker, create_dir_all,
}

-- The text before the first colon and the one after it; nothing follows a text without one.
abbrev pub cut : String → String × String
cut s = elim (split_once ":" s) [ none ↦ (s, "") | some parts ↦ parts ]

-- `splitn(3, ':')`, a missing part being empty.
abbrev pub host_part : String → String
host_part v = (cut v).0

abbrev pub container_part : String → String
container_part v = (cut (cut v).1).0

abbrev pub options_part : String → String
options_part v = (cut (cut v).1).1

abbrev pub valid_options : List String
valid_options =
    "z" ∷ "Z" ∷ "ro" ∷ "rw" ∷ "rslave" ∷ "rprivate" ∷ "rshared" ∷ "delegated" ∷ "cached"
    ∷ "consistent" ∷ []

-- The loop over the options of a volume.
unfoldable pub check_options : String → List String → Result (Unit {0})
check_options v [] = ok tt
check_options v (opt ∷ opts) =
    let rest = check_options v opts in
    if not (any (λ o. o =s= opt) valid_options)
    then err (
        bad_request (
          "Invalid volume option '"
          <> (opt
              <> ("' in volume bind '"
                  <> (v <> ("'. Allowed options are: " <> join ", " valid_options))))))
    else rest

-- `port_bindings.insert`
abbrev pub insert_binding : String × String → List (String × String) → List (String × String)
insert_binding b bs = b ∷ keep (λ (c : String × String). not (c.0 =s= b.0)) bs

unfoldable pub port_bindings : List (String × String) → List PortMapping → List (String × String)
port_bindings bs [] = bs
port_bindings bs (p ∷ ps) = port_bindings (insert_binding (p.container <> "/tcp", p.host) bs) ps

-- A list, unless it is empty.
abbrev pub if_any {ℓ} : {A : Type ℓ} → List A → Option (List A)
if_any [] = none
if_any (x ∷ xs) = some (x ∷ xs)

abbrev pub map_option {ℓ κ} : {A : Type ℓ} {B : Type κ} → (A → B) → Option A → Option B
map_option f none = none
map_option f (some a) = some (f a)

abbrev pub bind_text : String → String → String
bind_text path v =
    path
    <> (":"
        <> (container_part v <> (if is_empty (options_part v) then "" else ":" <> options_part v)))

abbrev pub or_else : Option Bool → Bool → Bool
or_else none d = d
or_else (some b) d = b

module _ (H : Host) where
  -- The host's side of a volume: a path is resolved and created, any other text names a volume.
  unfoldable pub host_path : Option String → String → Op String
  host_path username part =
      if starts_with part "/" || starts_with part "."
      then (do
        path ← lift (resolve_physical_path H.storage_path username part)
        create_dir_all path
        pure path)
      else pure part

  -- One round of the loop over the volumes.
  unfoldable pub bind_volume : Option String → String → Op String
  bind_volume username v = do
    path ← host_path username (host_part v)
    lift
        (if is_empty (options_part v) then ok tt else check_options v (split b',' (options_part v)))
    pure (bind_text path v)

  unfoldable pub bind_volumes : Option String → List String → Op (List String)
  bind_volumes username [] = pure []
  bind_volumes username (v ∷ vs) = do
    b ← bind_volume username v
    bs ← bind_volumes username vs
    pure (b ∷ bs)

  unfoldable pub optional_binds : Option String → Option (List String) → Op (Option (List String))
  optional_binds username none = pure none
  optional_binds username (some vs) = do bs ← bind_volumes username vs; pure (some bs)

  -- The devices that the request asks for.
  unfoldable pub gpu_of : Option String → GpuDockerConfig
  gpu_of none = no_gpu
  gpu_of (some gpu_id) = if is_empty gpu_id then no_gpu else resolve_gpu_config H.devices gpu_id

module _ (N : Numbers) (H : Host) where
  -- `cpu * 1e9`
  abbrev pub nano_cpus : N.Float → ℤ
  nano_cpus cpu = N.to_i64 (N.mul cpu (N.of_ℕ 1000000000))

  -- `mem * 1024.0 * 1024.0 * 1024.0`
  abbrev pub memory_bytes : N.Float → ℤ
  memory_bytes mem = N.to_i64 (N.mul (N.mul (N.mul mem (N.of_ℕ 1024)) (N.of_ℕ 1024)) (N.of_ℕ 1024))

  unfoldable pub config_of : CreateContainerReq N → Option (List String) → Config
  config_of req binds =
      let gpu = gpu_of H req.gpu_id in
      record {
        image = req.image_id;
        host_config = record {
          port_bindings = map_option (port_bindings []) req.ports;
          binds = binds;
          nano_cpus = map_option nano_cpus req.cpu_limit;
          memory = map_option memory_bytes req.memory_limit;
          privileged = req.privileged;
          cap_add = req.cap_add;
          network_mode = req.network_mode;
          device_requests = if_any gpu.device_requests;
          devices = if_any gpu.devices;
          security_opt = if_any gpu.security_opts;
          always_restarts = or_else req.auto_start false;
        };
        env = or_empty req.env ++ gpu.env;
        cmd = req.cmd;
      }

  abbrev pub start_created : CreateContainerReq N → String → Op (Unit {0})
  start_created req id =
      if or_else req.auto_start true then (docker H (start_call id) >>= λ _. pure tt) else pure tt

  -- `create_container`
  unfoldable pub create_container : CreateContainerReq N → Op (Unit {0})
  create_container req = do
    lift (validate_create_req N req)
    binds ← optional_binds H req.username req.volumes
    id ← docker H (create_call req.name (config_of req binds))
    start_created req id
