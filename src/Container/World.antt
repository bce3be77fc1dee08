-- ===== src/Container/World.antt =====
-- What the container service works on: the calls of Docker that it makes, and the directories that it
-- creates for volumes. Docker's answers and the devices are parameters.
use nasserver.Base.{ℕ, ◌+◌, String, Bool, Option, List, [], ◌∷◌, ◌++◌}
use nasserver.Domain.{Result, ok, err, internal, Attempt, done, failed, M}
use nasserver.Container.Requests.{ℤ}
use nasserver.Container.Gpu.{DeviceMapping, Devices}

-- `HostConfig`, as far as the service fills it. A binding of a port pairs the container's port with
-- the host's.
pub record HostConfig : Type 0 where
  pub port_bindings : Option (List (String × String))
  pub binds : Option (List String)
  pub nano_cpus : Option ℤ
  pub memory : Option ℤ
  pub privileged : Option Bool
  pub cap_add : Option (List String)
  pub network_mode : Option String
  pub device_requests : Option (List String)
  pub devices : Option (List DeviceMapping)
  pub security_opt : Option (List String)
  pub always_restarts : Bool

-- `Config`
pub record Config : Type 0 where
  pub image : String
  pub host_config : HostConfig
  pub env : List String
  pub cmd : Option (List String)

-- The calls that change something.
pub data DockerCall : Type 0 where
  create_call : (name : Option String) → Config → DockerCall
  start_call stop_call restart_call remove_call : (id : String) → DockerCall
  remove_image_call remove_volume_call : (id : String) → DockerCall
  create_volume_call : (name driver : String) → DockerCall

-- Docker answers a call with an identifier, which is read of a created container only. The number
-- counts the calls.
pub record Host : Type 0 where
  pub answer : DockerCall → ℕ → Attempt String
  pub devices : Devices
  pub storage_path : String

pub record World : Type 0 where
  pub calls : List DockerCall
  pub directories : List String
  pub tick : ℕ

abbrev pub Op : Type 0 → Type 0
Op A = M World A

-- A result with no effect.
abbrev pub lift : {A : Type 0} → Result A → Op A
lift r w = (r, w)

-- A call, with `map_err(|e| Error::Internal(e.to_string()))`.
unfoldable pub docker : Host → DockerCall → Op String
docker H c w =
    let w' = record w { calls = w.calls ++ (c ∷ []); tick = w.tick + 1 } in
    elim (H.answer c w.tick) [
      | done id ↦ (ok id, w')
      | failed message ↦ (err (internal message), w')
    ]

-- `create_dir_all`, whose failure is only printed.
abbrev pub create_dir_all : String → Op (Unit {0})
create_dir_all path w = (ok tt, record w { directories = w.directories ++ (path ∷ []) })
