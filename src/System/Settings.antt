-- ===== src/System/Settings.antt =====
-- The settings for Docker in `system_config`, and the names in `get_device_info`. The serde_json package
-- is a parameter.
pub mod Stored
use nasserver.Base.{ℕ, String, Bool, Option, none, some, List, []}
use nasserver.Base.Maps.{lookup}
use nasserver.Domain.{internal, Result, ok, err, Attempt, done, failed, pure, ◌>>=◌, ◌>>◌}
use nasserver.System.World.{Libraries, State, Op, query, execute}
use nasserver.System.Setup.{set_config, get_config}

pub record Json : Type 1 where
  pub Value : Type 0
  pub to_string : Value → Attempt String
  pub from_str : String → Option Value
  pub list_to_string : List Value → Attempt String
  pub list_from_str : String → Option (List Value)
  pub no_mirror : Value

abbrev pub or_default : {A : Type 0} → Option A → A → A
or_default none d = d
or_default (some a) d = a

-- `value.and_then(|s| from_str(&s).ok())`
abbrev pub read_as : {A : Type 0} → (String → Option A) → Option String → Option A
read_as f none = none
read_as f (some s) = f s

module _ (L : Libraries) where
  -- `to_string(…).map_err(…)?`
  abbrev pub printed : Attempt String → Op String
  printed (done s) w = (ok s, w)
  printed (failed message) w = (err (internal message), w)

  -- The names in `get_device_info`.
  unfoldable pub device_names : Op (String × String)
  device_names = do
    name ← query L (get_config "device_name")
    id ← query L (get_config "device_id")
    pure (or_default name "PNAS-Server", or_default id "Unknown")

  module _ (J : Json) where
    -- `get_docker_mirrors`
    unfoldable pub get_docker_mirrors : Op (List J.Value)
    get_docker_mirrors = do
      list_json ← query L (get_config "docker_mirrors")
      pure (or_default (read_as J.list_from_str list_json) [])

    -- `set_docker_mirrors`
    unfoldable pub set_docker_mirrors : List J.Value → Op (Unit {0})
    set_docker_mirrors mirrors = do
      json ← printed (J.list_to_string mirrors)
      execute L (set_config "docker_mirrors" json)

    -- `get_docker_settings`
    unfoldable pub get_docker_settings : Op J.Value
    get_docker_settings = do
      v ← query L (get_config "docker_mirror")
      pure (or_default (read_as J.from_str v) J.no_mirror)

    -- `set_docker_settings`
    unfoldable pub set_docker_settings : J.Value → Op (Unit {0})
    set_docker_settings settings = do
      json ← printed (J.to_string settings)
      execute L (set_config "docker_mirror" json)
