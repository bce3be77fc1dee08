-- ===== src/System/Setup.antt =====
-- The setup of a system: `is_initialized` and `init_system`. The user's directory, whose creation may
-- fail without notice, is left out.
pub mod Once
pub mod Halfway
use nasserver.Base.{
  ℕ, String, Bool, true, false, not, ◌||◌, Option, none, some, List, [], ◌∷◌, any, length, ltb,
  if◌then◌else◌,
}
use nasserver.Base.Text.{◌=s=◌}
use nasserver.Base.Maps.{lookup, insert}
use nasserver.Domain.{
  Error, internal, conflict, Result, ok, err, Attempt, done, failed, pure, fail, require, ◌>>=◌,
  ◌>>◌,
}
use nasserver.System.World.{UserRow, Libraries, State, Op, query, execute}

-- `InitReq`
pub record InitReq : Type 0 where
  pub username : String
  pub password : String
  pub device_name : String

-- `insert into users`, with its unique columns
unfoldable pub insert_user : UserRow → State → Option State
insert_user a w =
    if any (λ (b : UserRow). b.id =s= a.id || b.username =s= a.username) w.users
    then none
    else some (record w { users = a ∷ w.users })

-- `INSERT INTO system_config … ON CONFLICT (key) DO UPDATE`
unfoldable pub set_config : String → String → State → Option State
set_config key value w = some (record w { system_config = insert key value w.system_config })

-- `select value from system_config where key = …`
abbrev pub get_config : String → State → Option String
get_config key w = lookup key w.system_config

-- The row of the first administrator.
abbrev pub admin_account : InitReq → String → String → UserRow
admin_account req hash id = record {
  id = id;
  username = req.username;
  password_hash = hash;
  role = "admin";
}

module _ (L : Libraries) where
  -- `is_initialized`
  unfoldable pub is_initialized : Op Bool
  is_initialized = query L (get_config "setup_completed") >>= λ val. elim val [
    | some v ↦ pure (v =s= "true")
    | none ↦ query L (λ w. ltb 0 (length w.users))
  ]

  -- `argon2.hash_password(…).map_err(…)?`
  abbrev pub hashed : String → Op String
  hashed password w = elim (L.hash_password password w.tick) [
    | done hash ↦ (ok hash, w)
    | failed message ↦ (err (internal message), w)
  ]

  -- The statements of `init_system` that write.
  unfoldable pub write_setup : InitReq → String → Op (Unit {0})
  write_setup req hash w =
      (execute L (insert_user (admin_account req hash (L.new_v4 w.tick)))
          >> (execute L (set_config "device_name" req.device_name)
              >> (execute L (set_config "device_id" (L.random_id w.tick))
                  >> execute L (set_config "setup_completed" "true"))))
        w

  -- `init_system`
  unfoldable pub init_system : InitReq → Op (Unit {0})
  init_system req = is_initialized >>= λ initialized.
      require (not initialized) (conflict "already_initialized")
      >> (hashed req.password >>= write_setup req)
