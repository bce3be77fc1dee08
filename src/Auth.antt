-- ===== src/Auth.antt =====
-- The authentication service, crates/auth/src/auth_service.rs. The guards of the requests, crates/api/src/middleware.rs, are in Auth/Guards.
pub mod World
pub mod Guards
pub mod Accounts
pub mod Sessions
pub mod Login
mod Tests
use nasserver.Base.{
  ℕ, ◌+◌, ◌*◌, String, Bool, true, false, not, ◌||◌, Option, none, some, List, [], ◌∷◌, any, find,
  map, if◌then◌else◌,
}
use nasserver.Base.StdPath.{path_join}
use nasserver.Base.Text.{◌<>◌, ◌=s=◌, starts_with, is_empty, ends_with_char}
use nasserver.Domain.{
  Error, internal, not_found, unauthorized, bad_request, Result, ok, err, M, after, pure, fail,
  require, ◌>>=◌, ◌>>◌,
}
use nasserver.Auth.World.{
  ℤ, pos, Account, Claims, LoginResp, SecuritySettings, Libraries, State, Op, query, execute,
  attempt,
}

-- `where username = $1`
abbrev pub named : String → Account → Bool
named username a = a.username =s= username

-- `where id = $1`
abbrev pub has_id : String → Account → Bool
has_id id a = a.id =s= id

-- `insert into users`, with the key `id`, the unique `username` and the defaults of the columns.
unfoldable pub insert_account : String → String → String → List Account → Option (List Account)
insert_account id username hash accounts =
    if any (λ (a : Account). has_id id a || named username a) accounts
    then none
    else some (
        record {
          id = id;
          username = username;
          password_hash = hash;
          wallpaper = none;
          idle_timeout = pos 0;
          idle_action = "lock";
        }
        ∷ accounts)

-- `update users set … where id = $`
unfoldable pub update_accounts : String → (Account → Account) → List Account → List Account
update_accounts id change [] = []
update_accounts id change (a ∷ accounts) =
    (if has_id id a then change a else a) ∷ update_accounts id change accounts

-- `Duration::days(7)` in seconds
abbrev pub seven_days : ℕ
seven_days = 7 * 24 * 3600

-- The user's own directory.
abbrev pub user_root : String → String → String
user_root storage_path username =
    path_join (path_join (path_join storage_path "vol1") "User") username

module _ (L : Libraries) (jwt_secret storage_path : String) where
  -- The user's own directory, `let _ = std::fs::create_dir_all(…)`.
  abbrev pub create_user_root : String → Op L (Unit {0})
  create_user_root username w =
      (ok tt, record w { dirs = L.create_dir_all (user_root storage_path username) w.dirs })

  -- `signup`, for a name that is not taken
  unfoldable pub create_account : String → String → Op L String
  create_account username password w =
      (do
        hash ← attempt L internal (L.hash_password password (L.salt w.tick))
        execute L (insert_account (L.new_v4 w.tick) username hash)
        create_user_root username
        pure (L.new_v4 w.tick))
        w

  unfoldable pub signup : String → String → Op L String
  signup username password = do
    existing ← query L (find (named username))
    elim existing [ some a ↦ pure a.id | none ↦ create_account username password ]

  -- `login`, for the row that was found
  unfoldable pub login_as : String → Account → Op L LoginResp
  login_as password a w =
      (do
        parsed ← attempt L internal (L.parse_hash a.password_hash)
        require (L.verify_password password parsed) (unauthorized "Invalid credentials")
        token ← attempt L internal (
            L.encode (record { sub = a.id; name = a.username; exp = L.now w.tick + seven_days })
              jwt_secret)
        pure (record { user_id = a.id; token = token }))
        w

  unfoldable pub login : String → String → Op L LoginResp
  login username password = do
    row ← query L (find (named username))
    elim row [ some a ↦ login_as password a | none ↦ fail (unauthorized "Invalid credentials") ]

  -- `Uuid::parse_str(user_id)`
  abbrev pub uuid_of : String → Op L String
  uuid_of user_id =
      attempt L (λ message. bad_request ("Invalid UUID: " <> message)) (L.parse_uuid user_id)

  -- `get_user_by_id`: the id as it was given, and the name.
  unfoldable pub get_user_by_id : String → Op L (String × String)
  get_user_by_id user_id = do
    uid ← uuid_of user_id
    row ← query L (find (has_id uid))
    elim row [ some a ↦ pure (user_id, a.username) | none ↦ fail (not_found "User not found") ]

  unfoldable pub get_wallpaper : String → Op L (Option String)
  get_wallpaper user_id = do
    uid ← uuid_of user_id
    row ← query L (find (has_id uid))
    elim row [ none ↦ pure none | some a ↦ pure a.wallpaper ]

  unfoldable pub set_wallpaper : String → String → Op L (Unit {0})
  set_wallpaper user_id path = do
    uid ← uuid_of user_id
    execute L
        (λ accounts. some (update_accounts uid (λ a. record a { wallpaper = some path }) accounts))

  unfoldable pub get_security_settings : String → Op L SecuritySettings
  get_security_settings user_id = do
    uid ← uuid_of user_id
    row ← query L (find (has_id uid))
    elim row [
      | some a ↦ pure (record { idle_timeout = a.idle_timeout; idle_action = a.idle_action })
      | none ↦ pure (record { idle_timeout = pos 0; idle_action = "lock" })
    ]

  unfoldable pub set_security_settings : String → SecuritySettings → Op L (Unit {0})
  set_security_settings user_id settings = do
    uid ← uuid_of user_id
    execute L (λ accounts. some (
        update_accounts uid
          (λ a. record a {
            idle_timeout = settings.idle_timeout;
            idle_action = settings.idle_action;
          })
          accounts))
