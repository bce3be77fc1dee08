-- ===== src/Auth/World.antt =====
-- What the authentication works on: the table `sys.users` of crates/infra/migrations, the entities
-- and requests of crates/domain/src/entities/auth.rs and crates/domain/src/dtos/auth.rs, and the
-- libraries: argon2, jsonwebtoken, uuid and the database's failures are parameters.
use nasserver.Base.{◌≡◌, refl, ℕ, ◌+◌, String, Bool, Option, none, some, List}
use nasserver.Domain.{Error, database, Result, ok, err, Attempt, done, failed, M}

-- `i32`
pub data ℤ : Type 0 where
  pos negsuc : ℕ → ℤ

-- `sys.users`, with the columns that the service names. A UUID is its text in lower case.
pub record Account : Type 0 where
  pub id : String
  pub username : String
  pub password_hash : String
  pub wallpaper : Option String
  pub idle_timeout : ℤ
  pub idle_action : String

-- `Claims`: the content of a token.
pub record Claims : Type 0 where
  pub sub : String
  pub name : String
  pub exp : ℕ

-- `AuthUser`: whom a request acts for.
pub record AuthUser : Type 0 where
  pub user_id : String
  pub username : String

pub record LoginResp : Type 0 where
  pub user_id : String
  pub token : String

pub record SecuritySettings : Type 0 where
  pub idle_timeout : ℤ
  pub idle_action : String

-- The libraries. `decode` takes the time, as it compares it with the expiry. The number that
-- `fault`, `new_v4`, `salt` and `now` take counts the statements.
pub record Libraries : Type 1 where
  pub Dirs : Type 0
  pub create_dir_all : String → Dirs → Dirs
  pub salt : ℕ → String
  pub hash_password : String → String → Attempt String
  pub parse_hash : String → Attempt String
  pub verify_password : String → String → Bool
  pub encode : Claims → String → Attempt String
  pub decode : String → String → ℕ → Attempt Claims
  pub parse_uuid : String → Attempt String
  pub nil_uuid : String
  pub new_v4 : ℕ → String
  pub now : ℕ → ℕ
  pub fault : ℕ → Option String
  pub violation : String

module _ (L : Libraries) where
  pub record State : Type 0 where
    pub accounts : List Account
    pub dirs : L.Dirs
    pub tick : ℕ

  abbrev pub Op : Type 0 → Type 0
  Op A = M State A

  -- A statement that reads.
  unfoldable pub query : {A : Type 0} → (List Account → A) → Op A
  query f w = elim (L.fault w.tick) [
    | some message ↦ (err (database message), record w { tick = w.tick + 1 })
    | none ↦ (ok (f w.accounts), record w { tick = w.tick + 1 })
  ]

  -- What a statement that writes leaves: `none` where it would break a constraint.
  abbrev pub commit : Option (List Account) → State → Result (Unit {0}) × State
  commit none w = (err (database L.violation), w)
  commit (some accounts) w = (ok tt, record w { accounts = accounts })

  -- A statement that writes. A failed statement changes no row.
  unfoldable pub execute : (List Account → Option (List Account)) → Op (Unit {0})
  execute f w = elim (L.fault w.tick) [
    | some message ↦ (err (database message), record w { tick = w.tick + 1 })
    | none ↦ commit (f w.accounts) (record w { tick = w.tick + 1 })
  ]

  -- `map_err(|e| …)?` of a library's answer
  abbrev pub attempt : {A : Type 0} → (String → Error) → Attempt A → Op A
  attempt e (done a) w = (ok a, w)
  attempt e (failed message) w = (err (e message), w)

  pub query-runs :
      {A : Type 0} (f : List Account → A) (w : State)
      → L.fault w.tick ≡ none
      → query f w ≡ (ok (f w.accounts), record w { tick = w.tick + 1 })
  unfolding query
  query-runs f w e = rw (e, query) refl

  pub execute-runs :
      (f : List Account → Option (List Account)) (w : State)
      → L.fault w.tick ≡ none
      → execute f w ≡ commit (f w.accounts) (record w { tick = w.tick + 1 })
  unfolding execute
  execute-runs f w e = rw (e, execute) refl
