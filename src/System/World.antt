-- ===== src/System/World.antt =====
-- The tables that the system service keeps, of crates/infra/migrations: the accounts with their roles,
-- `system_config` and `system_stats`. The database's failures and the libraries are parameters.
use nasserver.Base.{ℕ, ◌+◌, ◌≡◌, refl, String, Option, none, some, List}
use nasserver.Domain.{database, Result, ok, err, Attempt, M}

-- `users`, with the columns that the service fills.
pub record UserRow : Type 0 where
  pub id : String
  pub username : String
  pub password_hash : String
  pub role : String

-- The number counts the statements.
pub record Libraries : Type 0 where
  pub fault : ℕ → Option String
  pub violation : String
  pub hash_password : String → ℕ → Attempt String
  pub new_v4 : ℕ → String
  pub random_id : ℕ → String

pub record State : Type 0 where
  pub users : List UserRow
  pub system_config : List (String × String)
  pub tick : ℕ

abbrev pub Op : Type 0 → Type 0
Op A = M State A

abbrev pub tock : State → State
tock w = record w { tick = w.tick + 1 }

module _ (L : Libraries) where
  -- A statement that reads.
  unfoldable pub query : {A : Type 0} → (State → A) → Op A
  query f w = elim (L.fault w.tick) [
    | some message ↦ (err (database message), tock w)
    | none ↦ (ok (f w), tock w)
  ]

  abbrev pub commit : Option State → State → Result (Unit {0}) × State
  commit none w = (err (database L.violation), w)
  commit (some v) w = (ok tt, v)

  -- A statement that writes: `none` where it would break a constraint. A failed one changes no row.
  unfoldable pub execute : (State → Option State) → Op (Unit {0})
  execute f w = elim (L.fault w.tick) [
    | some message ↦ (err (database message), tock w)
    | none ↦ commit (f (tock w)) (tock w)
  ]

  pub query-runs :
      {A : Type 0} (f : State → A) (w : State)
      → L.fault w.tick ≡ none
      → query f w ≡ (ok (f w), tock w)
  unfolding query
  query-runs f w e = rw (e, query) refl

  pub execute-runs :
      (f : State → Option State) (w : State)
      → L.fault w.tick ≡ none
      → execute f w ≡ commit (f (tock w)) (tock w)
  unfolding execute
  execute-runs f w e = rw (e, execute) refl
