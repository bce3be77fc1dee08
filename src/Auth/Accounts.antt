-- ===== src/Auth/Accounts.antt =====
-- The table of the accounts under the operations of crates/auth/src/auth_service.rs.
use nasserver.Base.{
  ℕ, ◌+◌, String, ◌≡◌, refl, Bool, true, not, ◌||◌, ◌&&◌, Option, none, some, List, [], ◌∷◌, any,
  find, arith, Option-cases, inl, inr,
}
use nasserver.Domain.{
  Error, internal, Result, ok, err, Attempt, done, failed, after, pure, fail, ◌>>=◌,
}
use nasserver.Auth.World.{
  Account, Libraries, SecuritySettings, State, Op, query, execute, commit, attempt, query-runs,
  execute-runs,
}
use nasserver.Auth.{
  named, has_id, insert_account, update_accounts, signup, create_account, create_user_root,
  get_wallpaper, set_wallpaper, get_security_settings, set_security_settings,
}

-- No two accounts share an id or a name.
unfoldable pub distinct : List Account → Bool
distinct [] = true
distinct (a ∷ accounts) =
    not (any (λ (b : Account). has_id a.id b || named a.username b) accounts) && distinct accounts

-- A change of an account that leaves its keys.
abbrev pub KeepsKeys : (Account → Account) → Type 0
KeepsKeys change = (a : Account) → ((change a).id ≡ a.id) × ((change a).username ≡ a.username)

module _ (id : String) (change : Account → Account) (same : KeepsKeys change) where
  any-update :
      (x n : String) (accounts : List Account)
      → any (λ (b : Account). has_id x b || named n b) (update_accounts id change accounts)
        ≡ any (λ (b : Account). has_id x b || named n b) accounts
  unfolding update_accounts
  any-update x n [] = refl
  any-update x n (a ∷ accounts) = ground (arith, any-update x n accounts, same a)

  pub distinct-update_accounts :
      (accounts : List Account) → distinct (update_accounts id change accounts) ≡ distinct accounts
  unfolding update_accounts distinct
  distinct-update_accounts [] = refl
  distinct-update_accounts (a ∷ accounts) =
      ground (arith, distinct-update_accounts accounts, same a, any-update a.id a.username accounts)

  pub find-update_accounts :
      (accounts : List Account) (a : Account)
      → find (has_id id) accounts ≡ some a
      → find (has_id id) (update_accounts id change accounts) ≡ some (change a)
  unfolding update_accounts
  find-update_accounts [] a e = cc
  find-update_accounts (b ∷ accounts) a e = ground (arith, find-update_accounts accounts a, same b)

pub distinct-insert_account :
    (id username hash : String) (accounts accounts' : List Account)
    → insert_account id username hash accounts ≡ some accounts'
    → distinct accounts ≡ true
    → distinct accounts' ≡ true
unfolding insert_account distinct
distinct-insert_account id username hash accounts accounts' e h = ground arith

module _ (L : Libraries) where
  -- The operation leaves the keys distinct, whether it succeeds or not.
  record Keeps {A : Type 0} (op : Op L A) : Type 0 where
    run : (w : State L) → distinct w.accounts ≡ true → distinct (op w).1.accounts ≡ true

  pure-Keeps : {A : Type 0} (a : A) → Keeps (pure a)
  pure-Keeps a = record { run = λ w h. h }

  fail-Keeps : {A : Type 0} (e : Error) → Keeps {A = A} (fail e)
  fail-Keeps e = record { run = λ w h. h }

  attempt-Keeps : {A : Type 0} (e : String → Error) (x : Attempt A) → Keeps (attempt L e x)
  attempt-Keeps e (done a) = record { run = λ w h. h }
  attempt-Keeps e (failed message) = record { run = λ w h. h }

  query-Keeps : {A : Type 0} (f : List Account → A) → Keeps (query L f)
  unfolding query
  query-Keeps f = record {
    run = λ w h. elim (Option-cases (L.fault w.tick)) [
      | inl e ↦ rw (e, query) h
      | inr (message, e) ↦ rw (e, query) h
    ];
  }

  Option-Keeps :
      {A B : Type 0} (o : Option A) {m : A → Op L B} {n : Op L B}
      → ((a : A) → Keeps (m a))
      → Keeps n
      → Keeps (elim o as (λ _. Op L B) [ some a ↦ m a | none ↦ n ])
  Option-Keeps none hm hn = hn
  Option-Keeps (some a) hm hn = hm a

  after-Keeps :
      {A B : Type 0} (r : Result A × State L) (k : A → Op L B)
      → distinct r.1.accounts ≡ true
      → ((a : A) → Keeps (k a))
      → distinct (after r k).1.accounts ≡ true
  after-Keeps (ok a, v) k h next = (next a).run v h
  after-Keeps (err e, v) k h next = h

  bind-Keeps :
      {A B : Type 0} {m : Op L A} {k : A → Op L B}
      → Keeps m
      → ((a : A) → Keeps (k a))
      → Keeps (m >>= k)
  bind-Keeps {m = m} {k = k} hm hk = record { run = λ w h. after-Keeps (m w) k (hm.run w h) hk }

  commit-Keeps :
      (f : List Account → Option (List Account)) (w : State L) (o : Option (List Account))
      → ((accounts : List Account) → o ≡ some accounts → distinct accounts ≡ true)
      → distinct w.accounts ≡ true
      → distinct (commit L o w).1.accounts ≡ true
  commit-Keeps f w none kept h = h
  commit-Keeps f w (some accounts) kept h = kept accounts refl

  execute-Keeps :
      (f : List Account → Option (List Account))
      → ((accounts accounts' : List Account)
          → f accounts ≡ some accounts'
          → distinct accounts ≡ true
          → distinct accounts' ≡ true)
      → Keeps (execute L f)
  unfolding execute
  execute-Keeps f kept = record {
    run = λ w h. elim (Option-cases (L.fault w.tick)) [
      | inl e ↦
          rw (e, execute)
            (commit-Keeps f (record w { tick = w.tick + 1 }) (f w.accounts)
              (λ accounts e'. kept w.accounts accounts e' h) h)
      | inr (message, e) ↦ rw (e, execute) h
    ];
  }

  update-Keeps :
      (id : String) (change : Account → Account)
      → KeepsKeys change
      → Keeps (execute L (λ accounts. some (update_accounts id change accounts)))
  update-Keeps id change same =
      execute-Keeps (λ accounts. some (update_accounts id change accounts))
        (λ accounts accounts' e h.
          let same_list : update_accounts id change accounts ≡ accounts' = cc in
          rw (← same_list) (rw (distinct-update_accounts id change same accounts) h))

  module _ (jwt_secret storage_path : String) where
    create_user_root-Keeps :
        (username : String) → Keeps (create_user_root L jwt_secret storage_path username)
    create_user_root-Keeps username = record { run = λ w h. h }

    create_account-Keeps :
        (username password : String)
        → Keeps (create_account L jwt_secret storage_path username password)
    unfolding create_account
    create_account-Keeps username password = record {
      run = λ w h.
          let chain =
            bind-Keeps (attempt-Keeps internal (L.hash_password password (L.salt w.tick))) λ hash.
              bind-Keeps
                (execute-Keeps (insert_account (L.new_v4 w.tick) username hash)
                  (distinct-insert_account (L.new_v4 w.tick) username hash))
                λ _.
                  bind-Keeps (create_user_root-Keeps username) λ _. pure-Keeps (L.new_v4 w.tick) in
          chain.run w h;
    }

    signup-Keeps :
        (username password : String) → Keeps (signup L jwt_secret storage_path username password)
    unfolding signup
    signup-Keeps username password = bind-Keeps (query-Keeps (find (named username))) λ existing.
        Option-Keeps existing (λ a. pure-Keeps a.id) (create_account-Keeps username password)

    set_wallpaper-Keeps :
        (user_id path : String) → Keeps (set_wallpaper L jwt_secret storage_path user_id path)
    unfolding set_wallpaper
    set_wallpaper-Keeps user_id path =
        bind-Keeps (attempt-Keeps _ (L.parse_uuid user_id))
          λ uid. update-Keeps uid _ (λ a. (refl, refl))

    set_security_settings-Keeps :
        (user_id : String) (settings : SecuritySettings)
        → Keeps (set_security_settings L jwt_secret storage_path user_id settings)
    unfolding set_security_settings
    set_security_settings-Keeps user_id settings =
        bind-Keeps (attempt-Keeps _ (L.parse_uuid user_id))
          λ uid. update-Keeps uid _ (λ a. (refl, refl))

-- No operation makes two accounts share an id or a name, whether it succeeds or fails: signing up,
-- setting the wallpaper and setting the security settings.
pub accounts-StayDistinct :
    (L : Libraries) (jwt_secret storage_path : String) (w : State L)
    → distinct w.accounts ≡ true
    → ((username password : String)
        → distinct (signup L jwt_secret storage_path username password w).1.accounts ≡ true)
      × ((user_id path : String)
          → distinct (set_wallpaper L jwt_secret storage_path user_id path w).1.accounts ≡ true)
      × ((user_id : String) (settings : SecuritySettings)
          → distinct (set_security_settings L jwt_secret storage_path user_id settings w).1.accounts
            ≡ true)
accounts-StayDistinct L jwt_secret storage_path w h = (
  λ username password. (signup-Keeps L jwt_secret storage_path username password).run w h,
  λ user_id path. (set_wallpaper-Keeps L jwt_secret storage_path user_id path).run w h,
  λ user_id settings.
      (set_security_settings-Keeps L jwt_secret storage_path user_id settings).run w h,
)

module _ (L : Libraries) (jwt_secret storage_path : String) where
  -- A wallpaper that is set for an account is the one that is read afterwards, and the account's
  -- security settings read as before, if no statement fails and the id parses.
  pub get_wallpaper-set_wallpaper :
      (user_id uid path : String) (w : State L) (a : Account)
      → L.parse_uuid user_id ≡ done uid
      → find (has_id uid) w.accounts ≡ some a
      → ((n : ℕ) → L.fault n ≡ none)
      → let v : State L = (set_wallpaper L jwt_secret storage_path user_id path w).1 in
        ((set_wallpaper L jwt_secret storage_path user_id path w).0 ≡ ok tt)
        × ((get_wallpaper L jwt_secret storage_path user_id v).0 ≡ ok (some path))
        × ((get_security_settings L jwt_secret storage_path user_id v).0
            ≡ ok (record { idle_timeout = a.idle_timeout; idle_action = a.idle_action }))
  unfolding set_wallpaper get_wallpaper get_security_settings
  get_wallpaper-set_wallpaper user_id uid path w a parsed found sound =
      let change : Account → Account = λ a. record a { wallpaper = some path } in
      rw (parsed) (
        rw
          (execute-runs L (λ accounts. some (update_accounts uid change accounts)) w (sound w.tick))
          (let v : State L = record w {
            accounts = update_accounts uid change w.accounts;
            tick = w.tick + 1;
          } in
            rw (query-runs L (find (has_id uid)) v (sound (w.tick + 1))) (
              rw (find-update_accounts uid change (λ a. (refl, refl)) w.accounts a found)
                (refl, refl, refl))))
