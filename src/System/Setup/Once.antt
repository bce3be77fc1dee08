-- ===== src/System/Setup/Once.antt =====
-- What a setup leaves, and that it happens once.
use nasserver.Base.{
  ℕ, ◌+◌, String, ◌≡◌, refl, sym, ap, ◌∙◌, Bool, true, false, not, none, some, List, [], ◌∷◌, arith,
  Option-cases, inl, inr,
}
use nasserver.Base.Text.{◌=s=◌}
use nasserver.Base.Maps.{insert, lookup-insert}
use nasserver.Domain.{
  Error, database, conflict, Result, ok, err, done, Attempt-cases, after, require, ◌>>=◌, ◌>>◌,
  >>=-eq-ok,
}
use nasserver.System.World.{UserRow, Libraries, State, Op, tock, query, execute}
use nasserver.System.Setup.{
  InitReq, admin_account, insert_user, set_config, get_config, is_initialized, hashed, write_setup,
  init_system,
}

-- The setup is recorded as complete.
abbrev pub IsSetUp : State → Type 0
IsSetUp w = get_config "setup_completed" w ≡ some "true"

-- The requests one after another, whatever becomes of them.
abbrev pub inits : Libraries → List InitReq → State → State
inits L [] w = w
inits L (req ∷ reqs) w = inits L reqs (init_system L req w).1

module _ (L : Libraries) where
  is_initialized-reads :
      (w : State) {v : String}
      → L.fault w.tick ≡ none
      → get_config "setup_completed" w ≡ some v
      → is_initialized L w ≡ (ok (v =s= "true"), tock w)
  unfolding is_initialized query
  is_initialized-reads w e h = ground arith

  is_initialized-fails :
      (w : State) {m : String}
      → L.fault w.tick ≡ some m
      → is_initialized L w ≡ (err (database m), tock w)
  unfolding is_initialized query
  is_initialized-fails w e = ground arith

  -- The branches of the setup by the result of the first statement.
  init_system-first :
      (req : InitReq) (w : State) {r : Result Bool × State}
      → is_initialized L w ≡ r
      → init_system L req w
        ≡ after r (λ initialized.
          require (not initialized) (conflict "already_initialized")
          >> (hashed L req.password >>= write_setup L req))
  unfolding init_system
  init_system-first req w e = rw e refl

  init_system-refuses :
      (req : InitReq) (w : State)
      → IsSetUp w
      → ((e : Error) × (init_system L req w ≡ (err e, tock w)))
  init_system-refuses req w h = elim (Option-cases (L.fault w.tick)) [
    | inl e ↦ (conflict "already_initialized", init_system-first req w (is_initialized-reads w e h))
    | inr (m, e) ↦ (database m, init_system-first req w (is_initialized-fails w e))
  ]

  inits-keeps :
      (reqs : List InitReq) (w : State)
      → IsSetUp w
      → ((inits L reqs w).users ≡ w.users) × ((inits L reqs w).system_config ≡ w.system_config)
  inits-keeps [] w h = (refl, refl)
  inits-keeps (req ∷ reqs) w h =
      let (x, e) = init_system-refuses req w h in
      let next : (init_system L req w).1 ≡ tock w = ap (λ r. r.1) e in
      let (users, config) = inits-keeps reqs (tock w) h in
      (
        ap (λ v. (inits L reqs v).users) next ∙ users,
        ap (λ v. (inits L reqs v).system_config) next ∙ config,
      )

  execute_config :
      (key value : String) (w v : State)
      → execute L (set_config key value) w ≡ (ok tt, v)
      → (v.users ≡ w.users) × (v.system_config ≡ insert key value w.system_config)
  unfolding execute set_config
  execute_config key value w v h = elim (Option-cases (L.fault w.tick)) [
    | inl e ↦ ground arith
    | inr (m, e) ↦ absurd (ground arith)
  ]

  execute_user :
      (a : UserRow) (w v : State)
      → execute L (insert_user a) w ≡ (ok tt, v)
      → (v.users ≡ a ∷ w.users) × (v.system_config ≡ w.system_config)
  unfolding execute insert_user
  execute_user a w v h = elim (Option-cases (L.fault w.tick)) [
    | inl e ↦ ground arith
    | inr (m, e) ↦ absurd (ground arith)
  ]

  -- The state that a setup leaves.
  abbrev pub SetsUp : InitReq → String → State → State → Type 0
  SetsUp req hash w v =
      IsSetUp v
      × (get_config "device_name" v ≡ some req.device_name)
      × ((id : String) × (v.users ≡ admin_account req hash id ∷ w.users))

  write_setup-SetsUp :
      (req : InitReq) (hash : String) (w v : State)
      → write_setup L req hash w ≡ (ok tt, v)
      → SetsUp req hash w v
  unfolding write_setup
  write_setup-SetsUp req hash w v h =
      let account = admin_account req hash (L.new_v4 w.tick) in
      let name = execute L (set_config "device_name" req.device_name) in
      let id = execute L (set_config "device_id" (L.random_id w.tick)) in
      let completed = execute L (set_config "setup_completed" "true") in
      let (_, w1, e1, h1) =
        >>=-eq-ok (execute L (insert_user account)) (λ _. name >> (id >> completed)) w h in
      let (_, w2, e2, h2) = >>=-eq-ok name (λ _. id >> completed) w1 h1 in
      let (_, w3, e3, h3) = >>=-eq-ok id (λ _. completed) w2 h2 in
      let (u1, c1) = execute_user account w w1 e1 in
      let (u2, c2) = execute_config "device_name" req.device_name w1 w2 e2 in
      let (u3, c3) = execute_config "device_id" (L.random_id w.tick) w2 w3 e3 in
      let (u4, c4) = execute_config "setup_completed" "true" w3 v h3 in
      (
        rw (c4, lookup-insert "setup_completed" "setup_completed" "true" w3.system_config) refl,
        rw (c4, c3, c2) refl,
        (L.new_v4 w.tick, u4 ∙ (u3 ∙ (u2 ∙ u1))),
      )

  hashed-done :
      (password : String) (w v : State) {hash : String}
      → hashed L password w ≡ (ok hash, v)
      → (L.hash_password password w.tick ≡ done hash) × (v ≡ w)
  hashed-done password w v h = elim (Attempt-cases (L.hash_password password w.tick)) [
    | inl (x, e) ↦ ground arith
    | inr (m, e) ↦ absurd (ground arith)
  ]

  is_initialized-tables :
      (w v : State) {b : Bool}
      → is_initialized L w ≡ (ok b, v)
      → (v.users ≡ w.users) × (v.system_config ≡ w.system_config)
  unfolding is_initialized query
  is_initialized-tables w v h = elim (Option-cases (L.fault w.tick)) [
    | inr (m, e) ↦ absurd (ground arith)
    | inl e ↦ elim (Option-cases (get_config "setup_completed" w)) [
      | inr (x, f) ↦ ground arith
      | inl f ↦ elim (Option-cases (L.fault (w.tick + 1))) [
        | inr (m, g) ↦ absurd (ground arith)
        | inl g ↦ ground arith
      ]
    ]
  ]

  require-same : (b : Bool) (e : Error) (w v : State) → require b e w ≡ (ok tt, v) → v ≡ w
  require-same true e w v h = ap (λ r. r.1) (sym h)
  require-same false e w v h = absurd (ground arith)

  -- If a setup succeeds, its account is an administrator's, with a hash of its password, the device has
  -- its name, and the system is set up; no later request for a setup, however many there are, changes
  -- an account or the configuration.
  pub init_system-Once :
      (req : InitReq) (reqs : List InitReq) (w v : State)
      → init_system L req w ≡ (ok tt, v)
      → ((hash : String) × ((salt : ℕ) × (L.hash_password req.password salt ≡ done hash))
          × SetsUp req hash w v)
        × ((inits L reqs v).users ≡ v.users)
        × ((inits L reqs v).system_config ≡ v.system_config)
  unfolding init_system
  init_system-Once req reqs w v h =
      let write : String → Op (Unit {0}) = write_setup L req in
      let (b, w1, e1, h1) =
        >>=-eq-ok (is_initialized L)
          (λ initialized.
            require (not initialized) (conflict "already_initialized")
            >> (hashed L req.password >>= write))
          w h in
      let (_, w2, e2, h2) =
        >>=-eq-ok (require (not b) (conflict "already_initialized"))
          (λ _. hashed L req.password >>= write) w1 h1 in
      let (hash, w3, e3, h3) = >>=-eq-ok (hashed L req.password) write w2 h2 in
      let (done_hash, same) = hashed-done req.password w2 w3 e3 in
      let (set, name, (id, users)) = write_setup-SetsUp req hash w3 v h3 in
      let before : w3.users ≡ w.users =
        ap (λ u. u.users) (same ∙ require-same (not b) (conflict "already_initialized") w1 w2 e2)
        ∙ (is_initialized-tables w w1 e1).0 in
      let (kept, config) = inits-keeps reqs v set in
      (
        (
          hash,
          (w2.tick, done_hash),
          (set, name, (id, users ∙ ap (λ us. admin_account req hash id ∷ us) before)),
        ),
        kept,
        config,
      )
