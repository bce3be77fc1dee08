-- ===== src/Auth/Login.antt =====
-- What a login that succeeds has checked: `login` of crates/auth/src/auth_service.rs.
use nasserver.Base.{
  ◌+◌, String, ◌≡◌, refl, ◌∙◌, Bool, true, false, none, some, List, find, arith, Option-cases, inl,
  inr,
}
use nasserver.Domain.{
  Error, internal, unauthorized, require, ok, Attempt, done, failed, fail, >>=-eq-ok,
}
use nasserver.Auth.World.{Account, LoginResp, Libraries, State, query, attempt}
use nasserver.Auth.{named, seven_days, login, login_as}

module _ (L : Libraries) where
  pub query-ok :
      {A : Type 0} (f : List Account → A) (w v : State L) (a : A)
      → query L f w ≡ (ok a, v)
      → (f w.accounts ≡ a) × (v.tick ≡ w.tick + 1)
  unfolding query
  query-ok f w v a e = elim (Option-cases (L.fault w.tick)) [
    | inl h ↦ ground arith
    | inr (message, h) ↦ ground arith
  ]

  attempt-ok :
      {A : Type 0} (e : String → Error) (x : Attempt A) (w v : State L) (a : A)
      → attempt L e x w ≡ (ok a, v)
      → (x ≡ done a) × (v ≡ w)
  attempt-ok e (done b) w v a h = ground arith
  attempt-ok e (failed message) w v a h = ground arith

  require-ok :
      (b : Bool) (e : Error) (w v : State L) (u : Unit {0})
      → require b e w ≡ (ok u, v)
      → (b ≡ true) × (v ≡ w)
  require-ok true e w v u h = ground arith
  require-ok false e w v u h = ground arith

module _ (L : Libraries) (jwt_secret storage_path password : String) (a : Account) where
  login_as-Sound :
      (w v : State L) (r : LoginResp)
      → login_as L jwt_secret storage_path password a w ≡ (ok r, v)
      → (parsed : String) × (L.parse_hash a.password_hash ≡ done parsed)
        × (L.verify_password password parsed ≡ true)
        × (r.user_id ≡ a.id)
        × (L.encode
              (record { sub = a.id; name = a.username; exp = L.now w.tick + seven_days })
              jwt_secret
            ≡ done r.token)
  unfolding login_as
  login_as-Sound w v r e =
      let (parsed, w1, e1, rest) =
        >>=-eq-ok (attempt L internal (L.parse_hash a.password_hash)) _ w e in
      let (u, w2, e2, rest') =
        >>=-eq-ok (require (L.verify_password password parsed) (unauthorized "Invalid credentials"))
          _ w1 rest in
      let (token, w3, e3, e4) =
        >>=-eq-ok
          (attempt L internal (
            L.encode (record { sub = a.id; name = a.username; exp = L.now w.tick + seven_days })
              jwt_secret))
          _ w2 rest' in
      let (p1, _) = attempt-ok L internal (L.parse_hash a.password_hash) w w1 parsed e1 in
      let (p2, _) =
        require-ok L (L.verify_password password parsed) (unauthorized "Invalid credentials") w1 w2
          u e2 in
      let (p3, _) =
        attempt-ok L internal
          (L.encode (record { sub = a.id; name = a.username; exp = L.now w.tick + seven_days })
            jwt_secret)
          w2 w3 token e3 in
      let same : record { user_id = a.id; token = token } ≡ r = ground arith in
      rw (← same) (parsed, p1, p2, refl, p3)

-- A login that succeeds found the account of the name, verified the password against its hash, and
-- returns the account's id with a token that holds the id, the name and an expiry seven days later.
pub login-Sound :
    (L : Libraries) (jwt_secret storage_path username password : String) (w v : State L)
    (r : LoginResp)
    → login L jwt_secret storage_path username password w ≡ (ok r, v)
    → (a : Account) × (parsed : String) × (find (named username) w.accounts ≡ some a)
      × (L.parse_hash a.password_hash ≡ done parsed)
      × (L.verify_password password parsed ≡ true)
      × (r.user_id ≡ a.id)
      × (L.encode
            (record { sub = a.id; name = a.username; exp = L.now (w.tick + 1) + seven_days })
            jwt_secret
          ≡ done r.token)
unfolding login
login-Sound L jwt_secret storage_path username password w v r e =
    let (row, u, asked, rest) =
      >>=-eq-ok (query L (find (named username)))
        (λ row. elim row [
          | some a ↦ login_as L jwt_secret storage_path password a
          | none ↦ fail (unauthorized "Invalid credentials")
        ])
        w e in
    let (found, tick) = query-ok L (find (named username)) w u row asked in
    elim (Option-cases row) [
      | inl none_found ↦ absurd (ground (arith, rw none_found at rest))
      | inr (a, one) ↦
          let (parsed, p1, p2, p3, p4) =
            login_as-Sound L jwt_secret storage_path password a u v r (rw one at rest) in
          (a, parsed, found ∙ one, p1, p2, p3, rw (← tick) p4)
    ]
