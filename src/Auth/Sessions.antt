-- ===== src/Auth/Sessions.antt =====
-- From signing up over logging in to a request with the token: crates/auth/src/auth_service.rs with
-- the guards of crates/api/src/middleware.rs.
use nasserver.Base.{
  ℕ, ◌+◌, ◌≤◌, String, ◌≢◌, ◌≡◌, refl, ◌↔◌, ◌⊎◌, Bool, true, false, ◌||◌, Option, none, some, List,
  [], ◌∷◌, any, find, arith, Bool-cases, inl, inr,
}
use nasserver.Base.Text.{◌<>◌, eq_refl, eq_iff, is_empty}
use nasserver.Storage.Paths.Laws.{is_empty_of_ne}
use nasserver.Base.Text.Prefix.{strip_prefix-append}
use nasserver.Domain.{ok, Attempt, done, failed}
use nasserver.Auth.World.{
  pos, query-runs, execute-runs, Account, Claims, AuthUser, Libraries, State,
}
use nasserver.Auth.{
  named, has_id, insert_account, seven_days, signup, create_account, user_root, login, login_as,
}
use nasserver.Auth.Guards.{
  Passage, next, answer, StatusCode, is_open, check_setup, token_of, check_token, require_auth,
}

-- What the libraries document: argon2 verifies the password that it hashed, a token that was encoded
-- is not empty and decodes with the same secret until it expires, and a new UUID parses to itself.
pub record AreSound (L : Libraries) : Type 0 where
  pub verifies :
      (password salt hash : String)
      → L.hash_password password salt ≡ done hash
      → (parsed : String) × (L.parse_hash hash ≡ done parsed)
        × (L.verify_password password parsed ≡ true)
  pub decodes :
      (claims : Claims) (secret token : String) (now : ℕ)
      → L.encode claims secret ≡ done token
      → now ≤ claims.exp
      → L.decode token secret now ≡ done claims
  pub tokens : (claims : Claims) (secret : String) → L.encode claims secret ≢ done ""
  pub parses : (n : ℕ) → L.parse_uuid (L.new_v4 n) ≡ done (L.new_v4 n)

bearer :
    (q : Option String) (token : String)
    → is_empty token ≡ false
    → token_of (some ("Bearer " <> token)) q ≡ token
unfolding token_of
bearer q token h = rw (strip_prefix-append "Bearer " token) (rw h refl)

module _ (L : Libraries) (jwt_secret token : String) (now : ℕ) (user : AuthUser) where
  passes-uuid :
      (claims : Claims) (x : Attempt String)
      → elim x as (λ _. Passage AuthUser) [
        | failed _ ↦ answer StatusCode.unauthorized
        | done uid ↦ next (record { user_id = uid; username = claims.name })
      ]
        ≡ next user
      → (x ≡ done user.user_id) × (user.username ≡ claims.name)
  passes-uuid claims (failed message) e = cc
  passes-uuid claims (done uid) e = ground arith

  passes-claims :
      (x : Attempt Claims)
      → elim x as (λ _. Passage AuthUser) [
        | failed _ ↦ answer StatusCode.unauthorized
        | done claims ↦ elim (L.parse_uuid claims.sub) [
          | failed _ ↦ answer StatusCode.unauthorized
          | done uid ↦ next (record { user_id = uid; username = claims.name })
        ]
      ]
        ≡ next user
      → (claims : Claims) × (x ≡ done claims)
        × (L.parse_uuid claims.sub ≡ done user.user_id)
        × (user.username ≡ claims.name)
  passes-claims (failed message) e = cc
  passes-claims (done claims) e =
      let (parsed, name) = passes-uuid claims (L.parse_uuid claims.sub) e in
      (claims, refl, parsed, name)

-- A request that passes with the insecure mode off carries a token that decodes with the server's
-- secret, and acts for the user whom the token names.
pub require_auth-Sound :
    (L : Libraries) (jwt_secret : String) (header q : Option String) (now : ℕ) (user : AuthUser)
    → require_auth L jwt_secret false header q now ≡ next user
    → (claims : Claims) × (L.decode (token_of header q) jwt_secret now ≡ done claims)
      × (L.parse_uuid claims.sub ≡ done user.user_id)
      × (user.username ≡ claims.name)
unfolding require_auth check_token
require_auth-Sound L jwt_secret header q now user e =
    elim (Bool-cases (is_empty (token_of header q))) [
      | inl h ↦ absurd (ground arith)
      | inr h ↦
          passes-claims L jwt_secret (token_of header q) now user
            (L.decode (token_of header q) jwt_secret now) (rw h at e)
    ]

-- The four paths that need no setup.
abbrev pub IsOpenPath : String → Type 0
IsOpenPath path =
    (path ≡ "/api/system/init/state")
    ⊎ ((path ≡ "/api/system/init") ⊎ ((path ≡ "/health") ⊎ (path ≡ "/version")))

is_open_iff : (path : String) → (is_open path ≡ true) ↔ IsOpenPath path
unfolding is_open
is_open_iff path = (
  λ h. ground (
    arith,
    eq_iff path "/api/system/init/state",
    eq_iff path "/api/system/init",
    eq_iff path "/health",
    eq_iff path "/version",
  ),
  λ h. elim h [
    | inl e ↦ rw e refl
    | inr k ↦ elim k [
      | inl e ↦ rw e refl
      | inr l ↦ elim l [ inl e ↦ rw e refl | inr e ↦ rw e refl ]
    ]
  ],
)

-- A request passes the test for the setup exactly if its path is one of the four, or the server is known
-- to be set up. Any other path is answered with 503 exactly if the server is known not to be set up.
pub check_setup_iff :
    (path : String) (initialized : Attempt Bool)
    → ((check_setup path initialized ≡ next tt) ↔ (IsOpenPath path ⊎ (initialized ≡ done true)))
      × ((check_setup path initialized ≡ answer StatusCode.service_unavailable)
          ↔ ((IsOpenPath path → ⊥) × (initialized ≡ done false)))
unfolding check_setup
check_setup_iff path initialized =
    let (out, back) = is_open_iff path in
    elim (Bool-cases (is_open path)) [
      | inl e ↦ (
        (λ h. inl (out e), λ h. ground arith),
        (λ h. absurd (ground arith), λ h. absurd (h.0 (out e))),
      )
      | inr e ↦ (
        (
          λ h. inr (ground arith),
          λ h. elim h [ inl k ↦ absurd (ground (arith, back k)) | inr k ↦ ground arith ],
        ),
        (λ h. (λ k. ground (arith, back k), ground arith), λ h. ground (arith, h.1)),
      )
    ]

find-none :
    (id username : String) (accounts : List Account)
    → any (λ (a : Account). has_id id a || named username a) accounts ≡ false
    → find (named username) accounts ≡ none
find-none id username [] e = refl
find-none id username (a ∷ accounts) e = ground (arith, find-none id username accounts)

module _ (L : Libraries) (sound : AreSound L)
    (jwt_secret storage_path username password hash token : String) (q : Option String) (now : ℕ)
    (w : State L) where
  abbrev id : String
  id = L.new_v4 (w.tick + 1)

  abbrev claims : Claims
  claims = record { sub = id; name = username; exp = L.now (w.tick + 1 + 1 + 1) + seven_days }

  abbrev fresh_account : Account
  fresh_account = record {
    id = id;
    username = username;
    password_hash = hash;
    wallpaper = none;
    idle_timeout = pos 0;
    idle_action = "lock";
  }

  abbrev after_signup : State L
  after_signup = record {
    accounts = fresh_account ∷ w.accounts;
    dirs = L.create_dir_all (user_root storage_path username) w.dirs;
    tick = w.tick + 1 + 1;
  }

  signup-new :
      ((n : ℕ) → L.fault n ≡ none)
      → any (λ (a : Account). has_id id a || named username a) w.accounts ≡ false
      → L.hash_password password (L.salt (w.tick + 1)) ≡ done hash
      → signup L jwt_secret storage_path username password w ≡ (ok id, after_signup)
  unfolding signup create_account insert_account
  signup-new up new hashed =
      let asked : State L = record w { tick = w.tick + 1 } in
      rw (query-runs L (find (named username)) w (up w.tick)) (
        rw (find-none id username w.accounts new) (
          rw hashed (
            rw (execute-runs L (insert_account id username hash) asked (up (w.tick + 1)))
              (rw new refl))))

  login-new :
      ((n : ℕ) → L.fault n ≡ none)
      → L.hash_password password (L.salt (w.tick + 1)) ≡ done hash
      → L.encode claims jwt_secret ≡ done token
      → (login L jwt_secret storage_path username password after_signup).0
        ≡ ok (record { user_id = id; token = token })
  unfolding login login_as
  login-new up hashed encoded =
      let (parsed, e, ok_password) = sound.verifies password (L.salt (w.tick + 1)) hash hashed in
      rw (query-runs L (find (named username)) after_signup (up (w.tick + 1 + 1)))
        (rw (eq_refl username) (rw (e, ok_password) (rw encoded refl)))

  token-passes :
      L.encode claims jwt_secret ≡ done token
      → now ≤ claims.exp
      → require_auth L jwt_secret false (some ("Bearer " <> token)) q now
        ≡ next (record { user_id = id; username = username })
  unfolding require_auth check_token
  token-passes encoded live =
      let nonempty : is_empty token ≡ false =
        is_empty_of_ne token (λ e. sound.tokens claims jwt_secret (rw e at encoded)) in
      rw (bearer q token nonempty) (
        rw nonempty (
          rw (check_token, sound.decodes claims jwt_secret token now encoded live)
            (rw (sound.parses (w.tick + 1)) refl)))

-- Whoever signs up with a name and an id that no account has can log in with the same password
-- right after, and a request that carries the token in its header passes as that user until
-- the token expires, seven days after the login, if no statement and no library call fails.
pub signup-login-require_auth :
    (L : Libraries)
    → AreSound L
    → (jwt_secret storage_path username password hash token : String) (q : Option String) (now : ℕ)
      (w : State L)
    → ((n : ℕ) → L.fault n ≡ none)
    → any (λ (a : Account). has_id (L.new_v4 (w.tick + 1)) a || named username a) w.accounts ≡ false
    → L.hash_password password (L.salt (w.tick + 1)) ≡ done hash
    → L.encode
        (record {
          sub = L.new_v4 (w.tick + 1);
          name = username;
          exp = L.now (w.tick + 1 + 1 + 1) + seven_days;
        })
        jwt_secret
      ≡ done token
    → now ≤ L.now (w.tick + 1 + 1 + 1) + seven_days
    → (v : State L) × (signup L jwt_secret storage_path username password w
        ≡ (ok (L.new_v4 (w.tick + 1)), v))
      × ((login L jwt_secret storage_path username password v).0
          ≡ ok (record { user_id = L.new_v4 (w.tick + 1); token = token }))
      × (require_auth L jwt_secret false (some ("Bearer " <> token)) q now
          ≡ next (record { user_id = L.new_v4 (w.tick + 1); username = username }))
signup-login-require_auth L sound jwt_secret storage_path username password hash token q now w up
      new hashed encoded live =
    (
      after_signup L sound jwt_secret storage_path username password hash token q now w,
      signup-new L sound jwt_secret storage_path username password hash token q now w up new hashed,
      login-new L sound jwt_secret storage_path username password hash token q now w up hashed
          encoded,
      token-passes L sound jwt_secret storage_path username password hash token q now w encoded
          live,
    )
