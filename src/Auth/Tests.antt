-- ===== src/Auth/Tests.antt =====
-- A small installation of the authentication, and the theorems about it applied there.
use nasserver.Base.{
  ℕ, ◌+◌, String, ◌≡◌, refl, sym, ap, ◌∙◌, ◌↔◌, ◌⊎◌, true, false, not, ◌||◌, ◌&&◌, none, some, List,
  [], ◌∷◌, find, if◌then◌else◌, arith, ◌==◌,
}
use nasserver.Base.Text.{◌<>◌, ◌=s=◌, eq_refl, eq_iff, strip_prefix, split, is_empty}
use nasserver.Domain.{ok, done, failed}
use nasserver.Auth.World.{pos, Account, Claims, Libraries, State, query}
use nasserver.Auth.{named, seven_days, signup, login, login_as}
use nasserver.Auth.Guards.{
  answer, StatusCode, next, require_auth, check_setup, check_token, token_of, splitn2,
  token_of_pairs,
}
use nasserver.Auth.Accounts.{distinct}
use nasserver.Auth.Sessions.{
  AreSound, IsOpenPath, require_auth-Sound, check_setup_iff, signup-login-require_auth,
}
use nasserver.Auth.Login.{login-Sound}

-- Tokens of one user: the token is the name, the secret is not used, and no token expires.
abbrev libraries : Libraries
libraries = record {
  Dirs = List String;
  create_dir_all = λ dir dirs. dir ∷ dirs;
  salt = λ n. "salt";
  hash_password = λ password salt. done password;
  parse_hash = λ hash. done hash;
  verify_password = λ password parsed. password =s= parsed;
  encode = λ claims secret.
      if is_empty claims.name || not (claims.sub =s= "id" && claims.exp == seven_days)
      then failed "claims"
      else done claims.name;
  decode = λ token secret now. done (record { sub = "id"; name = token; exp = seven_days });
  parse_uuid = λ text. done text;
  nil_uuid = "nil";
  new_v4 = λ n. "id";
  now = λ n. 0;
  fault = λ n. none;
  violation = "unique";
}

encode_inv :
    (claims : Claims) (secret token : String)
    → libraries.encode claims secret ≡ done token
    → (claims.sub ≡ "id")
      × (claims.exp ≡ seven_days)
      × (claims.name ≡ token)
      × (is_empty token ≡ false)
encode_inv claims secret token e = ground (arith, eq_iff claims.sub "id")

decode_back :
    (claims : Claims) (secret token : String) (now : ℕ)
    → libraries.encode claims secret ≡ done token
    → libraries.decode token secret now ≡ done claims
decode_back claims secret token now e =
    let (p, q, r, n) = encode_inv claims secret token e in
    rw (← r) (
      ap (λ s. done (record { sub = s; name = claims.name; exp = seven_days })) (sym p)
      ∙ ap (λ x. done (record { sub = claims.sub; name = claims.name; exp = x })) (sym q))

libraries-AreSound : AreSound libraries
libraries-AreSound = record {
  verifies = λ password salt hash e.
      let same : password ≡ hash = ground arith in (hash, refl, rw same (eq_refl hash));
  decodes = λ claims secret token now e live. decode_back claims secret token now e;
  tokens = λ claims secret e. let (p, q, r, n) = encode_inv claims secret "" e in cc;
  parses = λ n. refl;
}

abbrev empty : State libraries
empty = record { accounts = []; dirs = []; tick = 0 }

abbrev bob : Account
bob = record {
  id = "id";
  username = "bob";
  password_hash = "pass";
  wallpaper = none;
  idle_timeout = pos 0;
  idle_action = "lock";
}

abbrev town : State libraries
town = record { accounts = bob ∷ []; dirs = []; tick = 0 }

signup-login-require_auth_example :
    (v : State libraries) × (signup libraries "secret" "/data" "bob" "pass" empty ≡ (ok "id", v))
    × ((login libraries "secret" "/data" "bob" "pass" v).0
        ≡ ok (record { user_id = "id"; token = "bob" }))
    × (require_auth libraries "secret" false (some ("Bearer " <> "bob")) none 5
        ≡ next (record { user_id = "id"; username = "bob" }))
signup-login-require_auth_example =
    signup-login-require_auth libraries libraries-AreSound "secret" "/data" "bob" "pass" "pass"
      "bob" none 5 empty (λ n. refl) refl refl refl (omega arith)

town_distinct : distinct town.accounts ≡ true
unfolding distinct
town_distinct = refl

passes_bob :
    require_auth libraries "secret" false none (some "a=1&token=bob") 5
    ≡ next (record { user_id = "id"; username = "bob" })
unfolding require_auth check_token token_of token_of_pairs splitn2 split strip_prefix
passes_bob = refl

require_auth-Sound_example :
    (claims : Claims) × (libraries.decode (token_of none (some "a=1&token=bob")) "secret" 5
      ≡ done claims)
    × (libraries.parse_uuid claims.sub ≡ done "id")
    × ("bob" ≡ claims.name)
require_auth-Sound_example =
    require_auth-Sound libraries "secret" none (some "a=1&token=bob") 5
      (record { user_id = "id"; username = "bob" }) passes_bob

check_setup_iff_example :
    ((check_setup "/health" (done false) ≡ next tt)
      ↔ (IsOpenPath "/health" ⊎ (done false ≡ done true)))
    × ((check_setup "/health" (done false) ≡ answer StatusCode.service_unavailable)
        ↔ ((IsOpenPath "/health" → ⊥) × (done false ≡ done false)))
check_setup_iff_example = check_setup_iff "/health" (done false)

abbrev later : State libraries
later = record { accounts = bob ∷ []; dirs = []; tick = 1 }

logs_in :
    login libraries "secret" "/data" "bob" "pass" town
    ≡ (ok (record { user_id = "id"; token = "bob" }), later)
unfolding login login_as query
logs_in = refl

login-Sound_example :
    (a : Account) × (parsed : String) × (find (named "bob") town.accounts ≡ some a)
    × (libraries.parse_hash a.password_hash ≡ done parsed)
    × (libraries.verify_password "pass" parsed ≡ true)
    × ("id" ≡ a.id)
    × (libraries.encode
          (record {
            sub = a.id;
            name = a.username;
            exp = libraries.now (town.tick + 1) + seven_days;
          })
          "secret"
        ≡ done "bob")
login-Sound_example =
    login-Sound libraries "secret" "/data" "bob" "pass" town later
      (record { user_id = "id"; token = "bob" }) logs_in
