-- ===== src/Auth/Guards.antt =====
-- What stands before every request: `check_setup` and `require_auth` of
-- crates/api/src/middleware.rs. A request is what they read of it; to pass it on is `ok`.
use nasserver.Base.{
  ℕ, code, String, Bool, true, false, ◌||◌, Option, none, some, List, [], ◌∷◌, ◌==◌, if◌then◌else◌,
}
use nasserver.Base.Text.{◌=s=◌, split, strip_prefix, is_empty}
use nasserver.Domain.{Attempt, done, failed}
use nasserver.Auth.World.{AuthUser, Libraries}

-- The codes of `axum::http::StatusCode` that the guards answer with.
pub data StatusCode : Type 0 where
  unauthorized service_unavailable internal_server_error : StatusCode

-- The request goes to the next handler with a value, or is answered.
pub data Passage (A : Type 0) : Type 0 where
  next : A → Passage A
  answer : StatusCode → Passage A

-- The paths that need no setup.
unfoldable pub is_open : String → Bool
is_open path =
    (path =s= "/api/system/init/state" || path =s= "/api/system/init")
    || (path =s= "/health" || path =s= "/version")

-- `check_setup`; `initialized` is the answer of the system service.
unfoldable pub check_setup : String → Attempt Bool → Passage (Unit {0})
check_setup path initialized = if is_open path then next tt else elim initialized [
  | failed _ ↦ answer internal_server_error
  | done true ↦ next tt
  | done false ↦ answer service_unavailable
]

-- `splitn(2, '=')`: the text before the first "=", and what follows it.
unfoldable pub splitn2 : String → String × Option String
splitn2 String.[] = ("", none)
splitn2 (String.◌∷◌ c s) =
    let (key, value) = splitn2 s in
    if code c == b'=' then ("", some s) else (String.◌∷◌ c key, value)

-- The loop over the pairs of the query: the value of the first "token".
unfoldable pub token_of_pairs : List String → String
token_of_pairs [] = ""
token_of_pairs (pair ∷ pairs) =
    let (key, value) = splitn2 pair in
    let rest = token_of_pairs pairs in
    if key =s= "token" then elim value [ none ↦ "" | some t ↦ t ] else rest

-- The token of the header "authorization", where it has one, or of the query.
unfoldable pub token_of : Option String → Option String → String
token_of header q =
    let hdr : String = elim header [ none ↦ "" | some h ↦ h ] in
    let bearer : String = elim (strip_prefix hdr "Bearer ") [ none ↦ "" | some t ↦ t ] in
    if is_empty bearer
    then elim q [ none ↦ "" | some text ↦ token_of_pairs (split b'&' text) ]
    else bearer

module _ (L : Libraries) (jwt_secret : String) where
  -- The token is decoded at the time `now`.
  unfoldable pub check_token : String → ℕ → Passage AuthUser
  check_token token now = elim (L.decode token jwt_secret now) [
    | failed _ ↦ answer unauthorized
    | done claims ↦ elim (L.parse_uuid claims.sub) [
      | failed _ ↦ answer unauthorized
      | done uid ↦ next (record { user_id = uid; username = claims.name })
    ]
  ]

  -- `require_auth`; `insecure` says whether ALLOW_INSECURE_AUTH is "1".
  unfoldable pub require_auth : Bool → Option String → Option String → ℕ → Passage AuthUser
  require_auth insecure header q now =
      let token = token_of header q in
      if is_empty token
      then if insecure
        then next (record { user_id = L.nil_uuid; username = "dev" })
        else answer unauthorized
      else elim (if insecure then L.parse_uuid token else failed "") [
        | done uid ↦ next (record { user_id = uid; username = "dev" })
        | failed _ ↦ check_token token now
      ]
