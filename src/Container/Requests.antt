-- ===== src/Container/Requests.antt =====
-- What the container service accepts: the requests of crates/domain/src/dtos/container.rs with
-- `validate_create_req` and `validate_pull_req` of crates/container/src/container_service.rs. An `f64`
-- and the table of alphanumeric characters are parameters.
pub mod Valid
use nasserver.Base.{
  ℕ, ◌+◌, ◌*◌, ◌-◌, ◌<◌, String, Char, code, Bool, true, false, not, ◌&&◌, ◌||◌, ◌==◌, Option, none,
  some, List, [], ◌∷◌, all, any, length, ltb, leb, if◌then◌else◌,
}
use nasserver.Base.Text.{◌<>◌, ◌=s=◌, is_empty}
use nasserver.Base.Text.Digits.{all_chars, parse_u16}
use nasserver.Domain.{Error, bad_request, Result, ok, err}

-- `PortMapping`
pub record PortMapping : Type 0 where
  pub host : String
  pub container : String

-- `i64`
pub data ℤ : Type 0 where
  pos negsuc : ℕ → ℤ

-- `f64`, as far as the service computes with it, and `char::is_alphanumeric`.
pub record Numbers : Type 1 where
  pub Float : Type 0
  pub of_ℕ : ℕ → Float
  pub lt : Float → Float → Bool
  pub mul : Float → Float → Float
  pub to_i64 : Float → ℤ
  pub is_alphanumeric : Char → Bool

-- `PullImageReq`
pub record PullImageReq : Type 0 where
  pub image : String
  pub tag : Option String

-- The length of a character in UTF-8.
abbrev pub char_len : ℕ → ℕ
char_len c = if ltb c 128 then 1 else if ltb c 2048 then 2 else if ltb c 65536 then 3 else 4

-- `str::len`
unfoldable pub byte_len : String → ℕ
byte_len String.[] = 0
byte_len (String.◌∷◌ c s) = char_len (code c) + byte_len s

abbrev pub is_some {ℓ} : {A : Type ℓ} → Option A → Bool
is_some none = false
is_some (some a) = true

unfoldable pub is_port : String → Bool
is_port s = is_some (parse_u16 s)

abbrev pub or_empty {ℓ} : {A : Type ℓ} → Option (List A) → List A
or_empty none = []
or_empty (some xs) = xs

-- `first?; next`
abbrev pub and_then : Result (Unit {0}) → Result (Unit {0}) → Result (Unit {0})
and_then (ok tt) next = next
and_then (err e) next = err e

abbrev pub is_image_char : (Char → Bool) → Char → Bool
is_image_char is_alphanumeric c =
    is_alphanumeric c
    || (code c == b'_'
        || (code c == b'-' || (code c == b'.' || (code c == b'/' || code c == b':'))))

-- `validate_pull_req`
unfoldable pub validate_pull_req : (Char → Bool) → PullImageReq → Result (Unit {0})
validate_pull_req is_alphanumeric req =
    if is_empty req.image
    then err (bad_request "Image name is required")
    else if not (all_chars (is_image_char is_alphanumeric) req.image)
    then err (bad_request ("Invalid image name: " <> req.image))
    else ok tt

unfoldable pub check_image : String → Result (Unit {0})
check_image image_id = if is_empty image_id then err (bad_request "Image ID is required") else ok tt

unfoldable pub check_ports : List PortMapping → Result (Unit {0})
check_ports [] = ok tt
check_ports (p ∷ ps) =
    let rest = check_ports ps in
    if not (is_port p.host) || not (is_port p.container)
    then err (bad_request ("Invalid port mapping: " <> (p.host <> (":" <> p.container))))
    else rest

unfoldable pub check_variables : List String → Result (Unit {0})
check_variables [] = ok tt
check_variables (e ∷ es) =
    let rest = check_variables es in
    if ltb 4096 (byte_len e) then err (bad_request "Environment variable too long") else rest

unfoldable pub check_env : Option (List String) → Result (Unit {0})
check_env none = ok tt
check_env (some env) =
    if ltb 100 (length env)
    then err (bad_request "Too many environment variables")
    else check_variables env

module _ (N : Numbers) where
  -- `CreateContainerReq`
  pub record CreateContainerReq : Type 0 where
    pub image_id : String
    pub name : Option String
    pub cpu_limit : Option N.Float
    pub memory_limit : Option N.Float
    pub auto_start : Option Bool
    pub ports : Option (List PortMapping)
    pub volumes : Option (List String)
    pub env : Option (List String)
    pub gpu_id : Option String
    pub privileged : Option Bool
    pub cap_add : Option (List String)
    pub network_mode : Option String
    pub cmd : Option (List String)
    pub username : Option String

  abbrev pub is_name_char : Char → Bool
  is_name_char c = N.is_alphanumeric c || (code c == b'_' || (code c == b'-' || code c == b'.'))

  -- `is_safe_name`
  unfoldable pub is_safe_name : String → Bool
  is_safe_name name =
      if is_empty name || ltb 128 (byte_len name) then false else all_chars is_name_char name

  unfoldable pub check_name : Option String → Result (Unit {0})
  check_name none = ok tt
  check_name (some name) =
      if not (is_safe_name name)
      then err (bad_request ("Invalid container name: " <> name))
      else ok tt

  -- A number between zero and a bound.
  unfoldable pub check_limit : Option N.Float → N.Float → String → Result (Unit {0})
  check_limit none bound message = ok tt
  check_limit (some x) bound message =
      if N.lt x (N.of_ℕ 0) || N.lt bound x then err (bad_request message) else ok tt

  -- 1024.0 * 1024.0 * 1024.0 * 128.0
  abbrev pub memory_bound : N.Float
  memory_bound = N.mul (N.mul (N.mul (N.of_ℕ 1024) (N.of_ℕ 1024)) (N.of_ℕ 1024)) (N.of_ℕ 128)

  -- `validate_create_req`
  unfoldable pub validate_create_req : CreateContainerReq → Result (Unit {0})
  validate_create_req req = and_then (check_name req.name) (
      and_then (check_image req.image_id) (
        and_then (check_ports (or_empty req.ports)) (
          and_then (check_limit req.cpu_limit (N.of_ℕ 1024) "CPU limit must be between 0 and 1024")
            (and_then (check_limit req.memory_limit memory_bound "Memory limit is too high")
              (check_env req.env)))))
