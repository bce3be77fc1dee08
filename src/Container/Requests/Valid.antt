-- ===== src/Container/Requests/Valid.antt =====
-- The requests that `validate_create_req` accepts, described without it.
use nasserver.Base.{
  code, ◌==◌, ◌||◌, ℕ, ◌≤◌, String, ◌≡◌, refl, ◌≢◌, ◌↔◌, true, false, Option, none, some, List, [],
  ◌∷◌, All, length, arith, Option-cases, inl, inr,
}
use nasserver.Base.Text.Digits.{all_chars, parse_u16}
use nasserver.Domain.{Result, ok, err}
use nasserver.Storage.Paths.Laws.{is_empty_of_ne, is_empty-false}
use nasserver.Container.Requests.{
  Numbers, PortMapping, CreateContainerReq, byte_len, is_port, or_empty, and_then, is_safe_name,
  check_name, check_image, check_ports, check_limit, check_variables, check_env, memory_bound,
  validate_create_req,
}

-- A text that reads as a number below 2 ^ 16.
abbrev pub IsPort : String → Type 0
IsPort s = (n : ℕ) × (parse_u16 s ≡ some n)

is_port_iff : (s : String) → (is_port s ≡ true) ↔ IsPort s
unfolding is_port
is_port_iff s = (
  λ h. elim (Option-cases (parse_u16 s)) [ inl e ↦ absurd (ground arith) | inr (n, e) ↦ (n, e) ],
  λ h. rw h.1 refl,
)

and_then_iff : (r s : Result (Unit {0})) → (and_then r s ≡ ok tt) ↔ ((r ≡ ok tt) × (s ≡ ok tt))
and_then_iff (ok tt) s = (λ h. (refl, h), λ h. h.1)
and_then_iff (err e) s = (λ h. absurd (ground arith), λ h. absurd (ground arith))

abbrev pub IsShort : Option (List String) → Type 0
IsShort none = Unit
IsShort (some env) = (length env ≤ 100) × All (λ e. byte_len e ≤ 4096) env

check_image_iff : (image : String) → (check_image image ≡ ok tt) ↔ (image ≢ "")
unfolding check_image
check_image_iff image =
    (λ h. is_empty-false image (ground arith), λ h. rw (is_empty_of_ne image h) refl)

check_ports_iff :
    (ps : List PortMapping)
    → (check_ports ps ≡ ok tt) ↔ All (λ (p : PortMapping). IsPort p.host × IsPort p.container) ps
unfolding check_ports
check_ports_iff [] = (λ _. tt, λ _. refl)
check_ports_iff (p ∷ ps) = (
  λ h. (
    ((is_port_iff p.host).0 (ground arith), (is_port_iff p.container).0 (ground arith)),
    (check_ports_iff ps).0 (ground arith),
  ),
  λ h.
      rw ((is_port_iff p.host).1 h.0.0, (is_port_iff p.container).1 h.0.1)
        ((check_ports_iff ps).1 h.1),
)

check_variables_iff :
    (es : List String) → (check_variables es ≡ ok tt) ↔ All (λ e. byte_len e ≤ 4096) es
unfolding check_variables
check_variables_iff [] = (λ _. tt, λ _. refl)
check_variables_iff (e ∷ es) = (
  λ h. ground (arith, (check_variables_iff es).0),
  λ h. ground (arith, (check_variables_iff es).1),
)

check_env_iff : (env : Option (List String)) → (check_env env ≡ ok tt) ↔ IsShort env
unfolding check_env
check_env_iff none = (λ _. tt, λ _. refl)
check_env_iff (some env) = (
  λ h. ground (arith, (check_variables_iff env).0),
  λ h. ground (arith, (check_variables_iff env).1),
)

module _ (N : Numbers) where
  -- A name of at most 128 bytes, of alphanumeric characters, underscores, hyphens and dots.
  abbrev pub IsName : Option String → Type 0
  IsName none = Unit
  IsName (some name) =
      (name ≢ "")
      × (byte_len name ≤ 128)
      × (all_chars
            (λ c.
              N.is_alphanumeric c
              || (code c == code "_" || (code c == code "-" || code c == code ".")))
            name
          ≡ true)

  abbrev pub IsBetween : Option N.Float → N.Float → Type 0
  IsBetween none bound = Unit
  IsBetween (some x) bound = (N.lt x (N.of_ℕ 0) ≡ false) × (N.lt bound x ≡ false)

  pub record IsValid (req : CreateContainerReq N) : Type 0 where
    pub name : IsName req.name
    pub image : req.image_id ≢ ""
    pub ports : All (λ (p : PortMapping). IsPort p.host × IsPort p.container) (or_empty req.ports)
    pub cpu : IsBetween req.cpu_limit (N.of_ℕ 1024)
    pub memory :
        IsBetween req.memory_limit
          (N.mul (N.mul (N.mul (N.of_ℕ 1024) (N.of_ℕ 1024)) (N.of_ℕ 1024)) (N.of_ℕ 128))
    pub env : IsShort req.env

  check_name_iff : (name : Option String) → (check_name N name ≡ ok tt) ↔ IsName name
  unfolding check_name is_safe_name
  check_name_iff none = (λ _. tt, λ _. refl)
  check_name_iff (some name) = (
    λ h. (is_empty-false name (ground arith), ground arith, ground arith),
    λ (ne, small, h). ground (arith, is_empty_of_ne name ne),
  )

  check_limit_iff :
      (x : Option N.Float) (bound : N.Float) (message : String)
      → (check_limit N x bound message ≡ ok tt) ↔ IsBetween x bound
  unfolding check_limit
  check_limit_iff none bound message = (λ _. tt, λ _. refl)
  check_limit_iff (some x) bound message = (λ h. ground arith, λ h. ground arith)

  -- A request is accepted exactly if its image is named; its name, where it has one, is of at most 128 bytes
  -- and of alphanumeric characters, underscores, hyphens and dots; all ports are texts of numbers below
  -- 2 ^ 16; the limit of processors is from 0 to 1024 and that of memory, a number of gigabytes, from 0 to
  -- 128 times 1024 cubed; and there are at most 100 variables of at most 4096 bytes each.
  pub validate_create_req_iff :
      (req : CreateContainerReq N) → (validate_create_req N req ≡ ok tt) ↔ IsValid req
  unfolding validate_create_req
  validate_create_req_iff req = (
    λ h.
        let (name, h1) = (and_then_iff _ _).0 h in
        let (image, h2) = (and_then_iff _ _).0 h1 in
        let (ports, h3) = (and_then_iff _ _).0 h2 in
        let (cpu, h4) = (and_then_iff _ _).0 h3 in
        let (memory, env) = (and_then_iff _ _).0 h4 in
        record {
          name = (check_name_iff req.name).0 name;
          image = (check_image_iff req.image_id).0 image;
          ports = (check_ports_iff (or_empty req.ports)).0 ports;
          cpu = (check_limit_iff req.cpu_limit (N.of_ℕ 1024) _).0 cpu;
          memory = (check_limit_iff req.memory_limit (memory_bound N) _).0 memory;
          env = (check_env_iff req.env).0 env;
        },
    λ v.
        rw
          (
            (check_name_iff req.name).1 v.name,
            (check_image_iff req.image_id).1 v.image,
            (check_ports_iff (or_empty req.ports)).1 v.ports,
          )
          (rw
            (
              (check_limit_iff req.cpu_limit (N.of_ℕ 1024) "CPU limit must be between 0 and 1024").1
                  v.cpu,
              (check_limit_iff req.memory_limit (memory_bound N) "Memory limit is too high").1
                  v.memory,
            )
            ((check_env_iff req.env).1 v.env)),
  )
