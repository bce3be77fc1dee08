-- ===== src/System/Ports.antt =====
-- `check_ports` of crates/system/src/system_service.rs. The addresses are texts, and what binding one
-- gives is a parameter.
use nasserver.Base.{
  ℕ, ◌≡◌, refl, ◌↔◌, ◌⊎◌, inl, inr, Bool-cases, String, Bool, true, false, Option, none, some, List,
  [], ◌∷◌, arith, if◌then◌else◌,
}
use nasserver.Base.Text.{◌<>◌}

-- The kinds of `std::io::Error` that are told apart.
pub data ErrorKind : Type 0 where
  addr_in_use addr_not_available other_kind : ErrorKind

-- What `TcpListener::bind` gives.
pub data Bound : Type 0 where
  bound : Bound
  refused : ErrorKind → String → Bound

pub record PortStatus : Type 0 where
  pub port : ℕ
  pub in_use : Bool
  pub error : Option String

-- The test of the IPv4 address: in use, and the error.
unfoldable pub first_try : Bound → Bool × Option String
first_try bound = (false, none)
first_try (refused addr_in_use message) = (true, some message)
first_try (refused addr_not_available message) = (false, some message)
first_try (refused other_kind message) = (false, some message)

-- The test of the IPv6 address after the other has found the port free.
unfoldable pub second_try : Bound → Option String → Bool × Option String
second_try bound error_msg = (false, error_msg)
second_try (refused addr_in_use message) error_msg = (true, some message)
second_try (refused addr_not_available message) error_msg = (false, error_msg)
second_try (refused other_kind message) none = (false, some message)
second_try (refused other_kind message) (some earlier) = (false, some earlier)

module _ (bind : String → Bound) (print : ℕ → String) where
  unfoldable pub check_port : ℕ → PortStatus
  check_port port =
      let first = first_try (bind ("0.0.0.0:" <> print port)) in
      let second = second_try (bind ("[::]:" <> print port)) first.1 in
      if first.0
      then record { port = port; in_use = true; error = first.1 }
      else record { port = port; in_use = second.0; error = second.1 }

  -- `check_ports`
  unfoldable pub check_ports : List ℕ → List PortStatus
  check_ports [] = []
  check_ports (port ∷ ports) = check_port port ∷ check_ports ports

-- The address cannot be bound because it is in use.
abbrev pub IsTaken : Bound → Type 0
IsTaken b = (message : String) × (b ≡ refused addr_in_use message)

first_try_iff : (b : Bound) → ((first_try b).0 ≡ true) ↔ IsTaken b
unfolding first_try
first_try_iff bound = (λ h. absurd (ground arith), λ t. absurd (ground arith))
first_try_iff (refused addr_in_use m) = (λ h. (m, refl), λ t. refl)
first_try_iff (refused addr_not_available m) =
    (λ h. absurd (ground arith), λ t. absurd (ground arith))
first_try_iff (refused other_kind m) = (λ h. absurd (ground arith), λ t. absurd (ground arith))

second_try_iff : (b : Bound) (e : Option String) → ((second_try b e).0 ≡ true) ↔ IsTaken b
unfolding second_try
second_try_iff bound e = (λ h. absurd (ground arith), λ t. absurd (ground arith))
second_try_iff (refused addr_in_use m) e = (λ h. (m, refl), λ t. refl)
second_try_iff (refused addr_not_available m) e =
    (λ h. absurd (ground arith), λ t. absurd (ground arith))
second_try_iff (refused other_kind m) none =
    (λ h. absurd (ground arith), λ t. absurd (ground arith))
second_try_iff (refused other_kind m) (some e) =
    (λ h. absurd (ground arith), λ t. absurd (ground arith))

module _ (bind : String → Bound) (print : ℕ → String) where
  -- A port is reported as in use exactly if one of its two addresses is.
  abbrev pub IsReport : ℕ → PortStatus → Type 0
  IsReport port s =
      (s.port ≡ port)
      × ((s.in_use ≡ true)
          ↔ (IsTaken (bind ("0.0.0.0:" <> print port)) ⊎ IsTaken (bind ("[::]:" <> print port))))

  -- The reports fit the ports, one by one.
  abbrev pub Reports : List ℕ → List PortStatus → Type 0
  Reports [] [] = Unit
  Reports [] (s ∷ ss) = ⊥
  Reports (port ∷ ports) [] = ⊥
  Reports (port ∷ ports) (s ∷ ss) = IsReport port s × Reports ports ss

  check_port-IsReport : (port : ℕ) → IsReport port (check_port bind print port)
  unfolding check_port
  check_port-IsReport port =
      let v4 = bind ("0.0.0.0:" <> print port) in
      let v6 = bind ("[::]:" <> print port) in
      elim (Bool-cases (first_try v4).0) [
        | inl e ↦ rw e (refl, (λ h. inl ((first_try_iff v4).0 e), λ t. refl))
        | inr e ↦ rw e (
          refl,
          (
            λ h. inr ((second_try_iff v6 (first_try v4).1).0 h),
            λ t. elim t [
              | inl a ↦ absurd (ground (arith, (first_try_iff v4).1 a))
              | inr b ↦ (second_try_iff v6 (first_try v4).1).1 b
            ],
          ),
        )
      ]

  -- There is one report for each port, in the order of the ports; it says that the port is in use
  -- exactly if its IPv4 or its IPv6 address cannot be bound for this reason.
  pub check_ports-Reports : (ports : List ℕ) → Reports ports (check_ports bind print ports)
  unfolding check_ports
  check_ports-Reports [] = tt
  check_ports-Reports (port ∷ ports) = (check_port-IsReport port, check_ports-Reports ports)
