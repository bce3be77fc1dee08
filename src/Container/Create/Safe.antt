-- ===== src/Container/Create/Safe.antt =====
-- What Docker is asked for when a container is created.
use mathlib.Core.Path.{subst}
use mathlib.Core.List.{append-nil, append_assoc}
use nasserver.Base.{
  String, ◌≡◌, refl, sym, ap, ◌∙◌, true, false, ◌||◌, Option, none, some, List, [], ◌∷◌, ◌++◌, All,
  arith, Bool-cases, inl, inr, ◌⊎◌,
}
use nasserver.Base.Text.{◌<>◌, starts_with}
use nasserver.Domain.{Error, Result, ok, err, Attempt-cases, Result-cases, after, pure, ◌>>=◌}
use nasserver.Container.Requests.{Numbers, CreateContainerReq, or_empty, validate_create_req}
use nasserver.Container.Requests.Valid.{IsValid, validate_create_req_iff}
use nasserver.Container.HostPaths.{name_of, user_home, app_data_root}
use nasserver.Container.HostPaths.Confined.{IsInside, resolve_physical_path-IsInside}
use nasserver.Container.World.{DockerCall, create_call, start_call, Host, World, Op, lift, docker}
use nasserver.Container.Create.{
  host_part, host_path, bind_volume, bind_volumes, optional_binds, config_of, start_created,
  create_container, or_else,
}

-- The host's side of a volume is no path, or lies in the user's directory or in AppData.
abbrev pub IsSource : String → Option String → String → Type 0
IsSource storage_path username source =
    ((starts_with source "/" || starts_with source ".") ≡ false)
    ⊎ (IsInside (user_home storage_path (name_of username)) source
        ⊎ IsInside (app_data_root storage_path) source)

abbrev pub IsBind : String → Option String → String → Type 0
IsBind storage_path username bind =
    (source : String) × (rest : String) × (bind ≡ source <> (":" <> rest))
    × IsSource storage_path username source

-- The operation calls nothing of Docker, and what it returns has the property.
abbrev Quiet : {A : Type 0} → (A → Type 0) → Op A → Type 0
Quiet {A} P m = (w : World) → ((m w).1.calls ≡ w.calls) × ((a : A) → (m w).0 ≡ ok a → P a)

Quiet-pure : {A : Type 0} (P : A → Type 0) (a : A) → P a → Quiet P (pure a)
Quiet-pure P a p w = (refl, λ b e. subst (P) (ground arith) p)

Quiet-lift : {A : Type 0} (r : Result A) → Quiet (λ a. r ≡ ok a) (lift r)
Quiet-lift r w = (refl, λ a e. e)

Quiet-bind :
    {A B : Type 0} (P : A → Type 0) (Q : B → Type 0) (m : Op A) (k : A → Op B)
    → Quiet P m
    → ((a : A) → P a → Quiet Q (k a))
    → Quiet Q (m >>= k)
Quiet-bind {A} {B} P Q m k h l w = after_lem (m w) (h w)
  where
    after_lem :
        (r : Result A × World)
        → (r.1.calls ≡ w.calls) × ((a : A) → r.0 ≡ ok a → P a)
        → ((after r k).1.calls ≡ w.calls) × ((b : B) → (after r k).0 ≡ ok b → Q b)
    after_lem (ok a, v) (e, p) = let (f, q) = l a (p a refl) v in (f ∙ e, q)
    after_lem (err x, v) (e, p) = (e, λ b d. absurd (ground arith))

module _ (H : Host) (username : Option String)
    (plain : starts_with (name_of username) "/" ≡ false) where
  host_path-IsSource :
      (part : String) → Quiet (IsSource H.storage_path username) (host_path H username part)
  unfolding host_path
  host_path-IsSource part = elim (Bool-cases (starts_with part "/" || starts_with part ".")) [
    | inr name ↦ rw name (Quiet-pure _ part (inl name))
    | inl path ↦
        let (p, e, inside) = resolve_physical_path-IsInside H.storage_path username part plain in
        rw path (
          rw e (λ w.
            (refl, λ a d. subst (IsSource H.storage_path username) (ground arith) (inr inside))))
  ]

  bind_volume-IsBind :
      (v : String) → Quiet (IsBind H.storage_path username) (bind_volume H username v)
  unfolding bind_volume
  bind_volume-IsBind v =
      Quiet-bind (IsSource H.storage_path username) _ _ _ (host_path-IsSource (host_part v))
        (λ path source.
          Quiet-bind (λ _. Unit {0}) _ _ _ (λ w. (refl, λ _ _. tt))
            (λ _ _. Quiet-pure (IsBind H.storage_path username) _ (path, _, refl, source)))

  bind_volumes-AllBind :
      (vs : List String) → Quiet (All (IsBind H.storage_path username)) (bind_volumes H username vs)
  unfolding bind_volumes
  bind_volumes-AllBind [] = Quiet-pure _ [] tt
  bind_volumes-AllBind (v ∷ vs) =
      Quiet-bind (IsBind H.storage_path username) _ _ _ (bind_volume-IsBind v) (λ b p.
        Quiet-bind (All (IsBind H.storage_path username)) _ _ _ (bind_volumes-AllBind vs)
          (λ bs ps. Quiet-pure _ (b ∷ bs) (p, ps)))

  optional_binds-AllBind :
      (volumes : Option (List String))
      → Quiet
          (λ binds. All (IsBind H.storage_path username) (or_empty binds))
          (optional_binds H username volumes)
  unfolding optional_binds
  optional_binds-AllBind none = Quiet-pure _ none tt
  optional_binds-AllBind (some vs) =
      Quiet-bind (All (IsBind H.storage_path username)) _ _ _ (bind_volumes-AllBind vs) (λ bs ps.
        Quiet-pure (λ binds. All (IsBind H.storage_path username) (or_empty binds)) (some bs) ps)

-- Nothing follows the creation but the start of what was created.
abbrev pub IsStart : List DockerCall → Type 0
IsStart more = (more ≡ []) ⊎ ((id : String) × (more ≡ start_call id ∷ []))

-- Docker is asked for one safe container of the request, or for nothing.
abbrev pub AsksFor : (N : Numbers) (H : Host) → CreateContainerReq N → World → World → Type 0
AsksFor N H req w w' =
    (w'.calls ≡ w.calls)
    ⊎ ((binds : Option (List String)) × (more : List DockerCall) × (w'.calls
          ≡ w.calls ++ (create_call req.name (config_of N H req binds) ∷ more))
        × IsStart more
        × IsValid N req
        × All (IsBind H.storage_path req.username) (or_empty binds))

docker-calls :
    (H : Host) (c : DockerCall) (w : World) → (docker H c w).1.calls ≡ w.calls ++ (c ∷ [])
unfolding docker
docker-calls H c w = elim (Attempt-cases (H.answer c w.tick)) [
  | inl (id, e) ↦ rw (e, docker) refl
  | inr (m, e) ↦ rw (e, docker) refl
]

-- What follows a result that is known.
after-err :
    {A B : Type 0} (r : Result A × World) (k : A → Op B) {x : Error}
    → r.0 ≡ err x
    → (after r k).1 ≡ r.1
after-err (ok a, v) k e = absurd (ground arith)
after-err (err y, v) k e = refl

after-ok :
    {A B : Type 0} (r : Result A × World) (k : A → Op B) {a : A} → r.0 ≡ ok a → after r k ≡ k a r.1
after-ok (ok a, v) k e = ground arith
after-ok (err y, v) k e = absurd (ground arith)

module _ (N : Numbers) (H : Host) (req : CreateContainerReq N) where
  start_created-IsStart :
      (id : String) (w : World)
      → (more : List DockerCall) × ((start_created N H req id w).1.calls ≡ w.calls ++ more)
        × IsStart more
  start_created-IsStart id w = elim (Bool-cases (or_else req.auto_start true)) [
    | inr no_start ↦ ([], rw no_start (sym (append-nil w.calls)), inl refl)
    | inl starts ↦ (
      start_call id ∷ [],
      rw starts (after-calls (docker H (start_call id) w) ∙ docker-calls H (start_call id) w),
      inr (id, refl),
    )
  ]
    where
      after-calls : (r : Result String × World) → (after r (λ _. pure tt)).1.calls ≡ r.1.calls
      after-calls (ok a, v) = refl
      after-calls (err x, v) = refl

  -- The part behind the volumes.
  abbrev create_and_start : Option (List String) → World → Result (Unit {0}) × World
  create_and_start binds =
      docker H (create_call req.name (config_of N H req binds)) >>= λ id. start_created N H req id

  create_and_start-calls :
      (binds : Option (List String)) (w : World)
      → (more : List DockerCall) × ((create_and_start binds w).1.calls
          ≡ w.calls ++ (create_call req.name (config_of N H req binds) ∷ more))
        × IsStart more
  create_and_start-calls binds w =
      let call = create_call req.name (config_of N H req binds) in
      let r = docker H call w in
      elim (Result-cases r.0) [
        | inr (x, e) ↦ ([], ap (λ v. v.calls) (after-err r _ e) ∙ docker-calls H call w, inl refl)
        | inl (id, e) ↦
            let (more, k, start) = start_created-IsStart id r.1 in
            (
              more,
              ap (λ v. v.1.calls) (after-ok r _ e)
                  ∙ (k
                      ∙ (ap (λ cs. cs ++ more) (docker-calls H call w)
                          ∙ append_assoc w.calls (call ∷ []) more)),
              start,
            )
      ]

  -- Whatever the result: Docker is asked for nothing, or to create one container and at most to start
  -- it afterwards. Then the request is valid, and the host's side of each of its volumes is the name
  -- of a volume or lies in the directory of the user or in AppData, if the name of the user starts with
  -- no slash.
  pub create_container-IsSafe :
      (w : World)
      → starts_with (name_of req.username) "/" ≡ false
      → AsksFor N H req w (create_container N H req w).1
  unfolding create_container
  create_container-IsSafe w plain = elim (Result-cases (validate_create_req N req)) [
    | inr (x, e) ↦ rw e (inl refl)
    | inl (u, e) ↦
        let r = optional_binds H req.username req.volumes w in
        let (quiet, sources) = optional_binds-AllBind H req.username plain req.volumes w in
        elim (Result-cases r.0) [
          | inr (x, f) ↦ inl (rw e (ap (λ v. v.calls) (after-err r create_and_start f) ∙ quiet))
          | inl (binds, f) ↦
              let (more, k, start) = create_and_start-calls binds r.1 in
              inr (
                binds,
                more,
                rw e (
                    ap (λ v. v.1.calls) (after-ok r create_and_start f)
                    ∙ (k
                        ∙ ap (λ cs. cs ++ (create_call req.name (config_of N H req binds) ∷ more))
                            quiet)),
                start,
                (validate_create_req_iff N req).0 (ground arith),
                sources binds f,
              )
        ]
  ]
