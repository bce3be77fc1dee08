-- ===== src/Storage/Access/Bounds.antt =====
-- `resolve_opendal_path` as a whole: the results that stay below the storage's root.
use nasserver.Base.{String, ◌≡◌, false, ◌||◌, List, [], ◌∷◌, All, arith, Bool-cases, inl, inr, refl}
use nasserver.Base.Text.{◌<>◌, ◌=s=◌, starts_with, join}
use nasserver.Base.Text.Laws.{join-nil}
use nasserver.Domain.{ok}
use nasserver.Storage.World.{Platform, World}
use nasserver.Storage.Paths.{normal_parts, normalize_path, path_parts}
use nasserver.Storage.Paths.Laws.{All-map, IsPlain, normal_parts-IsPlain}
use nasserver.Storage.Access.{resolve_clean, resolve_opendal_path, resolve_system, resolve_own}
use nasserver.Storage.Access.Stays.{
  Stays, Stays-slash, Stays-join, IsPart, IsConfined, stays_test, stays_test_sound,
  path_parts-IsPart,
}
use nasserver.Storage.Access.Confined.{
  resolve_system-IsConfined, resolve_trash-IsConfined, resolve_user-IsConfined,
  resolve_app_data-IsConfined, resolve_own-IsConfined,
}

Stays-of_parts : (xs : List String) → All IsPlain xs → Stays ("/" <> join "/" xs)
unfolding stays_test
Stays-of_parts [] h = rw (join-nil "/") (stays_test_sound "/" refl)
Stays-of_parts (x ∷ xs) h =
    Stays-slash (join "/" (x ∷ xs))
      (Stays-join x xs (All-map IsPlain IsPart (x ∷ xs) (λ y q. (q.0.2, q.0.3)) h))

pub normalize_path-Stays : (p : String) → Stays (normalize_path p)
unfolding normalize_path
normalize_path-Stays p = Stays-of_parts (normal_parts p) (normal_parts-IsPlain p)

module _ (P : Platform) where
  resolve_clean-IsConfined :
      (username clean_path : String) (w w' : World P) (op : String)
      → Stays username
      → Stays clean_path
      → starts_with clean_path "/System/System" ≡ false
      → starts_with clean_path "/Trash/Trash" ≡ false
      → resolve_clean P username clean_path w ≡ (ok op, w')
      → IsConfined op
  unfolding resolve_clean stays_test
  resolve_clean-IsConfined username p w w' op hu h once_s once_t e =
      elim (Bool-cases (starts_with p "/AppData/")) [
        | inl a ↦
            resolve_app_data-IsConfined P username (path_parts p) w w' op (path_parts-IsPart p h)
              (ground arith)
        | inr a ↦ elim (Bool-cases (p =s= "/AppData")) [
          | inl b ↦
              let same : "vol1/AppData" ≡ op = ground arith in
              rw (← same) ("AppData", refl, stays_test_sound "vol1/AppData" refl)
          | inr b ↦ elim (Bool-cases (starts_with p "/System/" || p =s= "/System")) [
            | inl c ↦
                let same : resolve_system p ≡ op = ground arith in
                rw (← same) (resolve_system-IsConfined p h c once_s)
            | inr c ↦ elim (Bool-cases (starts_with p "/Trash/" || p =s= "/Trash")) [
              | inl d ↦ resolve_trash-IsConfined P username p w w' op hu h d once_t (ground arith)
              | inr d ↦ elim (Bool-cases (starts_with p "/User/")) [
                | inl u ↦
                    resolve_user-IsConfined P (path_parts p) w w' op (path_parts-IsPart p h)
                      (ground arith)
                | inr u ↦
                    let same : resolve_own username p ≡ op = ground arith in
                    rw (← same) (resolve_own-IsConfined username p hu h)
              ]
            ]
          ]
        ]
      ]

  -- A path that resolves lies below `vol1`, and no part of the result is "..", whatever the virtual
  -- path holds, if no part of the user's name is ".." and the normalised path does not begin with
  -- "/System/System" or "/Trash/Trash".
  pub resolve_opendal_path-IsConfined :
      (username virtual_path : String) (w w' : World P) (op : String)
      → Stays username
      → starts_with (normalize_path virtual_path) "/System/System" ≡ false
      → starts_with (normalize_path virtual_path) "/Trash/Trash" ≡ false
      → resolve_opendal_path P username virtual_path w ≡ (ok op, w')
      → IsConfined op
  unfolding resolve_opendal_path
  resolve_opendal_path-IsConfined username virtual_path w w' op hu once_s once_t e =
      resolve_clean-IsConfined username (normalize_path virtual_path) w w' op hu
        (normalize_path-Stays virtual_path) once_s once_t e
