-- ===== src/Container/HostPaths/Confined.antt =====
-- The directories that `resolve_physical_path` stays in.
use nasserver.Base.{
  String, code, ==_iff, ◌≡◌, ◌≢◌, refl, false, ◌||◌, Option, List, [], ◌∷◌, keep, All, All-keep,
  All-drop, drop, length, ltb, arith, Bool-cases, inl, inr, ◌⊎◌,
}
use nasserver.Base.StdPath.{path_join}
use nasserver.Base.StdPath.Prefixes.{
  Extends, Extends-refl, Extends-path_join, path_starts_with_of_Extends,
}
use nasserver.Base.Text.{◌<>◌, ◌=s=◌, starts_with, join, replace_char, split}
use nasserver.Base.Text.Prefix.{strip_prefix-append}
use nasserver.Domain.{ok}
use nasserver.Base.Text.Laws.{Lacks, split-Lacks}
use text.Mathlib.TextLemmas.{cons-append}
use nasserver.Storage.Paths.{is_kept, slash}
use nasserver.Storage.Paths.Laws.{IsSafe, path_parts-join, All-map2, keep-All, is_kept_sound}
use nasserver.Container.HostPaths.{
  clean_parts, normalize_path, name_of, app_data_root, user_home, app_data_path, user_path,
  physical_path, resolve_physical_path,
}

-- The directory, or what is reached from it by safe parts.
abbrev pub IsInside : String → String → Type 0
IsInside dir p =
    (p ≡ dir) ⊎ ((parts : List String) × All IsSafe parts × (p ≡ path_join dir (join "/" parts)))

clean_parts-IsSafe : (p : String) → All IsSafe (clean_parts p)
unfolding clean_parts
clean_parts-IsSafe p =
    let raw = split b'/' (replace_char b'\\' slash p) in
    All-map2 (λ x. (x ≢ "") × (x ≢ ".") × (x ≢ "..")) (Lacks b'/') IsSafe (keep is_kept raw)
      (λ x a b. (a.0, a.1, a.2, b)) (All-keep _ is_kept raw is_kept_sound)
      (keep-All (Lacks b'/') is_kept raw (split-Lacks b'/' (replace_char b'\\' slash p)))

relative : (x : String) → x ≢ "" → Lacks b'/' x → starts_with x "/" ≡ false
unfolding starts_with
relative String.[] h k = refl
relative (String.◌∷◌ c s) h (k, _) = ground (arith, ==_iff (code c) b'/')

relative-append : (x s : String) → x ≢ "" → Lacks b'/' x → starts_with (x <> s) "/" ≡ false
unfolding starts_with
relative-append String.[] s h k = absurd (h refl)
relative-append (String.◌∷◌ c x) s h (k, _) = rw cons-append (ground (arith, ==_iff (code c) b'/'))

-- Safe parts start with no slash.
join-relative : (parts : List String) → All IsSafe parts → starts_with (join "/" parts) "/" ≡ false
unfolding join starts_with
join-relative [] h = refl
join-relative (x ∷ []) (p, _) = relative x p.0 p.3
join-relative (x ∷ y ∷ xs) (p, _) = relative-append x ("/" <> join "/" (y ∷ xs)) p.0 p.3

app_data-Extends : (s : String) → Extends s (app_data_root s)
unfolding starts_with
app_data-Extends s =
    Extends-path_join s _ "AppData" refl (Extends-path_join s s "vol1" refl (Extends-refl s))

user_home-Extends : (s name : String) → starts_with name "/" ≡ false → Extends s (user_home s name)
unfolding starts_with
user_home-Extends s name h =
    Extends-path_join s _ name h
      (Extends-path_join s _ "User" refl (Extends-path_join s s "vol1" refl (Extends-refl s)))

-- What is inside a directory below the storage root is below it.
IsInside-Extends : (s dir p : String) → Extends s dir → IsInside dir p → Extends s p
IsInside-Extends s dir p e (inl k) = rw k e
IsInside-Extends s dir p e (inr (parts, h, k)) =
    rw k (Extends-path_join s dir (join "/" parts) (join-relative parts h) e)

app_data_path-IsInside :
    (s virtual_path : String)
    → IsInside (app_data_root s) (app_data_path s (normalize_path virtual_path))
unfolding app_data_path normalize_path
app_data_path-IsInside s v =
    rw (path_parts-join (clean_parts v) (clean_parts-IsSafe v))
      (elim (Bool-cases (ltb 1 (length (clean_parts v)))) [
        | inl e ↦ rw e (
            inr (
              drop 1 (clean_parts v),
              All-drop IsSafe 1 (clean_parts v) (clean_parts-IsSafe v),
              refl,
            ))
        | inr e ↦ rw e (inl refl)
      ])

user_path-IsInside :
    (s : String) (username : Option String) (virtual_path : String)
    → IsInside (user_home s (name_of username)) (user_path s username (normalize_path virtual_path))
unfolding user_path normalize_path
user_path-IsInside s username v =
    rw (strip_prefix-append "/" (join "/" (clean_parts v)))
      (inr (clean_parts v, clean_parts-IsSafe v, refl))

-- A path resolves to one below the own directory or below vol1/AppData, and is never refused, if the
-- name of the user starts with no slash.
pub resolve_physical_path-IsInside :
    (storage_path : String) (username : Option String) (virtual_path : String)
    → starts_with (name_of username) "/" ≡ false
    → (p : String) × (resolve_physical_path storage_path username virtual_path ≡ ok p)
      × (IsInside (user_home storage_path (name_of username)) p
          ⊎ IsInside (app_data_root storage_path) p)
unfolding resolve_physical_path physical_path
resolve_physical_path-IsInside storage_path username virtual_path h =
    elim (Bool-cases (
      starts_with (normalize_path virtual_path) "/AppData/"
      || normalize_path virtual_path =s= "/AppData")) [
        | inl app ↦
            let p = app_data_path storage_path (normalize_path virtual_path) in
            let inside = app_data_path-IsInside storage_path virtual_path in
            let e =
              IsInside-Extends storage_path (app_data_root storage_path) p
                (app_data-Extends storage_path) inside in
            (p, rw app (rw (path_starts_with_of_Extends storage_path p e) refl), inr inside)
        | inr own ↦
            let p = user_path storage_path username (normalize_path virtual_path) in
            let home = user_home storage_path (name_of username) in
            let inside = user_path-IsInside storage_path username virtual_path in
            let e =
              IsInside-Extends storage_path home p
                (user_home-Extends storage_path (name_of username) h) inside in
            (p, rw own (rw (path_starts_with_of_Extends storage_path p e) refl), inl inside)
      ]
