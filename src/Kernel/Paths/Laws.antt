-- ===== src/Kernel/Paths/Laws.antt =====
-- What `resolve_path` of crates/kernel/src/service.rs guarantees.
use mathlib.Core.List.{append_assoc, append-nil}
use text.Mathlib.TextLemmas.{nil-append, cons-append}
use nasserver.Base.{
  ap, ◌∙◌, String, ◌≡◌, refl, sym, ◌≢◌, false, ◌||◌, List, [], ◌∷◌, ◌++◌, All, All-append, arith,
  Bool-cases, inl, inr,
}
use nasserver.Base.Text.{◌<>◌, ◌=s=◌, eq_iff, is_empty, starts_with, split, join}
use nasserver.Base.Text.Space.{trim}
use nasserver.Base.Text.Laws.{Lacks, split-Lacks, split-append, split-join, join-nil}
use nasserver.Storage.Paths.{but_last, slash}
use nasserver.Storage.Paths.Laws.{IsSafe, All-map}
use nasserver.Kernel.Paths.{next_parts, walk, full_path, normalized, resolve_path}

All-but_last : (xs : List String) → All IsSafe xs → All IsSafe (but_last xs)
unfolding but_last
All-but_last [] h = tt
All-but_last (x ∷ []) h = tt
All-but_last (x ∷ y ∷ xs) (p, h) = (p, All-but_last (y ∷ xs) h)

is_empty-ne : (x : String) → is_empty x ≡ false → x ≢ ""
is_empty-ne String.[] h = cc
is_empty-ne (String.◌∷◌ c s) h = λ e. cc

kept-IsSafe :
    (x : String)
    → (is_empty x || x =s= ".") ≡ false
    → (x =s= "..") ≡ false
    → Lacks b'/' x
    → IsSafe x
kept-IsSafe x h k l =
    (is_empty-ne x (ground arith), ground (arith, eq_iff x "."), ground (arith, eq_iff x ".."), l)

next_parts-IsSafe :
    (parts : List String) (x : String)
    → All IsSafe parts
    → Lacks b'/' x
    → All IsSafe (next_parts parts x)
unfolding next_parts
next_parts-IsSafe parts x h l = elim (Bool-cases (is_empty x || x =s= ".")) [
  | inl e ↦ rw (e, next_parts) h
  | inr e ↦ elim (Bool-cases (x =s= "..")) [
    | inl up ↦ rw (e, next_parts) (rw up (All-but_last parts h))
    | inr down ↦
        rw (e, next_parts)
          (rw down (All-append IsSafe parts (x ∷ []) h (kept-IsSafe x e down l, tt)))
  ]
]

walk-IsSafe :
    (parts xs : List String) → All IsSafe parts → All (Lacks b'/') xs → All IsSafe (walk parts xs)
unfolding walk
walk-IsSafe parts [] h k = h
walk-IsSafe parts (x ∷ xs) h (l, k) =
    walk-IsSafe (next_parts parts x) xs (next_parts-IsSafe parts x h l) k

-- An absolute path of safe parts.
abbrev pub IsNormal : String → Type 0
IsNormal path = (xs : List String) × (path ≡ "/" <> join "/" xs) × All IsSafe xs

normalized-IsNormal : (path : String) → IsNormal (normalized path)
unfolding normalized
normalized-IsNormal path =
    (walk [] (split b'/' path), refl, walk-IsSafe [] (split b'/' path) tt (split-Lacks b'/' path))

-- From a normal working directory every path resolves to a normal one: it is absolute, and no part
-- of it is empty, "." or "..".
pub resolve_path-IsNormal :
    (cwd user path : String) → IsNormal cwd → IsNormal (resolve_path cwd user path)
unfolding resolve_path
resolve_path-IsNormal cwd user path h = elim (Bool-cases (is_empty (trim path))) [
  | inl e ↦ rw e h
  | inr e ↦ rw e (normalized-IsNormal (full_path cwd user (trim path)))
]

-- The loop over two lists of parts, one after the other.
pub walk-append : (parts xs ys : List String) → walk parts (xs ++ ys) ≡ walk (walk parts xs) ys
unfolding walk
walk-append parts [] ys = refl
walk-append parts (x ∷ xs) ys = walk-append (next_parts parts x) xs ys

-- The parts that a path comes to.
abbrev pub reached : String → List String
reached path = walk [] (split b'/' path)

split-slash : (a b : String) → split b'/' (a <> ("/" <> b)) ≡ split b'/' a ++ split b'/' b
split-slash a b = rw (cons-append, nil-append, split-append slash a b) refl

reached-append : (a b : String) → reached (a <> ("/" <> b)) ≡ walk (reached a) (split b'/' b)
reached-append a b = rw (split-slash a b) (walk-append [] (split b'/' a) (split b'/' b))

next_parts_safe :
    (parts : List String) (x : String) → IsSafe x → next_parts parts x ≡ parts ++ (x ∷ [])
unfolding next_parts
next_parts_safe parts x (h, i, j, _) = ground (arith, eq_iff x "", eq_iff x ".", eq_iff x "..")

pub walk_safe : (parts xs : List String) → All IsSafe xs → walk parts xs ≡ parts ++ xs
unfolding walk
walk_safe parts [] h = sym (append-nil parts)
walk_safe parts (x ∷ xs) (p, h) =
    ap (λ ys. walk ys xs) (next_parts_safe parts x p)
    ∙ (walk_safe (parts ++ (x ∷ [])) xs h ∙ append_assoc parts (x ∷ []) xs)

reached-rooted : (b : String) → reached ("/" <> b) ≡ reached b
unfolding walk next_parts split
reached-rooted b = rw (sym (nil-append ("/" <> b))) (reached-append "" b)

pub reached_normal : (xs : List String) → All IsSafe xs → reached ("/" <> join "/" xs) ≡ xs
unfolding walk next_parts split
reached_normal [] h = rw (join-nil "/") refl
reached_normal (x ∷ xs) h =
    rw
      (
        reached-rooted (join "/" (x ∷ xs)),
        split-join slash x xs (All-map IsSafe (Lacks b'/') (x ∷ xs) (λ y p. p.3) h),
      )
      (walk_safe [] (x ∷ xs) h)

-- A path that is read from the working directory: it has no space around it, and does not begin at
-- the root or at the user's home.
abbrev pub IsRelative : String → Type 0
IsRelative p =
    (trim p ≡ p)
    × (is_empty p ≡ false)
    × (starts_with p "/" ≡ false)
    × ((p =s= "~") ≡ false)
    × (starts_with p "~/" ≡ false)

reached-full_path :
    (cwd user p : String)
    → IsRelative p
    → reached (full_path cwd user p) ≡ walk (reached cwd) (split b'/' p)
unfolding full_path walk next_parts split
reached-full_path cwd user p (_, _, h, k, l) = elim (Bool-cases (cwd =s= "/")) [
  | inl e ↦
      let root : cwd ≡ "/" = ground (arith, eq_iff cwd "/") in
      rw (h, k, l, e, reached-rooted p) (rw root refl)
  | inr e ↦ rw (h, k, l, e) (reached-append cwd p)
]

pub resolve_path_relative :
    (cwd user p : String)
    → IsRelative p
    → resolve_path cwd user p ≡ "/" <> join "/" (walk (reached cwd) (split b'/' p))
unfolding resolve_path normalized
resolve_path_relative cwd user p h = rw (h.0, h.1, reached-full_path cwd user p h) refl

-- Resolving a relative path and, from there, a second one, is resolving the two joined by a slash.
pub resolve_path-resolve_path :
    (cwd user p q : String)
    → IsRelative p
    → IsRelative q
    → IsRelative (p <> ("/" <> q))
    → resolve_path (resolve_path cwd user p) user q ≡ resolve_path cwd user (p <> ("/" <> q))
resolve_path-resolve_path cwd user p q h k l =
    rw (resolve_path_relative cwd user p h, resolve_path_relative cwd user (p <> ("/" <> q)) l)
      (rw (resolve_path_relative ("/" <> join "/" (walk (reached cwd) (split b'/' p))) user q k) (
        rw
          (reached_normal (walk (reached cwd) (split b'/' p)) (
            walk-IsSafe (reached cwd) (split b'/' p)
              (walk-IsSafe [] (split b'/' cwd) tt (split-Lacks b'/' cwd)) (split-Lacks b'/' p)))
          (rw (split-slash p q)
            (rw (walk-append (reached cwd) (split b'/' p) (split b'/' q)) refl))))
