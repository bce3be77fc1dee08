-- ===== src/Storage/Paths/Laws.antt =====
-- What `normalize_path` guarantees to the rest of the service.
use text.Mathlib.TextLemmas.{nil-append, cons-append}
use nasserver.Base.{
  ℕ, String, ◌≡◌, refl, ap, ◌≢◌, Bool, true, false, not, List, [], ◌∷◌, keep, All, All-keep, arith,
  none, some,
}
use nasserver.Base.Text.{◌<>◌, eq_iff, is_empty, strip_prefix, split, join, replace_char}
use nasserver.Base.Text.Laws.{
  Lacks, Lacks-append, split-Lacks, split-Lacks_of, split-join, replace_char-Lacks,
  replace_char_of_Lacks, join-nil,
}
use nasserver.Base.Text.Prefix.{strip_prefix-append}
use nasserver.Storage.Paths.{slash, is_kept, normal_parts, normalize_path, path_parts}

-- A part that can be joined to a directory's name and stays in the directory.
abbrev pub IsSafe : String → Type 0
IsSafe x = (x ≢ "") × (x ≢ ".") × (x ≢ "..") × Lacks b'/' x

-- A safe part with no backslash.
abbrev pub IsPlain : String → Type 0
IsPlain x = IsSafe x × Lacks b'\\' x

pub is_empty-false : (x : String) → is_empty x ≡ false → x ≢ ""
is_empty-false String.[] h = cc
is_empty-false (String.◌∷◌ c s) h = λ e. cc

pub is_empty_of_ne : (x : String) → x ≢ "" → is_empty x ≡ false
is_empty_of_ne String.[] h = absurd (h refl)
is_empty_of_ne (String.◌∷◌ c s) h = refl

pub All-map :
    (P Q : String → Type 0) (xs : List String) → ((x : String) → P x → Q x) → All P xs → All Q xs
All-map P Q [] f h = tt
All-map P Q (x ∷ xs) f (p, h) = (f x p, All-map P Q xs f h)

pub All-map2 :
    (P Q R : String → Type 0) (xs : List String)
    → ((x : String) → P x → Q x → R x)
    → All P xs
    → All Q xs
    → All R xs
All-map2 P Q R [] f h k = tt
All-map2 P Q R (x ∷ xs) f (p, h) (q, k) = (f x p q, All-map2 P Q R xs f h k)

-- A filter leaves a predicate on all elements alone.
pub keep-All :
    (P : String → Type 0) (p : String → Bool) (xs : List String) → All P xs → All P (keep p xs)
keep-All P p [] h = tt
keep-All P p (x ∷ xs) (q, h) = ground (arith, keep-All P p xs h)

pub keep_of_All : (p : String → Bool) (xs : List String) → All (λ x. p x ≡ true) xs → keep p xs ≡ xs
keep_of_All p [] h = refl
keep_of_All p (x ∷ xs) (q, h) = rw q (rw (keep_of_All p xs h))

pub is_kept_sound : (x : String) → is_kept x ≡ true → (x ≢ "") × (x ≢ ".") × (x ≢ "..")
unfolding is_kept
is_kept_sound x h =
    (is_empty-false x (ground arith), ground (arith, eq_iff x "."), ground (arith, eq_iff x ".."))

is_kept_of_IsPlain : (x : String) → IsPlain x → is_kept x ≡ true
unfolding is_kept
is_kept_of_IsPlain x ((a, b, c, d), e) =
    ground (arith, is_empty_of_ne x a, eq_iff x ".", eq_iff x "..")

pub Lacks-join :
    (ch : ℕ) (sep : String) (xs : List String)
    → Lacks ch sep
    → All (Lacks ch) xs
    → Lacks ch (join sep xs)
unfolding join
Lacks-join ch sep [] k h = tt
Lacks-join ch sep (x ∷ []) k h = h.0
Lacks-join ch sep (x ∷ y ∷ xs) k h =
    Lacks-append ch x (sep <> join sep (y ∷ xs)) h.0
      (Lacks-append ch sep (join sep (y ∷ xs)) k (Lacks-join ch sep (y ∷ xs) k h.1))

pub normal_parts-IsPlain : (p : String) → All IsPlain (normal_parts p)
unfolding normal_parts
normal_parts-IsPlain p =
    let s : String = elim (strip_prefix p "/") [ none ↦ p | some rest ↦ rest ] in
    let t = replace_char b'\\' slash s in
    let raw = split b'/' t in
    let kept : All (λ x. (x ≢ "") × (x ≢ ".") × (x ≢ "..")) (keep is_kept raw) =
      All-keep _ is_kept raw is_kept_sound in
    let no_slash = keep-All (Lacks b'/') is_kept raw (split-Lacks b'/' t) in
    let no_back =
      keep-All (Lacks b'\\') is_kept raw
        (split-Lacks_of b'/' b'\\' t (replace_char-Lacks b'\\' slash s (omega arith))) in
    All-map2 IsSafe (Lacks b'\\') IsPlain (keep is_kept raw) (λ x a b. (a, b))
      (All-map2 (λ x. (x ≢ "") × (x ≢ ".") × (x ≢ "..")) (Lacks b'/') IsSafe (keep is_kept raw)
        (λ x a b. (a.0, a.1, a.2, b)) kept no_slash)
      no_back

-- Splitting at slashes gives the joined parts back, also where there are none.
pub path_parts-join : (xs : List String) → All IsSafe xs → path_parts ("/" <> join "/" xs) ≡ xs
unfolding path_parts
path_parts-join [] h = rw (join-nil "/") refl
path_parts-join (x ∷ xs) h =
    rw (cons-append, nil-append)
      (rw (split-join slash x xs (All-map _ _ (x ∷ xs) (λ y q. q.3) h)) (
        keep_of_All _ (x ∷ xs)
          (All-map IsSafe _ (x ∷ xs) (λ y q. ap not (is_empty_of_ne y q.0)) h)))

-- The parts of a normalised path are those that were kept.
pub path_parts-normalize_path : (p : String) → path_parts (normalize_path p) ≡ normal_parts p
unfolding normalize_path
path_parts-normalize_path p =
    path_parts-join (normal_parts p)
      (All-map IsPlain IsSafe (normal_parts p) (λ x q. q.0) (normal_parts-IsPlain p))

pub normal_parts_of_IsPlain :
    (xs : List String) → All IsPlain xs → normal_parts ("/" <> join "/" xs) ≡ xs
unfolding normal_parts
normal_parts_of_IsPlain [] h = rw (join-nil "/") refl
normal_parts_of_IsPlain (x ∷ xs) h = rw (strip_prefix-append "/" (join "/" (x ∷ xs))) (
    rw
      (replace_char_of_Lacks b'\\' slash (join "/" (x ∷ xs)) (
        Lacks-join b'\\' "/" (x ∷ xs) (omega arith, tt)
          (All-map IsPlain _ (x ∷ xs) (λ y q. q.1) h)))
      (rw (split-join slash x xs (All-map IsPlain _ (x ∷ xs) (λ y q. q.0.3) h))
        (keep_of_All is_kept (x ∷ xs) (All-map IsPlain _ (x ∷ xs) is_kept_of_IsPlain h))))

pub normal_parts-normalize_path : (p : String) → normal_parts (normalize_path p) ≡ normal_parts p
unfolding normalize_path
normal_parts-normalize_path p = normal_parts_of_IsPlain (normal_parts p) (normal_parts-IsPlain p)

-- Every part of a normalised path is non-empty, is neither "." nor "..", and holds no slash and no
-- backslash.
pub normalize_path-IsPlain : (p : String) → All IsPlain (path_parts (normalize_path p))
normalize_path-IsPlain p = rw path_parts-normalize_path (normal_parts-IsPlain p)

-- Normalising a path a second time changes nothing.
pub normalize_path_idem : (p : String) → normalize_path (normalize_path p) ≡ normalize_path p
unfolding normalize_path
normalize_path_idem p =
    ap (λ xs. "/" <> join "/" xs) (normal_parts_of_IsPlain _ (normal_parts-IsPlain p))
