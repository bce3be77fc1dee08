-- ===== src/Base/StdPath/Prefixes.antt =====
-- A path that is joined to a directory lies below it, as far as `components` tell.
use text.Mathlib.TextLemmas.{nil-append, cons-append, append_assoc}
use mathlib.Core.List.{append-nil, append_assoc as list_assoc}
use nasserver.Base.{
  String, Char, code, ◌≡◌, refl, sym, ap, ◌∙◌, ◌≢◌, Bool, true, false, List, [], ◌∷◌, ◌++◌, keep,
  arith, ◌==◌, Bool-cases, inl, inr,
}
use text.Mathlib.TextEquality.{Char-path}
use nasserver.Base.Text.{◌<>◌, eq_iff, is_empty, starts_with, ends_with_char, split}
use nasserver.Base.Text.Laws.{split-append, split-ne-nil}
use nasserver.Base.StdPath.{
  path_join, is_component, leading, components, has_prefix, path_starts_with,
}

keep-append : (p : String → Bool) (xs ys : List String) → keep p (xs ++ ys) ≡ keep p xs ++ keep p ys
keep-append p [] ys = refl
keep-append p (x ∷ xs) ys = ground (arith, keep-append p xs ys)

has_prefix-append : (xs ys : List String) → has_prefix (xs ++ ys) xs ≡ true
unfolding has_prefix
has_prefix-append [] ys = refl
has_prefix-append (x ∷ xs) ys = ground (arith, eq_iff x x, has_prefix-append xs ys)

-- With two parts or more, the first one decides what leads.
leading-append :
    (xs ys zs : List String) → xs ≢ [] → ys ≢ [] → zs ≢ [] → leading (xs ++ ys) ≡ leading (xs ++ zs)
unfolding leading
leading-append [] ys zs h k l = absurd (h refl)
leading-append (x ∷ []) [] zs h k l = absurd (k refl)
leading-append (x ∷ []) (y ∷ ys) [] h k l = absurd (l refl)
leading-append (x ∷ []) (y ∷ ys) (z ∷ zs) h k l = refl
leading-append (x ∷ w ∷ xs) ys zs h k l = refl

-- The only part of a text that is not empty is not empty.
single-part :
    (c : Char) (s x : String) (rest : List String)
    → split b'/' s ≡ rest
    → split b'/' (String.◌∷◌ c s) ≡ x ∷ []
    → is_empty x ≡ false
unfolding split
single-part c s x [] e h = absurd (split-ne-nil b'/' s e)
single-part c s x (y ∷ ys) e h = elim (Bool-cases (code c == b'/')) [
  | inl t ↦ absurd (ground arith)
  | inr f ↦ ground arith
]

leading-more :
    (c : Char) (s : String) (xs ys : List String)
    → split b'/' (String.◌∷◌ c s) ≡ xs
    → leading (xs ++ ys) ≡ leading xs
unfolding leading
leading-more c s [] ys h = absurd (split-ne-nil b'/' (String.◌∷◌ c s) h)
leading-more c s (x ∷ []) [] h = refl
leading-more c s (x ∷ []) (y ∷ ys) h = ground (arith, single-part c s x (split b'/' s) refl h)
leading-more c s (x ∷ w ∷ xs) ys h = refl

split_slash : (s t : String) → split b'/' (s <> ("/" <> t)) ≡ split b'/' s ++ split b'/' t
split_slash s t = rw (cons-append "/" "" t, nil-append) (split-append "/" s t)

-- A text that ends with a slash, without it.
without_slash : (s : String) → ends_with_char b'/' s ≡ true → (t : String) × (s ≡ t <> "/")
unfolding ends_with_char
without_slash String.[] h = absurd (ground arith)
without_slash (String.◌∷◌ c String.[]) h =
    ("", ap (λ d. String.◌∷◌ d "") (Char-path c "/" (ground arith)))
without_slash (String.◌∷◌ c (String.◌∷◌ d s)) h =
    let (t, e) = without_slash (String.◌∷◌ d s) h in
    (String.◌∷◌ c t, rw cons-append (ap (String.◌∷◌ c) e))

below_name :
    (c : Char) (s part : String)
    → components (String.◌∷◌ c s <> ("/" <> part))
      ≡ components (String.◌∷◌ c s) ++ keep is_component (split b'/' part)
unfolding components
below_name c s part =
    let xs = split b'/' (String.◌∷◌ c s) in
    rw (split_slash (String.◌∷◌ c s) part) (
      rw (leading-more c s xs (split b'/' part) refl, keep-append)
        (sym (list_assoc (leading xs) (keep is_component xs) _)))

keep-last : (xs : List String) → keep is_component (xs ++ ("" ∷ [])) ≡ keep is_component xs
unfolding is_component
keep-last xs = keep-append is_component xs ("" ∷ []) ∙ append-nil (keep is_component xs)

below_slash :
    (t part : String)
    → components (t <> ("/" <> part)) ≡ components (t <> "/") ++ keep is_component (split b'/' part)
unfolding components split
below_slash t part =
    let xs = split b'/' t in
    let e : split b'/' (t <> "/") ≡ xs ++ ("" ∷ []) = split-append "/" t "" in
    rw (split_slash t part, e)
      (rw
        (
          keep-append,
          leading-append xs (split b'/' part) ("" ∷ []) (split-ne-nil b'/' t)
              (split-ne-nil b'/' part) (λ k. cc),
        )
        (rw (sym (keep-last xs)) (
          sym (
            list_assoc (leading (xs ++ ("" ∷ []))) (keep is_component (xs ++ ("" ∷ [])))
              (keep is_component (split b'/' part))))))

components-empty : components "" ≡ []
unfolding components split leading is_component
components-empty = refl

-- The components of a joined path are those of the directory and some more.
pub components-path_join :
    (base part : String)
    → starts_with part "/" ≡ false
    → (more : List String) × (components (path_join base part) ≡ components base ++ more)
unfolding path_join
components-path_join String.[] part h =
    (components part, rw (h, components-empty) (ap components (nil-append part)))
components-path_join (String.◌∷◌ c s) part h =
    elim (Bool-cases (ends_with_char b'/' (String.◌∷◌ c s))) [
      | inr f ↦ (keep is_component (split b'/' part), rw (h, f) (below_name c s part))
      | inl e ↦
          let (t, k) = without_slash (String.◌∷◌ c s) e in
          (
            keep is_component (split b'/' part),
            rw (h, e) (rw k (ap components (append_assoc t "/" part) ∙ below_slash t part)),
          )
    ]

-- The path is the directory or lies below it.
abbrev pub Extends : String → String → Type 0
Extends base p = (more : List String) × (components p ≡ components base ++ more)

pub Extends-refl : (base : String) → Extends base base
Extends-refl base = ([], sym (append-nil (components base)))

pub Extends-path_join :
    (base p part : String)
    → starts_with part "/" ≡ false
    → Extends base p
    → Extends base (path_join p part)
Extends-path_join base p part h (more, e) =
    let (zs, k) = components-path_join p part h in
    (more ++ zs, k ∙ ap (λ xs. xs ++ zs) e ∙ list_assoc (components base) more zs)

pub path_starts_with_of_Extends :
    (base p : String) → Extends base p → path_starts_with p base ≡ true
unfolding path_starts_with
path_starts_with_of_Extends base p (more, e) = rw e (has_prefix-append (components base) more)
