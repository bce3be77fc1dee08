-- ===== src/Base/Text/Prefix.antt =====
-- Prefixes of texts.
use Prim.Native.Nat.{ℕ, zero, suc, ◌+◌}
use Prim.Native.Char.{Char, code}
use Prim.Native.String.{String, count}
use mathlib.Core.Path.{◌≡◌, refl, ◌∙◌}
use mathlib.Core.Logic.{inl, inr}
use mathlib.Core.Bool.{true, false}
use mathlib.Core.Option.{none, some}
use native.Mathlib.Omega.{arith}
use text.Mathlib.TextLemmas.{nil-append, cons-append, length-append, length-cons, append_assoc}
use text.Mathlib.TextEquality.{Char-path}
use nasserver.Base.Tests.{==_iff, Option-cases, Bool-cases}
use nasserver.Base.Text.{◌<>◌, strip_prefix, starts_with, trim_rounds, trim_start_matches}

pub strip_prefix-append : (p s : String) → strip_prefix (p <> s) p ≡ some s
unfolding strip_prefix
strip_prefix-append String.[] s = rw nil-append refl
strip_prefix-append (String.◌∷◌ c p) s = rw cons-append (ground (arith, strip_prefix-append p s))

-- What is left after a prefix is stripped follows it.
pub strip_prefix_sound : (s p : String) {r : String} → strip_prefix s p ≡ some r → s ≡ p <> r
unfolding strip_prefix
strip_prefix_sound s String.[] e = rw nil-append (ground arith)
strip_prefix_sound String.[] (String.◌∷◌ d p) e = cc
strip_prefix_sound (String.◌∷◌ c s) (String.◌∷◌ d p) {r} e =
    rw cons-append
      (ground (arith, strip_prefix_sound s p {r = r}, Char-path c d, ==_iff (code c) (code d)))

pub starts_with-append : (p s : String) → starts_with (p <> s) p ≡ true
unfolding starts_with
starts_with-append p s = rw (strip_prefix-append p s, starts_with) refl

-- A text that starts with another is that text with something behind it.
pub starts_with_sound : (s p : String) → starts_with s p ≡ true → (r : String) × (s ≡ p <> r)
unfolding starts_with
starts_with_sound s p h = elim (Option-cases (strip_prefix s p)) [
  | inl e ↦ absurd (cc (rw (e, starts_with) at h))
  | inr (r, e) ↦ (r, strip_prefix_sound s p e)
]

pub strip_prefix-none : (s p : String) → starts_with s p ≡ false → strip_prefix s p ≡ none
unfolding starts_with
strip_prefix-none s p h = ground arith

trim_rounds-none : (n : ℕ) (s p : String) → strip_prefix s p ≡ none → trim_rounds n s p ≡ s
unfolding trim_rounds
trim_rounds-none zero s p h = refl
trim_rounds-none (suc n) s p h = rw (h, trim_rounds) refl

-- A prefix that stands there once is trimmed once.
pub trim_start_matches_once :
    (c : Char) (p s : String)
    → strip_prefix s (String.◌∷◌ c p) ≡ none
    → trim_start_matches (String.◌∷◌ c p <> s) (String.◌∷◌ c p) ≡ s
unfolding trim_start_matches
trim_start_matches_once c p s h =
    let size : count (String.◌∷◌ c p <> s) ≡ suc (count p + count s) =
      length-append (String.◌∷◌ c p) s ∙ omega (arith, length-cons c p) in
    rw size (
      rw (strip_prefix-append (String.◌∷◌ c p) s, trim_rounds)
        (trim_rounds-none (count p + count s) s (String.◌∷◌ c p) h))

-- The same, where the text does not start with the prefix twice.
pub trim_start_matches-append :
    (c : Char) (p s : String)
    → starts_with (String.◌∷◌ c p <> s) (String.◌∷◌ c p <> String.◌∷◌ c p) ≡ false
    → trim_start_matches (String.◌∷◌ c p <> s) (String.◌∷◌ c p) ≡ s
trim_start_matches-append c p s h =
    let q = String.◌∷◌ c p in
    elim (Bool-cases (starts_with s q)) [
      | inl twice ↦
          let (r, e) = starts_with_sound s q twice in
          let again : starts_with (q <> s) (q <> q) ≡ true =
            rw (e, ← append_assoc q q r) (starts_with-append (q <> q) r) in
          absurd (cc)
      | inr once ↦ trim_start_matches_once c p s (strip_prefix-none s q once)
    ]

-- A prefix that stands there twice is trimmed twice.
pub trim_start_matches_twice :
    (c : Char) (p s : String)
    → strip_prefix s (String.◌∷◌ c p) ≡ none
    → trim_start_matches (String.◌∷◌ c p <> (String.◌∷◌ c p <> s)) (String.◌∷◌ c p) ≡ s
unfolding trim_start_matches
trim_start_matches_twice c p s h =
    let q = String.◌∷◌ c p in
    let k = count p + count p + count s in
    let size : count (q <> (q <> s)) ≡ suc (suc k) =
      length-append q (q <> s) ∙ omega (arith, length-cons c p, length-append q s) in
    rw size (
      rw (strip_prefix-append q (q <> s), trim_rounds)
        (rw (strip_prefix-append q s, trim_rounds) (trim_rounds-none k s q h)))
