-- ===== src/Base/Text/Found.antt =====
-- What the searches in a text find.
use text.Mathlib.TextLemmas.{nil-append, cons-append}
use Prim.Native.Char.{Char, code}
use Prim.Native.String.{String}
use mathlib.Core.Path.{◌≡◌, refl}
use mathlib.Core.Logic.{◌≢◌, inl, inr}
use text.Mathlib.TextEquality.{Char-path}
use mathlib.Core.Bool.{false}
use mathlib.Core.Option.{none, some}
use native.Mathlib.Omega.{arith}
use nasserver.Base.Tests.{==_iff, Option-cases}
use nasserver.Base.Text.{◌<>◌, strip_prefix}
use nasserver.Base.Text.Prefix.{strip_prefix-append}
use nasserver.Base.Text.Laws.{Lacks}
use nasserver.Base.Text.Space.{is_whitespace, word}
use nasserver.Base.Text.Search.{split_once, rsplit_once}

split_once-here :
    (c : Char) (p s r : String)
    → strip_prefix (String.◌∷◌ c s) p ≡ some r
    → split_once p (String.◌∷◌ c s) ≡ some ("", r)
unfolding split_once
split_once-here c p s r h = rw (h, split_once) refl

split_once-later :
    (c : Char) (p s a b : String)
    → strip_prefix (String.◌∷◌ c s) p ≡ none
    → split_once p s ≡ some (a, b)
    → split_once p (String.◌∷◌ c s) ≡ some (String.◌∷◌ c a, b)
unfolding split_once
split_once-later c p s a b h k = rw (h, k, split_once) refl

strip_prefix-differs :
    (c d : Char) (s p : String)
    → code d ≢ code c
    → strip_prefix (String.◌∷◌ d s) (String.◌∷◌ c p) ≡ none
unfolding strip_prefix
strip_prefix-differs c d s p h = ground (arith, ==_iff (code d) (code c))

-- The first occurrence of a text is the one behind characters that cannot start it.
pub split_once-append :
    (c : Char) (p s t : String)
    → Lacks (code c) s
    → split_once (String.◌∷◌ c p) (s <> (String.◌∷◌ c p <> t)) ≡ some (s, t)
split_once-append c p String.[] t h =
    let here = strip_prefix-append (String.◌∷◌ c p) t in
    rw (nil-append, cons-append)
      (split_once-here c (String.◌∷◌ c p) (p <> t) t (rw cons-append at here))
split_once-append c p (String.◌∷◌ d s) t (k, h) = rw cons-append (
    split_once-later d (String.◌∷◌ c p) (s <> (String.◌∷◌ c p <> t)) s t
      (strip_prefix-differs c d (s <> (String.◌∷◌ c p <> t)) p k) (split_once-append c p s t h))

-- No character of the text is white space.
abbrev pub IsWord : String → Type 0
IsWord String.[] = Unit
IsWord (String.◌∷◌ c s) = (is_whitespace c ≡ false) × IsWord s

pub word-append : (s t : String) → IsWord s → word t ≡ "" → word (s <> t) ≡ s
unfolding word
word-append String.[] t h k = rw nil-append k
word-append (String.◌∷◌ c s) t (p, h) k = rw (cons-append, word-append s t h k) (rw p refl)

-- The last occurrence of a character, with the texts around it, makes the text.
pub rsplit_once_sound :
    (ch : Char) (s : String) {a b : String}
    → rsplit_once (code ch) s ≡ some (a, b)
    → s ≡ a <> (String.◌∷◌ ch b)
unfolding rsplit_once
rsplit_once_sound ch String.[] e = cc
rsplit_once_sound ch (String.◌∷◌ c s) {a} {b} e = elim (Option-cases (rsplit_once (code ch) s)) [
  | inl none_later ↦
      ground (arith, Char-path c ch, ==_iff (code c) (code ch), nil-append (String.◌∷◌ ch s))
  | inr (found, later) ↦ ground (
    arith,
    cons-append c found.0 (String.◌∷◌ ch found.1),
    rsplit_once_sound ch s {a = found.0} {b = found.1},
  )
]
