-- ===== src/Base/Text/Laws.antt =====
-- Splitting and joining texts.
use Prim.Native.Nat.{ℕ}
use Prim.Native.Char.{Char, code}
use Prim.Native.String.{String}
use mathlib.Core.Path.{◌≡◌, refl}
use mathlib.Core.Logic.{◌≢◌}
use mathlib.Core.List.{List, [], ◌∷◌, ◌++◌}
use native.Mathlib.Omega.{arith}
use text.Mathlib.TextLemmas.{nil-append, cons-append}
use nasserver.Base.Lists.{All}
use nasserver.Base.Text.{◌<>◌, split, join, push_head, replace_char}

-- No character of the text has the code.
abbrev pub Lacks : ℕ → String → Type 0
Lacks ch String.[] = Unit
Lacks ch (String.◌∷◌ c s) = (code c ≢ ch) × Lacks ch s

pub Lacks-append : (ch : ℕ) (s t : String) → Lacks ch s → Lacks ch t → Lacks ch (s <> t)
Lacks-append ch String.[] t _ k = rw nil-append k
Lacks-append ch (String.◌∷◌ c s) t (p, h) k = rw cons-append (p, Lacks-append ch s t h k)

push_head-Lacks :
    (ch : ℕ) (c : Char) (parts : List String)
    → code c ≢ ch
    → All (Lacks ch) parts
    → All (Lacks ch) (push_head c parts)
push_head-Lacks ch c [] p h = ((p, tt), tt)
push_head-Lacks ch c (x ∷ xs) p h = ((p, h.0), h.1)

-- The parts of a split hold no separator.
pub split-Lacks : (ch : ℕ) (s : String) → All (Lacks ch) (split ch s)
unfolding split
split-Lacks ch String.[] = (tt, tt)
split-Lacks ch (String.◌∷◌ c s) =
    ground (arith, split-Lacks ch s, push_head-Lacks ch c (split ch s))

-- What a text lacks, the parts of a split lack.
pub split-Lacks_of : (ch other : ℕ) (s : String) → Lacks other s → All (Lacks other) (split ch s)
unfolding split
split-Lacks_of ch other String.[] h = (tt, tt)
split-Lacks_of ch other (String.◌∷◌ c s) (p, h) = ground (
  arith,
  split-Lacks_of ch other s h,
  push_head-Lacks other c (split ch s) p (split-Lacks_of ch other s h),
)

pub split-ne-nil : (ch : ℕ) (s : String) → split ch s ≢ []
unfolding split
split-ne-nil ch String.[] = cc
split-ne-nil ch (String.◌∷◌ c s) = ground (arith, push_head-ne-nil c (split ch s))
  where
    push_head-ne-nil : (c : Char) (parts : List String) → push_head c parts ≢ []
    push_head-ne-nil c [] = cc
    push_head-ne-nil c (x ∷ xs) = cc

-- A text without the separator is its own only part.
pub split_of_Lacks : (ch : ℕ) (s : String) → Lacks ch s → split ch s ≡ s ∷ []
unfolding split
split_of_Lacks ch String.[] _ = refl
split_of_Lacks ch (String.◌∷◌ c s) (p, h) = rw (split_of_Lacks ch s h) (ground arith)

push_head-append :
    (c : Char) (xs ys : List String) → xs ≢ [] → push_head c (xs ++ ys) ≡ push_head c xs ++ ys
push_head-append c [] ys h = absurd (h refl)
push_head-append c (x ∷ xs) ys h = refl

-- A split at a separator between two texts: the parts of the one, then those of the other.
pub split-append :
    (sep : Char) (s t : String)
    → split (code sep) (s <> (String.◌∷◌ sep t)) ≡ split (code sep) s ++ split (code sep) t
unfolding split
split-append sep String.[] t = rw nil-append (ground arith)
split-append sep (String.◌∷◌ c s) t = rw cons-append (
    rw (split-append sep s t) (
      ground (
        arith,
        push_head-append c (split (code sep) s) (split (code sep) t) (split-ne-nil (code sep) s),
      )))

-- Splitting undoes joining, for parts that hold no separator.
pub split-join :
    (sep : Char) (x : String) (xs : List String)
    → All (Lacks (code sep)) (x ∷ xs)
    → split (code sep) (join (String.◌∷◌ sep "") (x ∷ xs)) ≡ x ∷ xs
unfolding join
split-join sep x [] h = split_of_Lacks (code sep) x h.0
split-join sep x (y ∷ ys) h =
    rw (cons-append, nil-append)
      (rw (split-append, split_of_Lacks (code sep) x h.0, split-join sep y ys h.1) refl)

-- After a replacement the replaced code is gone, where the new character has another.
pub replace_char-Lacks :
    (ch : ℕ) (new : Char) (s : String) → code new ≢ ch → Lacks ch (replace_char ch new s)
unfolding replace_char
replace_char-Lacks ch new String.[] h = tt
replace_char-Lacks ch new (String.◌∷◌ c s) h = (ground arith, replace_char-Lacks ch new s h)

-- Nothing is replaced in a text that lacks the code.
pub replace_char_of_Lacks :
    (ch : ℕ) (new : Char) (s : String) → Lacks ch s → replace_char ch new s ≡ s
unfolding replace_char
replace_char_of_Lacks ch new String.[] h = refl
replace_char_of_Lacks ch new (String.◌∷◌ c s) (p, h) =
    rw (replace_char_of_Lacks ch new s h) (ground arith)

pub join-nil : (sep : String) → join sep [] ≡ ""
unfolding join
join-nil sep = refl
