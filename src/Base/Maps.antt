-- ===== src/Base/Maps.antt =====
-- Maps with texts as keys, `HashMap` of Rust and tables with a unique key, as association lists.
use Prim.Native.String.{String}
use mathlib.Core.Path.{◌≡◌, refl}
use mathlib.Core.Bool.{false}
use mathlib.Core.Option.{Option, none, some}
use mathlib.Core.List.{List, [], ◌∷◌}
use native.Mathlib.Omega.{arith}
use nasserver.Base.Tests.{if◌then◌else◌}
use nasserver.Base.Text.{◌=s=◌, eq_iff}

module _ {A : Type 0} where
  -- `HashMap::get`
  abbrev pub lookup : String → List (String × A) → Option A
  lookup k [] = none
  lookup k ((j, a) ∷ m) = if j =s= k then some a else lookup k m

  -- `HashMap::remove`
  abbrev pub remove : String → List (String × A) → List (String × A)
  remove k [] = []
  remove k ((j, a) ∷ m) = if j =s= k then remove k m else (j, a) ∷ remove k m

  -- `HashMap::insert`
  abbrev pub insert : String → A → List (String × A) → List (String × A)
  insert k a m = (k, a) ∷ remove k m

  -- `if let Some(s) = map.get_mut(k)`
  abbrev pub modify : String → (A → A) → List (String × A) → List (String × A)
  modify k f [] = []
  modify k f ((j, a) ∷ m) = (j, (if j =s= k then f a else a)) ∷ modify k f m

  pub lookup-remove :
      (k j : String) (m : List (String × A))
      → lookup k (remove j m) ≡ (if j =s= k then none else lookup k m)
  lookup-remove k j [] = ground arith
  lookup-remove k j ((i, a) ∷ m) =
      ground (arith, eq_iff i j, eq_iff i k, eq_iff j k, lookup-remove k j m)

  pub lookup-modify :
      (k j : String) (f : A → A) (m : List (String × A)) (a : A)
      → lookup k m ≡ some a
      → lookup k (modify j f m) ≡ some (if j =s= k then f a else a)
  lookup-modify k j f [] a h = absurd (ground arith)
  lookup-modify k j f ((i, b) ∷ m) a h =
      ground (arith, eq_iff i j, eq_iff i k, eq_iff j k, lookup-modify k j f m a)

  pub lookup-modify_other :
      (k j : String) (f : A → A) (m : List (String × A))
      → (j =s= k) ≡ false
      → lookup k (modify j f m) ≡ lookup k m
  lookup-modify_other k j f [] h = refl
  lookup-modify_other k j f ((i, b) ∷ m) h =
      ground (arith, eq_iff i j, eq_iff i k, eq_iff j k, lookup-modify_other k j f m h)

  pub lookup-insert :
      (k j : String) (a : A) (m : List (String × A))
      → lookup k (insert j a m) ≡ (if j =s= k then some a else lookup k m)
  lookup-insert k j a m = ground (arith, lookup-remove k j m)
