-- ===== src/Base/Ends.antt =====
-- The last elements of a list.
use Prim.Native.Nat.{ℕ, zero, suc, ◌+◌, ◌-◌, ◌≤◌}
use mathlib.Core.Path.{◌≡◌, refl, sym, ap, subst, ◌∙◌}
use mathlib.Core.Logic.{inl, inr}
use mathlib.Core.List.{List, [], ◌∷◌, ◌++◌, reverse, reverse-cons, reverse-append}
use native.Mathlib.Omega.{arith}
use nasserver.Base.Tests.{leb, Bool-cases}
use nasserver.Base.Lists.{length, take, drop}

module _ {ℓ} {A : Type ℓ} where
  -- The last `n` elements, or all.
  unfoldable pub last_n : ℕ → List A → List A
  last_n n xs = drop (length xs - n) xs

  pub length-append : (xs ys : List A) → length (xs ++ ys) ≡ length xs + length ys
  length-append [] ys = omega arith
  length-append (x ∷ xs) ys = omega (arith, length-append xs ys)

  length-reverse : (xs : List A) → length (reverse xs) ≡ length xs
  length-reverse [] = refl
  length-reverse (x ∷ xs) =
      rw (reverse-cons x xs, length-append (reverse xs) (x ∷ []), length-reverse xs) (omega arith)

  length-drop : (k : ℕ) (xs : List A) → length (drop k xs) ≡ length xs - k
  length-drop zero xs = omega arith
  length-drop (suc k) [] = omega arith
  length-drop (suc k) (x ∷ xs) = omega (arith, length-drop k xs)

  pub take-append-drop : (k : ℕ) (xs : List A) → take k xs ++ drop k xs ≡ xs
  take-append-drop zero xs = refl
  take-append-drop (suc k) [] = refl
  take-append-drop (suc k) (x ∷ xs) = ap (λ ys. x ∷ ys) (take-append-drop k xs)

  take_exact : (xs ys : List A) (n : ℕ) → length xs ≡ n → take n (xs ++ ys) ≡ xs
  take_exact [] ys zero h = refl
  take_exact [] ys (suc n) h = absurd (omega arith)
  take_exact (x ∷ xs) ys zero h = absurd (omega arith)
  take_exact (x ∷ xs) ys (suc n) h = ap (λ zs. x ∷ zs) (take_exact xs ys n (omega arith))

  take_all : (xs : List A) (n : ℕ) → length xs ≤ n → take n xs ≡ xs
  take_all [] zero h = refl
  take_all [] (suc n) h = refl
  take_all (x ∷ xs) zero h = absurd (omega arith)
  take_all (x ∷ xs) (suc n) h = ap (λ zs. x ∷ zs) (take_all xs n (omega arith))

  pub drop_exact : (xs ys : List A) → drop (length xs) (xs ++ ys) ≡ ys
  drop_exact [] ys = refl
  drop_exact (x ∷ xs) ys = drop_exact xs ys

  drop-append : (k : ℕ) (xs ys : List A) → k ≤ length xs → drop k (xs ++ ys) ≡ drop k xs ++ ys
  drop-append zero xs ys h = refl
  drop-append (suc k) [] ys h = absurd (omega arith)
  drop-append (suc k) (x ∷ xs) ys h = drop-append k xs ys (omega arith)

  -- The first elements of the reversed list are the last elements, reversed.
  pub take-reverse : (n : ℕ) (xs : List A) → take n (reverse xs) ≡ reverse (last_n n xs)
  unfolding last_n
  take-reverse n xs = elim (Bool-cases (leb n (length xs))) [
    | inl le ↦
        let k = length xs - n in
        let split : reverse (drop k xs) ++ reverse (take k xs) ≡ reverse xs =
          sym (reverse-append (take k xs) (drop k xs)) ∙ ap reverse (take-append-drop k xs) in
        let size : length (reverse (drop k xs)) ≡ n =
          length-reverse (drop k xs) ∙ ground (arith, length-drop k xs) in
        subst (λ ys. take n ys ≡ reverse (drop k xs)) split
          (take_exact (reverse (drop k xs)) (reverse (take k xs)) n size)
    | inr more ↦
        let none_left : length xs - n ≡ 0 = ground arith in
        rw none_left (take_all (reverse xs) n (ground (arith, length-reverse xs)))
  ]

  -- One more element at the end is one of the last.
  pub last_n-append :
      (n : ℕ) (xs : List A) (y : A) → last_n (suc n) (xs ++ (y ∷ [])) ≡ last_n n xs ++ (y ∷ [])
  unfolding last_n
  last_n-append n xs y =
      let size : length (xs ++ (y ∷ [])) - suc n ≡ length xs - n =
        omega (arith, length-append xs (y ∷ [])) in
      rw size (drop-append (length xs - n) xs (y ∷ []) (omega arith))
