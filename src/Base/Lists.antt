-- ===== src/Base/Lists.antt =====
-- Lists measured and cut by native numbers, under the library's names.
use Prim.Native.Nat.{ℕ, zero, suc, ◌+◌, ◌≤◌}
use mathlib.Core.Path.{◌≡◌}
use mathlib.Core.List.{List, [], ◌∷◌, ◌++◌}
use native.Mathlib.Omega.{arith}

module _ {ℓ} {A : Type ℓ} where
  abbrev pub length : List A → ℕ
  length [] = 0
  length (x ∷ xs) = suc (length xs)

  abbrev pub take : ℕ → List A → List A
  take zero xs = []
  take (suc n) [] = []
  take (suc n) (x ∷ xs) = x ∷ take n xs

  abbrev pub drop : ℕ → List A → List A
  drop zero xs = xs
  drop (suc n) [] = []
  drop (suc n) (x ∷ xs) = drop n xs

  pub length-append : (xs ys : List A) → length (xs ++ ys) ≡ length xs + length ys
  length-append [] ys = omega arith
  length-append (x ∷ xs) ys = omega (arith, length-append xs ys)

  pub length-drop-le : (n : ℕ) (xs : List A) → length (drop n xs) ≤ length xs
  length-drop-le zero xs = omega arith
  length-drop-le (suc n) [] = omega arith
  length-drop-le (suc n) (x ∷ xs) = omega (arith, length-drop-le n xs)

module _ {ℓ κ} {A : Type ℓ} (P : A → Type κ) where
  abbrev pub All : List A → Type κ
  All [] = Unit
  All (x ∷ xs) = P x × All xs

  pub All-append : (xs ys : List A) → All xs → All ys → All (xs ++ ys)
  All-append [] ys _ hy = hy
  All-append (x ∷ xs) ys (px, hx) hy = (px, All-append xs ys hx hy)

-- Membership that keeps the position.
pub data IsIn {ℓ} {A : Type ℓ} (a : A) : List A → Type ℓ where
  first : (xs : List A) → IsIn a (a ∷ xs)
  later : (x : A) (xs : List A) → IsIn a xs → IsIn a (x ∷ xs)

module _ {ℓ} {A : Type ℓ} where
  pub IsIn-append : {a : A} {xs : List A} (ys : List A) → IsIn a xs → IsIn a (xs ++ ys)
  IsIn-append ys (first xs) = first (xs ++ ys)
  IsIn-append ys (later x xs i) = later x (xs ++ ys) (IsIn-append ys i)

  pub IsIn-last : (a : A) (xs : List A) → IsIn a (xs ++ a ∷ [])
  IsIn-last a [] = first []
  IsIn-last a (x ∷ xs) = later x (xs ++ a ∷ []) (IsIn-last a xs)
