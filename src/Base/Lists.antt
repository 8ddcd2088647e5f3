-- ===== src/Base/Lists.antt =====
-- Lists measured by native numbers, Boolean folds, and predicates on all entries.
use Prim.Native.Nat.{ℕ, suc, ◌+◌, ◌≤◌}
use mathlib.Core.Path.{◌≡◌}
use mathlib.Core.Bool.{Bool, true, false, ◌&&◌, ◌||◌}
use mathlib.Core.List.{List, [], ◌∷◌, ◌++◌}
use native.Mathlib.Omega.{arith}

module _ {ℓ} {A : Type ℓ} where
  abbrev pub length : List A → ℕ
  length [] = 0
  length (x ∷ xs) = suc (length xs)

  abbrev pub any : (A → Bool) → List A → Bool
  any p [] = false
  any p (x ∷ xs) = p x || any p xs

  abbrev pub all : (A → Bool) → List A → Bool
  all p [] = true
  all p (x ∷ xs) = p x && all p xs

  -- The rows that a test keeps.
  abbrev pub keep : (A → Bool) → List A → List A
  keep p [] = []
  keep p (x ∷ xs) = let rest = keep p xs in elim (p x) [ true ↦ x ∷ rest | false ↦ rest ]

  pub length-append : (xs ys : List A) → length (xs ++ ys) ≡ length xs + length ys
  length-append [] ys = omega arith
  length-append (x ∷ xs) ys = omega (arith, length-append xs ys)

module _ {ℓ κ} {A : Type ℓ} (P : A → Type κ) where
  abbrev pub All : List A → Type κ
  All [] = Unit
  All (x ∷ xs) = P x × All xs

  pub All-append : (xs ys : List A) → All xs → All ys → All (xs ++ ys)
  All-append [] ys _ k = k
  All-append (x ∷ xs) ys (p, h) k = (p, All-append xs ys h k)

-- The entries that pass a test, counted.
abbrev pub count_of {ℓ} : {A : Type ℓ} → (A → Bool) → List A → ℕ
count_of p [] = 0
count_of p (x ∷ xs) = let rest = count_of p xs in elim (p x) [ true ↦ suc rest | false ↦ rest ]

pub count_of-append {ℓ} :
    {A : Type ℓ} (p : A → Bool) (xs ys : List A)
    → count_of p (xs ++ ys) ≡ count_of p xs + count_of p ys
count_of-append p [] ys = omega arith
count_of-append p (x ∷ xs) ys = ground (arith, count_of-append p xs ys)

pub count_of-le-length {ℓ} : {A : Type ℓ} (p : A → Bool) (xs : List A) → count_of p xs ≤ length xs
count_of-le-length p [] = omega arith
count_of-le-length p (x ∷ xs) = ground (arith, count_of-le-length p xs)
