-- ===== src/Base/Sorting.antt =====
-- ORDER BY and LIMIT: a stable sort by a number, and the first entries.
use Prim.Native.Nat.{ℕ, zero, suc, ◌≤◌}
use mathlib.Core.Path.{◌≡◌, refl}
use mathlib.Core.Bool.{Bool}
use mathlib.Core.List.{List, [], ◌∷◌}
use native.Mathlib.Omega.{arith}
use package.ev211_field_server.Base.Tests.{leb, if◌then◌else◌}
use package.ev211_field_server.Base.Lists.{any, count_of}

module _ {ℓ} {A : Type ℓ} (key : A → ℕ) where
  unfoldable pub insert_by : A → List A → List A
  insert_by x [] = x ∷ []
  insert_by x (y ∷ ys) = if leb (key x) (key y) then x ∷ y ∷ ys else y ∷ insert_by x ys

  unfoldable pub order_by : List A → List A
  unfolding insert_by
  order_by [] = []
  order_by (x ∷ xs) = insert_by x (order_by xs)

  -- Each entry is at most the next.
  abbrev pub IsOrdered : List A → Type 0
  IsOrdered [] = Unit {0}
  IsOrdered (x ∷ []) = Unit {0}
  IsOrdered (x ∷ y ∷ ys) = (key x ≤ key y) × IsOrdered (y ∷ ys)

  insert_by-IsOrdered : (x : A) (ys : List A) → IsOrdered ys → IsOrdered (insert_by x ys)
  unfolding insert_by
  insert_by-IsOrdered x [] h = tt
  insert_by-IsOrdered x (y ∷ []) h = ground arith
  insert_by-IsOrdered x (y ∷ z ∷ zs) (p, h) = ground (arith, insert_by-IsOrdered x (z ∷ zs) h)

  pub order_by-IsOrdered : (xs : List A) → IsOrdered (order_by xs)
  unfolding order_by
  order_by-IsOrdered [] = tt
  order_by-IsOrdered (x ∷ xs) = insert_by-IsOrdered x (order_by xs) (order_by-IsOrdered xs)

  count_of-insert_by :
      (p : A → Bool) (x : A) (ys : List A) → count_of p (insert_by x ys) ≡ count_of p (x ∷ ys)
  unfolding insert_by
  count_of-insert_by p x [] = refl
  count_of-insert_by p x (y ∷ ys) = ground (arith, count_of-insert_by p x ys)

  -- Sorting loses and adds nothing.
  pub count_of-order_by : (p : A → Bool) (xs : List A) → count_of p (order_by xs) ≡ count_of p xs
  unfolding order_by
  count_of-order_by p [] = refl
  count_of-order_by p (x ∷ xs) =
      ground (arith, count_of-insert_by p x (order_by xs), count_of-order_by p xs)

  any-insert_by : (p : A → Bool) (x : A) (ys : List A) → any p (insert_by x ys) ≡ any p (x ∷ ys)
  unfolding insert_by
  any-insert_by p x [] = refl
  any-insert_by p x (y ∷ ys) = ground (arith, any-insert_by p x ys)

  pub any-order_by : (p : A → Bool) (xs : List A) → any p (order_by xs) ≡ any p xs
  unfolding order_by
  any-order_by p [] = refl
  any-order_by p (x ∷ xs) = ground (arith, any-insert_by p x (order_by xs), any-order_by p xs)

module _ {ℓ} {A : Type ℓ} where
  abbrev pub take : ℕ → List A → List A
  take zero xs = []
  take (suc n) [] = []
  take (suc n) (x ∷ xs) = x ∷ take n xs
