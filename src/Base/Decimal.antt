-- ===== src/Base/Decimal.antt =====
-- `str(n)` and `f"{n:02d}"` of a number that is not negative.
use Prim.Native.Nat.{ℕ, zero, suc, ◌+◌, ◌/◌, ◌%◌, ◌<◌}
use mathlib.Core.Path.{◌≡◌, refl}
use mathlib.Core.List.{[], ◌∷◌, ◌++◌}
use native.Mathlib.Omega.{arith}
use package.ev211_field_server.Base.Tests.{ltb, if◌then◌else◌}
use package.ev211_field_server.Base.Equality.{Text}

unfoldable pub decimal_from : ℕ → ℕ → Text
decimal_from zero n = []
decimal_from (suc fuel) n =
    let front = decimal_from fuel (n / 10) in
    if ltb n 10 then (48 + n) ∷ [] else front ++ (48 + n % 10) ∷ []

-- The number of rounds is the number of digits, so `n + 1` rounds are enough.
unfoldable pub decimal : ℕ → Text
unfolding decimal_from
decimal n = decimal_from (suc n) n

unfoldable pub two_digits : ℕ → Text
unfolding decimal
two_digits n = if ltb n 10 then 48 ∷ decimal n else decimal n

pub two_digits_lem : (n : ℕ) → n < 100 → two_digits n ≡ (48 + n / 10) ∷ (48 + n % 10) ∷ []
unfolding two_digits
two_digits_lem zero h = refl
two_digits_lem (suc n) h = ground arith
