-- ===== src/RateLimit/Strikes.antt =====
-- The blocklist over any run of strikes.
use ev211_field_server.Base.{
  ℕ, ◌+◌, ◌<◌, ◌≡◌, List, [], ◌∷◌, Text, ◌==◌, text_eq, text_beq_iff, leb, if◌then◌else◌, count_of,
  arith,
}
use ev211_field_server.Base.Dict
use ev211_field_server.Base.Dict.{get-put}
use ev211_field_server.RateLimit.{Blocklist, new_blocklist, or_zero, is_blocked, strike, clear}

pub strike_all : Blocklist → List Text → Blocklist
strike_all b [] = b
strike_all b (x ∷ xs) = strike_all (strike b x) xs

abbrev pub strikes_of : Blocklist → Text → ℕ
strikes_of b x = or_zero (Dict.get b.strikes x)

-- Blocked exactly from the threshold on.
record IsExact (b : Blocklist) (x : Text) : Type 0 where
  positive : 0 < b.threshold
  exact : is_blocked b x ≡ leb b.threshold (strikes_of b x)

strikes-strike :
    (b : Blocklist) (y x : Text)
    → strikes_of (strike b y) x ≡ (if y == x then strikes_of b y + 1 else strikes_of b x)
unfolding strike
strikes-strike b y x = ground (arith, get-put b.strikes y x (strikes_of b y + 1))

threshold-strike : (b : Blocklist) (y : Text) → (strike b y).threshold ≡ b.threshold
unfolding strike
threshold-strike b y = ground arith

strike-IsExact : (b : Blocklist) (y x : Text) → IsExact b x → IsExact (strike b y) x
unfolding strike is_blocked
strike-IsExact b y x i =
    ground
      (arith, text_beq_iff y x, get-put b.strikes y x (strikes_of b y + 1), i.positive, i.exact)

strike_all_exact :
    (b : Blocklist) (xs : List Text) (x : Text)
    → IsExact b x
    → is_blocked (strike_all b xs) x ≡ leb b.threshold (strikes_of b x + count_of (λ y. y == x) xs)
unfolding strike_all
strike_all_exact b [] x i = ground (arith, i.exact)
strike_all_exact b (y ∷ xs) x i = ground (
  arith,
  strike_all_exact (strike b y) xs x (strike-IsExact b y x i),
  strikes-strike b y x,
  threshold-strike b y,
  text_beq_iff y x,
)

-- From a fresh list with a positive threshold, an identity is blocked after any run of strikes
-- exactly when it was struck at least `threshold` times.
blocked_iff_struck :
    (n : ℕ) (xs : List Text) (x : Text)
    → 0 < n
    → is_blocked (strike_all (new_blocklist n) xs) x ≡ leb n (count_of (λ y. y == x) xs)
unfolding is_blocked Dict.get
blocked_iff_struck n xs x pos = ground (
  arith,
  strike_all_exact (new_blocklist n) xs x (record { positive = pos; exact = ground arith }),
)

-- After a clearing the count of strikes starts again.
clear_forgets :
    (b : Blocklist) (xs : List Text) (x : Text)
    → 0 < b.threshold
    → is_blocked (strike_all (clear b) xs) x ≡ leb b.threshold (count_of (λ y. y == x) xs)
unfolding clear
clear_forgets b xs x pos = blocked_iff_struck b.threshold xs x pos
