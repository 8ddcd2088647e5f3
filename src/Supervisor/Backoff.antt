-- ===== src/Supervisor/Backoff.antt =====
-- How long a worker that crashes waits.
use Prim.Native.Nat.{min}
use ev211_field_server.Base.{
  ℕ, zero, suc, ◌*◌, ◌≡◌, ◌≤◌, ◌∙◌, ap, inl, inr, leb, Bool-cases, List, [], ◌∷◌, All, arith,
}
use ev211_field_server.Supervisor.{
  RunEnd, clean, crashed, Supervision, Round, new_supervision, round, supervise,
}

abbrev pub crashes : ℕ → List RunEnd
crashes zero = []
crashes (suc n) = crashed ∷ crashes n

-- A wait doubled n times.
unfoldable pub times_two : ℕ → ℕ → ℕ
times_two zero x = x
times_two (suc n) x = times_two n (x * 2)

le-times_two : (n x : ℕ) → x ≤ times_two n x
unfolding times_two
le-times_two zero x = omega arith
le-times_two (suc n) x = omega (arith, le-times_two n (x * 2))

-- A limit on the way does not show behind the limit at the end.
min-times_two : (limit n x : ℕ) → min limit (times_two n (min limit x)) ≡ min limit (times_two n x)
min-times_two limit n x = elim (Bool-cases (leb x limit)) [
  | inl low ↦ ap (λ y. min limit (times_two n y)) (ground arith)
  | inr high ↦ ground (arith, le-times_two n x, le-times_two n (min limit x))
]

bounded_waits :
    (base limit : ℕ) (es : List RunEnd) (s : Supervision)
    → base ≤ limit
    → s.backoff ≤ limit
    → All (λ (r : Round). r.waited ≤ limit) (supervise base limit es s).0
unfolding supervise round
bounded_waits base limit [] s h k = tt
bounded_waits base limit (clean ∷ es) s h k =
    (h, bounded_waits base limit es (round base limit clean s).1 h (omega arith))
bounded_waits base limit (crashed ∷ es) s h k =
    (k, bounded_waits base limit es (round base limit crashed s).1 h (omega arith))

crashes_double :
    (base limit n : ℕ) (s : Supervision)
    → s.backoff ≤ limit
    → (supervise base limit (crashes n) s).1.backoff ≡ min limit (times_two n s.backoff)
unfolding supervise round times_two
crashes_double base limit zero s h = omega arith
crashes_double base limit (suc n) s h =
    crashes_double base limit n (round base limit crashed s).1 (omega arith)
    ∙ min-times_two limit n (s.backoff * 2)

-- With a base of at most the maximum no wait is above the maximum, and behind n crashes in a row
-- from the start the next wait is the base doubled n times, or the maximum where that is less.
pub waits_bounded :
    (base limit : ℕ)
    → base ≤ limit
    → ((es : List RunEnd)
        → All
            (λ (r : Round). r.waited ≤ limit)
            (supervise base limit es (new_supervision base limit)).0)
      × ((n : ℕ)
          → (supervise base limit (crashes n) (new_supervision base limit)).1.backoff
            ≡ min limit (times_two n base))
waits_bounded base limit h = (
  λ es. bounded_waits base limit es (new_supervision base limit) h h,
  λ n. crashes_double base limit n (new_supervision base limit) h,
)
