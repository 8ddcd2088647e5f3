-- ===== src/RateLimit/Window.antt =====
-- The limiter's promise over any run of calls.
use ev211_field_server.Base.{
  ℕ, ◌+◌, ◌≤◌, ◌<◌, ◌≡◌, ◌∙◌, ap, refl, Bool, true, false, not, ◌&&◌, Option, some, List, [], ◌∷◌,
  ◌++◌, Text, ◌==◌, text_eq, text_beq_iff, ltb, leb, if◌then◌else◌, length, All, All-append,
  count_of, leb→le, count_of-append, count_of-le-length, seconds, arith, Bool-cases, inl, inr,
}
use mathlib.Core.List.{append-nil, append_assoc}
use ev211_field_server.Base.Dict
use ev211_field_server.Base.Dict.{get-put}
use ev211_field_server.RateLimit.{RateLimiter, new_limiter, or_empty, drop_old, check}

-- The times of the calls for one key that the limiter lets through.
abbrev granted : Option (Bool × ℕ) → Bool
granted (some (true, _)) = true
granted _ = false

pub accepted : RateLimiter → Text → List (ℕ × Text) → List ℕ
accepted r key [] = []
accepted r key ((now, k) ∷ calls) =
    let rest = accepted (check r now k).1 key calls in
    if (k == key) && granted (check r now k).0 then now ∷ rest else rest

-- The clock does not run backwards.
abbrev pub Nondecreasing : ℕ → List (ℕ × Text) → Type 0
Nondecreasing from [] = Unit {0}
Nondecreasing from ((now, _) ∷ calls) = (from ≤ now) × Nondecreasing now calls

abbrev pub in_minute : ℕ → ℕ → Bool
in_minute w t = leb w t && ltb t (w + seconds 60)

abbrev pub queue : RateLimiter → Text → List ℕ
queue r key = or_empty (Dict.get r.hits key)

-- What the queue has dropped is more than a minute old.
record IsWindow (n now : ℕ) (r : RateLimiter) (key : Text) (log : List ℕ) : Type 0 where
  limit : r.per_minute ≡ n
  old : List ℕ
  split : log ≡ old ++ queue r key
  aged : All (λ t. t + seconds 60 ≤ now) old

dropped : ℕ → List ℕ → List ℕ
dropped now [] = []
dropped now (t ∷ q) = if leb (t + seconds 60) now then t ∷ dropped now q else []

dropped-append : (now : ℕ) (q : List ℕ) → dropped now q ++ drop_old now q ≡ q
unfolding dropped drop_old
dropped-append now [] = refl
dropped-append now (t ∷ q) = ground (arith, dropped-append now q)

dropped_aged : (now : ℕ) (q : List ℕ) → All (λ t. t + seconds 60 ≤ now) (dropped now q)
unfolding dropped
dropped_aged now [] = tt
dropped_aged now (t ∷ q) = elim (Bool-cases (leb (t + seconds 60) now)) [
  | inl h ↦ rw h (leb→le _ _ h, dropped_aged now q)
  | inr h ↦ rw h tt
]

aged_later :
    (now later : ℕ) (old : List ℕ)
    → now ≤ later
    → All (λ t. t + seconds 60 ≤ now) old
    → All (λ t. t + seconds 60 ≤ later) old
aged_later now later [] h a = tt
aged_later now later (t ∷ old) h (p, a) = (omega arith, aged_later now later old h a)

-- A window that holds `now` holds nothing that is a minute older.
aged_not_counted :
    (w now : ℕ) (old : List ℕ)
    → in_minute w now ≡ true
    → All (λ t. t + seconds 60 ≤ now) old
    → count_of (in_minute w) old ≡ 0
aged_not_counted w now [] h a = refl
aged_not_counted w now (t ∷ old) h (p, a) = ground (arith, aged_not_counted w now old h a)

unfoldable pub grant_test : RateLimiter → ℕ → Text → Bool
grant_test r now key = leb r.per_minute (length (drop_old now (queue r key)))

pub queue-check :
    (r : RateLimiter) (now : ℕ) (k key : Text)
    → queue (check r now k).1 key ≡ (
        if k == key
        then (if grant_test r now key
            then drop_old now (queue r key)
            else drop_old now (queue r key) ++ now ∷ [])
        else queue r key)
unfolding check grant_test
queue-check r now k key = ground (
  arith,
  text_beq_iff k key,
  get-put r.hits k key (drop_old now (queue r k)),
  get-put r.hits k key (drop_old now (queue r k) ++ now ∷ []),
)

granted-check :
    (r : RateLimiter) (now : ℕ) (key : Text)
    → granted (check r now key).0 ≡ not (grant_test r now key)
unfolding check grant_test
granted-check r now key = ground arith

pub per_minute-check :
    (r : RateLimiter) (now : ℕ) (key : Text) → (check r now key).1.per_minute ≡ r.per_minute
unfolding check
per_minute-check r now key = ground arith

advance :
    (n from now : ℕ) (r : RateLimiter) (key : Text) (log : List ℕ) (tail : List ℕ)
    → from ≤ now
    → IsWindow n from r key log
    → queue r key ≡ tail
    → (old : List ℕ) × (log ≡ old ++ drop_old now tail) × All (λ t. t + seconds 60 ≤ now) old
advance n from now r key log tail h win e = (
  win.old ++ dropped now tail,
  rw (append_assoc, dropped-append, ← e) win.split,
  All-append _ win.old (dropped now tail) (aged_later from now win.old h win.aged)
      (dropped_aged now tail),
)

-- The limiter over one call.
step_refused :
    (n from now : ℕ) (r : RateLimiter) (k key : Text) (log : List ℕ)
    → from ≤ now
    → IsWindow n from r key log
    → ((k == key) && granted (check r now k).0) ≡ false
    → IsWindow n now (check r now k).1 key log
step_refused n from now r k key log h win no_grant = elim (Bool-cases (k == key)) [
  | inl same ↦
      let (old, split, aged) = advance n from now r key log (queue r key) h win refl in
      let full : grant_test r now key ≡ true =
        ground (arith, granted-check r now k, text_beq_iff k key) in
      record {
        limit = per_minute-check r now k ∙ win.limit;
        old = old;
        split = rw (queue-check, same, full) split;
        aged = aged;
      }
  | inr other ↦ record {
    limit = per_minute-check r now k ∙ win.limit;
    old = win.old;
    split = rw (queue-check, other) win.split;
    aged = aged_later from now win.old h win.aged;
  }
]

step_granted :
    (n from now : ℕ) (r : RateLimiter) (k key : Text) (log : List ℕ)
    → from ≤ now
    → IsWindow n from r key log
    → ((k == key) && granted (check r now k).0) ≡ true
    → IsWindow n now (check r now k).1 key (log ++ now ∷ [])
step_granted n from now r k key log h win grant =
    let (old, split, aged) = advance n from now r key log (queue r key) h win refl in
    let same : (k == key) ≡ true = ground arith in
    let room : grant_test r now key ≡ false =
      ground (arith, granted-check r now k, text_beq_iff k key) in
    record {
      limit = per_minute-check r now k ∙ win.limit;
      old = old;
      split = rw (queue-check, same, room, ← append_assoc, ← split);
      aged = aged;
    }

step_count :
    (n from now : ℕ) (r : RateLimiter) (k key : Text) (log : List ℕ) (w : ℕ)
    → from ≤ now
    → IsWindow n from r key log
    → ((k == key) && granted (check r now k).0) ≡ true
    → count_of (in_minute w) log ≤ n
    → count_of (in_minute w) (log ++ now ∷ []) ≤ n
step_count n from now r k key log w h win grant few =
    let (old, split, aged) = advance n from now r key log (queue r key) h win refl in
    let room : grant_test r now key ≡ false =
      ground (arith, granted-check r now k, text_beq_iff k key) in
    let short : length (drop_old now (queue r key)) < n =
      unfold grant_test in ground (arith, win.limit) in
    let parts =
      ap (count_of (in_minute w)) split
      ∙ count_of-append (in_minute w) old (drop_old now (queue r key)) in
    rw count_of-append (
      ground (
        arith,
        parts,
        few,
        short,
        aged_not_counted w now old,
        count_of-le-length (in_minute w) (drop_old now (queue r key)),
        aged,
      ))

window_run :
    (n from : ℕ) (r : RateLimiter) (key : Text) (log : List ℕ) (calls : List (ℕ × Text)) (w : ℕ)
    → Nondecreasing from calls
    → IsWindow n from r key log
    → count_of (in_minute w) log ≤ n
    → count_of (in_minute w) (log ++ accepted r key calls) ≤ n
unfolding accepted
window_run n from r key log [] w h win few = rw append-nil few
window_run n from r key log ((now, k) ∷ calls) w (h, hs) win few =
    elim (Bool-cases ((k == key) && granted (check r now k).0)) [
      | inl grant ↦
          let run =
            window_run n now (check r now k).1 key (log ++ now ∷ []) calls w hs
              (step_granted n from now r k key log h win grant)
              (step_count n from now r k key log w h win grant few) in
          rw grant (rw append_assoc at run)
      | inr refused ↦ rw refused (
          window_run n now (check r now k).1 key log calls w hs
            (step_refused n from now r k key log h win refused) few)
    ]

-- Over any calls at times that do not run backwards, a fresh limiter of `n` calls a minute lets
-- at most `n` calls of one key through in any window of sixty seconds.
pub accepted_per_minute :
    (n : ℕ) (key : Text) (calls : List (ℕ × Text)) (w : ℕ)
    → Nondecreasing 0 calls
    → count_of (in_minute w) (accepted (new_limiter n) key calls) ≤ n
unfolding Dict.get
accepted_per_minute n key calls w h =
    window_run n 0 (new_limiter n) key [] calls w h
      (record { limit = refl; old = []; split = refl; aged = tt }) (omega arith)
