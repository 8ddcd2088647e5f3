-- ===== src/OnAir.antt =====
-- api/app/monitor.py: the channels on which a track is published.
use ev211_field_server.Base.{
  ℕ, ◌≡◌, refl, Bool, true, false, List, [], ◌∷◌, ◌==◌, nat_eq, if◌then◌else◌, any, keep, not,
  arith,
}

pub record OnAirTracker : Type 0 where
  pub publishing : List ℕ

abbrev pub new_tracker : OnAirTracker
new_tracker = record { publishing = [] }

abbrev without : ℕ → List ℕ → List ℕ
without k xs = keep (λ j. not (j == k)) xs

-- `set.add` of a member changes nothing that a reader sees.
unfoldable pub set_publishing : ℕ → Bool → OnAirTracker → OnAirTracker
set_publishing k true t = record t { publishing = k ∷ t.publishing }
set_publishing k false t = record t { publishing = without k t.publishing }

unfoldable pub is_on_air : OnAirTracker → ℕ → Bool
is_on_air t k = any (λ j. j == k) t.publishing

unfoldable pub clear : OnAirTracker → OnAirTracker
clear t = record t { publishing = [] }

unfoldable pub clear_channel : ℕ → OnAirTracker → OnAirTracker
clear_channel k t = record t { publishing = without k t.publishing }

any-without :
    (k j : ℕ) (xs : List ℕ)
    → any (λ i. i == j) (without k xs) ≡ (if k == j then false else any (λ i. i == j) xs)
any-without k j [] = ground arith
any-without k j (x ∷ xs) = ground (arith, any-without k j xs)

-- Setting a channel's state sets it for that channel and for no other.
pub is_on_air-set_publishing :
    (k j : ℕ) (b : Bool) (t : OnAirTracker)
    → is_on_air (set_publishing k b t) j ≡ (if k == j then b else is_on_air t j)
unfolding is_on_air set_publishing
is_on_air-set_publishing k j true t = ground arith
is_on_air-set_publishing k j false t = any-without k j t.publishing

pub is_on_air-clear_channel :
    (k j : ℕ) (t : OnAirTracker)
    → is_on_air (clear_channel k t) j ≡ (if k == j then false else is_on_air t j)
unfolding is_on_air clear_channel
is_on_air-clear_channel k j t = any-without k j t.publishing

pub is_on_air-clear : (j : ℕ) (t : OnAirTracker) → is_on_air (clear t) j ≡ false
unfolding is_on_air clear
is_on_air-clear j t = refl
