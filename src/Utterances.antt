-- ===== src/Utterances.antt =====
-- api/app/translate_worker.py: ends_utterance and UtteranceTracker. `is_space` are the characters
-- that `str.rstrip` removes; the time is `time.monotonic()` in microseconds.
pub mod Numbering
use ev211_field_server.Base.{
  ℕ, suc, ◌+◌, Bool, true, false, ◌&&◌, ◌||◌, Option, none, some, List, [], ◌∷◌, any, Text, ◌==◌,
  nat_eq, text_eq, leb, if◌then◌else◌,
}
use ev211_field_server.Base.Dict

module _ (is_space : ℕ → Bool) where
  -- `str.rstrip`
  unfoldable pub rstrip : Text → Text
  rstrip [] = []
  rstrip (c ∷ s) =
      let rest = rstrip s in
      elim rest [ [] ↦ if is_space c then [] else c ∷ [] | d ∷ t ↦ c ∷ d ∷ t ]

  abbrev pub last_in : Text → Text → Bool
  last_in terminators [] = false
  last_in terminators (c ∷ []) = any (λ t. t == c) terminators
  last_in terminators (c ∷ d ∷ s) = last_in terminators (d ∷ s)

  -- `bool(stripped) and stripped[-1] in terminators`
  unfoldable pub ends_utterance : Text → Text → Bool
  unfolding rstrip
  ends_utterance delta terminators = last_in terminators (rstrip delta)

-- The number, the time of the last delta, and whether it ended a sentence.
pub record UtteranceState : Type 0 where
  pub number : ℕ
  pub at : ℕ
  pub ended : Bool

pub record UtteranceTracker : Type 0 where
  pub gap : ℕ
  pub terminators : Text
  pub state : List (Text × UtteranceState)

module _ (is_space : ℕ → Bool) where
  unfoldable pub next_number : ℕ → ℕ → UtteranceState → ℕ
  next_number gap now s = if s.ended || leb (s.at + gap) now then suc s.number else s.number

  abbrev pub number_after : ℕ → ℕ → Option UtteranceState → ℕ
  number_after gap now none = 1
  number_after gap now (some s) = next_number gap now s

  -- The delta's utterance id, and the state behind it.
  unfoldable pub next_id : Text → Text → ℕ → UtteranceTracker → ℕ × UtteranceTracker
  next_id kind delta now t =
      let number = number_after t.gap now (Dict.get t.state kind) in
      let row : UtteranceState = record {
        number = number;
        at = now;
        ended = ends_utterance is_space delta t.terminators;
      } in
      (number, record t { state = Dict.put t.state kind row })
