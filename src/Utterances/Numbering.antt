-- ===== src/Utterances/Numbering.antt =====
-- The utterance ids of a stream of deltas.
use ev211_field_server.Base.{
  ℕ, zero, suc, ◌+◌, ◌≤◌, ◌<◌, leb, ◌≡◌, inl, inr, ap, ◌∙◌, sym, refl, Bool, true, false, Option,
  none, some, List, [], ◌∷◌, keep, Text, ◌==◌, text_eq, text_beq_iff, Bool-cases, arith,
}
use ev211_field_server.Base.Dict
use ev211_field_server.Utterances.{
  UtteranceState, UtteranceTracker, next_number, number_after, next_id, ends_utterance,
}

pub record Delta : Type 0 where
  pub kind : Text
  pub text : Text
  pub time : ℕ

keep_first :
    {A : Type 0} (p : A → Bool) (x : A) (xs : List A) → p x ≡ true → keep p (x ∷ xs) ≡ x ∷ keep p xs
keep_first p x xs h = rw (h, keep) refl

keep_later :
    {A : Type 0} (p : A → Bool) (x : A) (xs : List A) → p x ≡ false → keep p (x ∷ xs) ≡ keep p xs
keep_later p x xs h = rw (h, keep) refl

module _ (is_space : ℕ → Bool) (gap : ℕ) (terminators : Text) where
  abbrev pub tracker : List (Text × UtteranceState) → UtteranceTracker
  tracker state = record { gap = gap; terminators = terminators; state = state }

  abbrev pub step : Delta → List (Text × UtteranceState) → ℕ × List (Text × UtteranceState)
  step d state =
      let (number, t) = next_id is_space d.kind d.text d.time (tracker state) in (number, t.state)

  abbrev pub listed : Bool → ℕ → List ℕ → List ℕ
  listed true n rest = n ∷ rest
  listed false n rest = rest

  -- The ids that the deltas of one kind get in a stream of all kinds.
  abbrev pub ids_of : Text → List Delta → List (Text × UtteranceState) → List ℕ
  ids_of k [] state = []
  ids_of k (d ∷ ds) state =
      let (number, after) = step d state in listed (d.kind == k) number (ids_of k ds after)

  -- The id of a delta behind the delta `c` of its kind, which had the id `n`: the next number where
  -- `c` ended a sentence or lies the gap back, and `n` otherwise.
  pub data IsNext (c d : Delta) (n : ℕ) : ℕ → Type 0 where
    sentence_over : ends_utterance is_space c.text terminators ≡ true → IsNext c d n (suc n)
    paused : c.time + gap ≤ d.time → IsNext c d n (suc n)
    goes_on :
        ends_utterance is_space c.text terminators ≡ false → d.time < c.time + gap → IsNext c d n n

  -- The ids of the deltas of one kind, from the delta before them and its id.
  abbrev pub IsNumbered : Option (Delta × ℕ) → List Delta → List ℕ → Type 0
  IsNumbered last [] [] = Unit
  IsNumbered last [] (x ∷ xs) = zero ≡ 1
  IsNumbered last (d ∷ ds) [] = zero ≡ 1
  IsNumbered none (d ∷ ds) (x ∷ xs) = (x ≡ 1) × IsNumbered (some (d, x)) ds xs
  IsNumbered (some (c, n)) (d ∷ ds) (x ∷ xs) = IsNext c d n x × IsNumbered (some (d, x)) ds xs

  abbrev row_of : Option (Delta × ℕ) → Option UtteranceState
  row_of none = none
  row_of (some (c, n)) =
      some (record { number = n; at = c.time; ended = ends_utterance is_space c.text terminators })

  number_after-IsNext :
      (c d : Delta) (n : ℕ) → IsNext c d n (number_after is_space gap d.time (row_of (some (c, n))))
  unfolding next_number
  number_after-IsNext c d n = elim (Bool-cases (ends_utterance is_space c.text terminators)) [
    | inl over ↦ rw over (sentence_over over)
    | inr unfinished ↦ elim (Bool-cases (leb (c.time + gap) d.time)) [
      | inl late ↦ rw (unfinished, late) (paused (ground (arith, late)))
      | inr soon ↦ rw (unfinished, soon) (goes_on unfinished (ground (arith, soon)))
    ]
  ]

  number_steps :
      (d : Delta) (last : Option (Delta × ℕ)) (ds : List Delta) (rest : List ℕ)
      → IsNumbered (some (d, number_after is_space gap d.time (row_of last))) ds rest
      → IsNumbered last (d ∷ ds) (number_after is_space gap d.time (row_of last) ∷ rest)
  number_steps d none ds rest h = (refl, h)
  number_steps d (some (c, n)) ds rest h = (number_after-IsNext c d n, h)

  step_of_kind :
      (k : Text) (d : Delta) (s : List (Text × UtteranceState))
      → d.kind ≡ k
      → ((step d s).0 ≡ number_after is_space gap d.time (Dict.get s k))
        × (Dict.get (step d s).1 k
            ≡ some (record {
              number = number_after is_space gap d.time (Dict.get s k);
              at = d.time;
              ended = ends_utterance is_space d.text terminators;
            }))
  unfolding next_id
  step_of_kind k d s is = rw is (refl, Dict.get-put s k k _ ∙ rw ((text_beq_iff k k).1 refl) refl)

  step_of_other :
      (k : Text) (d : Delta) (s : List (Text × UtteranceState))
      → (d.kind == k) ≡ false
      → Dict.get (step d s).1 k ≡ Dict.get s k
  unfolding next_id
  step_of_other k d s h = Dict.get-put s d.kind k _ ∙ rw h refl

  abbrev pub of_kind : Text → List Delta → List Delta
  of_kind k ds = keep (λ (d : Delta). d.kind == k) ds

  ids_from-IsNumbered :
      (k : Text) (ds : List Delta) (state : List (Text × UtteranceState))
      (last : Option (Delta × ℕ))
      → Dict.get state k ≡ row_of last
      → IsNumbered last (of_kind k ds) (ids_of k ds state)
  ids_from-IsNumbered k [] state last same = tt
  ids_from-IsNumbered k (d ∷ ds) state last same = elim (Bool-cases (d.kind == k)) [
    | inl is ↦
        let n = number_after is_space gap d.time (row_of last) in
        let (number, after) = step_of_kind k d state ((text_beq_iff d.kind k).0 is) in
        rw (keep_first (λ (e : Delta). e.kind == k) d ds is, is, number, same)
          (number_steps d last (of_kind k ds) (ids_of k ds (step d state).1)
            (ids_from-IsNumbered k ds (step d state).1 (some (d, n)) (after ∙ rw same refl)))
    | inr is_not ↦
        rw (keep_later (λ (e : Delta). e.kind == k) d ds is_not, is_not)
          (ids_from-IsNumbered k ds (step d state).1 last (step_of_other k d state is_not ∙ same))
  ]

  -- In any stream of deltas, the ids of the deltas of one kind are numbered from 1: a delta has the
  -- next number where the delta of its kind before it ended a sentence or lies the gap or more back,
  -- and the number of that delta otherwise.
  pub ids_of-IsNumbered :
      (k : Text) (ds : List Delta) → IsNumbered none (of_kind k ds) (ids_of k ds [])
  unfolding Dict.get
  ids_of-IsNumbered k ds = ids_from-IsNumbered k ds [] none refl

  step_same :
      (k : Text) (d : Delta) (s r : List (Text × UtteranceState))
      → Dict.get s k ≡ Dict.get r k
      → (d.kind == k) ≡ true
      → ((step d s).0 ≡ (step d r).0) × (Dict.get (step d s).1 k ≡ Dict.get (step d r).1 k)
  step_same k d s r same is =
      let kind = (text_beq_iff d.kind k).0 is in
      let (number_s, after_s) = step_of_kind k d s kind in
      let (number_r, after_r) = step_of_kind k d r kind in
      (
        number_s ∙ ap (number_after is_space gap d.time) same ∙ sym number_r,
        after_s
            ∙ ap
                (λ o. some (record {
                  number = number_after is_space gap d.time o;
                  at = d.time;
                  ended = ends_utterance is_space d.text terminators;
                }))
                same
            ∙ sym after_r,
      )

  ids_same :
      (k : Text) (ds : List Delta) (s r : List (Text × UtteranceState))
      → Dict.get s k ≡ Dict.get r k
      → ids_of k ds s ≡ ids_of k (keep (λ (d : Delta). d.kind == k) ds) r
  ids_same k [] s r same = refl
  ids_same k (d ∷ ds) s r same = elim (Bool-cases (d.kind == k)) [
    | inl is ↦
        let (number, after) = step_same k d s r same is in
        let own = λ (e : Delta). e.kind == k in
        let rest = ids_of k (keep own ds) (step d r).1 in
        ap (λ b. listed b (step d s).0 (ids_of k ds (step d s).1)) is
        ∙ ap (λ n. n ∷ ids_of k ds (step d s).1) number
        ∙ ap (λ ids. (step d r).0 ∷ ids) (ids_same k ds (step d s).1 (step d r).1 after)
        ∙ sym (ap (λ b. listed b (step d r).0 rest) is)
        ∙ sym (ap (λ es. ids_of k es r) (keep_first own d ds is))
    | inr other ↦
        ap (λ b. listed b (step d s).0 (ids_of k ds (step d s).1)) other
        ∙ ids_same k ds (step d s).1 r (step_of_other k d s other ∙ same)
        ∙ sym (ap (λ es. ids_of k es r) (keep_later (λ (e : Delta). e.kind == k) d ds other))
  ]

  -- The ids of one kind are those of a stream of its deltas alone: other kinds do not move them.
  kinds_independent :
      (k : Text) (ds : List Delta)
      → ids_of k ds [] ≡ ids_of k (keep (λ (d : Delta). d.kind == k) ds) []
  kinds_independent k ds = ids_same k ds [] [] refl
