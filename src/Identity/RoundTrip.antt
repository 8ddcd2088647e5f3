-- ===== src/Identity/RoundTrip.antt =====
-- Parsing after printing.
use ev211_field_server.Base.{
  ℕ, zero, suc, ◌+◌, ◌*◌, ◌/◌, ◌%◌, ◌<◌, ◌≡◌, ◌∙◌, refl, ap, sym, Bool, true, false, Option, none,
  some, [], ◌∷◌, ◌++◌, Text, nat_eq, ltb, ltb→lt, ◌-◌, if◌then◌else◌, All, arith, Bool-cases, inl,
  inr,
}
use mathlib.Core.List.{append_assoc}
use ev211_field_server.Base.Decimal.{decimal, decimal_from, two_digits_lem}
use ev211_field_server.Identity.{
  Digits, SpeakerIdentity, speaker_identity, is_alnum, alnum_run, at_end, nonce_of, one_digit,
  number, parse_speaker_identity,
}

alnum_run-All : (s : Text) → All (λ c. is_alnum c ≡ true) s → alnum_run s ≡ (s, [])
unfolding alnum_run
alnum_run-All [] h = refl
alnum_run-All (c ∷ s) (p, h) = rw (p, alnum_run-All s h)

module _ (u : Digits) where
  number-digit :
      (n c d : ℕ) (seen : Bool) (s : Text)
      → u.digit_value c ≡ some d
      → number u n seen (c ∷ s) ≡ number u (n * 10 + d) true s
  unfolding number
  number-digit n c d seen s e = rw (e, number)

  number-dash : (n : ℕ) (s : Text) → number u n true (b'-' ∷ s) ≡ some (n, b'-' ∷ s)
  unfolding number
  number-dash n s = rw (u.dash, number)

  number-decimal_from :
      (fuel n : ℕ) (rest : Text)
      → n < fuel
      → number u 0 false (decimal_from fuel n ++ rest) ≡ number u n true rest
  unfolding decimal_from
  number-decimal_from zero n rest h = absurd (omega arith)
  number-decimal_from (suc fuel) n rest h = elim (Bool-cases (ltb n 10)) [
    | inl small ↦ rw small (
        number-digit 0 (48 + n) n false rest (u.ascii n (ltb→lt n 10 small))
        ∙ ap (λ k. number u k true rest) (omega arith))
    | inr large ↦
        rw (large, append_assoc)
          (number-decimal_from fuel (n / 10) ((48 + n % 10) ∷ rest) (ground arith)
            ∙ number-digit (n / 10) (48 + n % 10) (n % 10) true rest
                (u.ascii (n % 10) (omega arith))
            ∙ ap (λ k. number u k true rest) (omega arith))
  ]

  number-decimal :
      (n : ℕ) (rest : Text) → number u 0 false (decimal n ++ b'-' ∷ rest) ≡ some (n, b'-' ∷ rest)
  unfolding decimal
  number-decimal n rest =
      number-decimal_from (suc n) n (b'-' ∷ rest) (omega arith) ∙ number-dash n rest

  one_digit-ascii : (d : ℕ) (s : Text) → d < 10 → one_digit u ((48 + d) ∷ s) ≡ some (d, s)
  unfolding one_digit
  one_digit-ascii d s h = rw (u.ascii d h, one_digit)

  -- An identity that the server prints for a channel below 100 and a nonce of letters and digits
  -- parses to the very parts that were printed.
  pub parse-speaker_identity :
      (channel_id epoch generation c : ℕ) (nonce : Text)
      → channel_id < 100
      → All (λ x. is_alnum x ≡ true) (c ∷ nonce)
      → parse_speaker_identity u (speaker_identity channel_id epoch generation (c ∷ nonce))
        ≡ some (record {
          channel_id = channel_id;
          epoch = epoch;
          generation = generation;
          nonce = c ∷ nonce;
          raw = speaker_identity channel_id epoch generation (c ∷ nonce);
        })
  unfolding parse_speaker_identity speaker_identity nonce_of at_end
  parse-speaker_identity channel_id epoch generation c nonce h plain =
      let high : channel_id / 10 < 10 = omega arith in
      let low : channel_id % 10 < 10 = omega arith in
      let whole : channel_id / 10 * 10 + channel_id % 10 ≡ channel_id = omega arith in
      rw (two_digits_lem channel_id h) (
        simp
          (
            one_digit-ascii (channel_id / 10) _ high,
            one_digit-ascii (channel_id % 10) _ low,
            number-decimal,
            alnum_run-All (c ∷ nonce) plain,
          )
          (rw whole))

  abbrev channel_or : ℕ → Option SpeakerIdentity → ℕ
  channel_or d none = d
  channel_or d (some r) = r.channel_id

  abbrev nonce_or : Option SpeakerIdentity → Text
  nonce_or none = []
  nonce_or (some r) = r.nonce

  abbrev numbers_or : Option SpeakerIdentity → ℕ × ℕ
  numbers_or none = (0, 0)
  numbers_or (some r) = (r.epoch, r.generation)

  -- Two printed identities, of channels below 100 and with nonces of letters and digits, are equal
  -- only if their channels, epochs, generations and nonces are.
  pub speaker_identity_injective :
      (k₁ k₂ e₁ e₂ g₁ g₂ c₁ c₂ : ℕ) (n₁ n₂ : Text)
      → k₁ < 100
      → k₂ < 100
      → All (λ x. is_alnum x ≡ true) (c₁ ∷ n₁)
      → All (λ x. is_alnum x ≡ true) (c₂ ∷ n₂)
      → speaker_identity k₁ e₁ g₁ (c₁ ∷ n₁) ≡ speaker_identity k₂ e₂ g₂ (c₂ ∷ n₂)
      → (k₁ ≡ k₂) × (e₁ ≡ e₂) × (g₁ ≡ g₂) × (c₁ ∷ n₁ ≡ c₂ ∷ n₂)
  speaker_identity_injective k₁ k₂ e₁ e₂ g₁ g₂ c₁ c₂ n₁ n₂ h₁ h₂ p₁ p₂ same =
      let a = parse-speaker_identity k₁ e₁ g₁ c₁ n₁ h₁ p₁ in
      let b = parse-speaker_identity k₂ e₂ g₂ c₂ n₂ h₂ p₂ in
      let e = sym a ∙ ap (parse_speaker_identity u) same ∙ b in
      (
        ap (channel_or 0) e,
        ap (λ o. (numbers_or o).0) e,
        ap (λ o. (numbers_or o).1) e,
        ap nonce_or e,
      )

ascii_value : ℕ → Option ℕ
ascii_value c = if ltb c 48 then none else if ltb c 58 then some (c - 48) else none

ascii_value-digit : (d : ℕ) → d < 10 → ascii_value (48 + d) ≡ some d
unfolding ascii_value
ascii_value-digit d h = ground arith

ascii_value-dash : ascii_value b'-' ≡ none
unfolding ascii_value
ascii_value-dash = refl

-- The digits of ASCII alone.
unfoldable pub ascii_digits : Digits
unfolding ascii_value ascii_value-digit ascii_value-dash
ascii_digits = record {
  digit_value = ascii_value;
  ascii = ascii_value-digit;
  dash = ascii_value-dash;
}
