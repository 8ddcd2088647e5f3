-- ===== src/Identity/Roles.antt =====
-- A speaker's identity has no other role.
use ev211_field_server.Base.{
  ◌≡◌, refl, ap, sym, false, Option, none, some, [], ◌∷◌, Text, codes, arith, >>=-eq-some, nat_eq,
}
use ev211_field_server.Identity.{
  Digits, SpeakerIdentity, strip, one_digit, number, alnum_run, nonce_of, is_monitor_identity,
  is_listener_identity, is_intercom_identity, parse_speaker_identity,
}
use ev211_field_server.State.{is_empty_text}

speaker_start :
    (s t : Text)
    → strip (codes "speaker-ch-") s ≡ some t
    → (is_monitor_identity s ≡ false)
      × (is_listener_identity s ≡ false)
      × (is_intercom_identity s ≡ false)
unfolding strip is_monitor_identity is_listener_identity is_intercom_identity
speaker_start [] t e = cc
speaker_start (c ∷ s) t e = ground arith

-- An empty text does not parse.
pub parsed_filled :
    (u : Digits) (identity : Text) (r : SpeakerIdentity)
    → parse_speaker_identity u identity ≡ some r
    → is_empty_text identity ≡ false
unfolding parse_speaker_identity strip
parsed_filled u [] r e = cc
parsed_filled u (c ∷ t) r e = refl

raw_or : Option SpeakerIdentity → Text
raw_or none = []
raw_or (some r) = r.raw

module _ (u : Digits) where
  -- What parses as a speaker's identity is no monitor's, listener's or intercom participant's, and
  -- the parts keep the whole text.
  pub parsed_is_speaker :
      (identity : Text) (r : SpeakerIdentity)
      → parse_speaker_identity u identity ≡ some r
      → (r.raw ≡ identity)
        × (is_monitor_identity identity ≡ false)
        × (is_listener_identity identity ≡ false)
        × (is_intercom_identity identity ≡ false)
  unfolding parse_speaker_identity raw_or
  parsed_is_speaker identity r e =
      let (s₀, start, e₀) = >>=-eq-some (strip (codes "speaker-ch-") identity) _ e in
      let (p₁, _, e₁) = >>=-eq-some (one_digit u s₀) _ e₀ in
      let (p₂, _, e₂) = >>=-eq-some (one_digit u p₁.1) _ e₁ in
      let (s₃, _, e₃) = >>=-eq-some (strip (codes "-e") p₂.1) _ e₂ in
      let (p₄, _, e₄) = >>=-eq-some (number u 0 false s₃) _ e₃ in
      let (s₅, _, e₅) = >>=-eq-some (strip (codes "-g") p₄.1) _ e₄ in
      let (p₆, _, e₆) = >>=-eq-some (number u 0 false s₅) _ e₅ in
      let (s₇, _, e₇) = >>=-eq-some (strip (codes "-n") p₆.1) _ e₆ in
      let (nonce, _, e₈) = >>=-eq-some (nonce_of (alnum_run s₇)) _ e₇ in
      let (monitor, listener, intercom) = speaker_start identity s₀ start in
      (ap (λ o. raw_or o) (sym e₈), monitor, listener, intercom)
