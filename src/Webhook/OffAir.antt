-- ===== src/Webhook/OffAir.antt =====
-- Joins, ends of publications and leaves put no channel on air.
use ev211_field_server.Base.{
  ℕ, ◌≡◌, refl, false, Option, none, some, Text, text_eq, nat_eq, Option-cases, inl, inr, arith,
}
use ev211_field_server.Identity.{SpeakerIdentity, parse_speaker_identity}
use ev211_field_server.OnAir.{is_on_air, is_on_air-set_publishing, is_on_air-clear_channel}
use ev211_field_server.State.{AppState}
use ev211_field_server.Webhook.{
  joined_speaker, joined_parsed, joined_identity, on_joined, unpublished_identity,
  unpublished_parsed, on_track_unpublished, left_parsed, left_identity, on_left,
}
use ev211_field_server.Events.{Env, WebhookEvent, remove, strike_and_remove}

module _ (env : Env) (k : ℕ) where
  pub strike_air :
      (identity : Text) (s : AppState) → (strike_and_remove env identity s).1.on_air ≡ s.on_air
  unfolding strike_and_remove remove
  strike_air identity s = refl

  joined_parsed_air :
      (now : ℕ) (o : Option SpeakerIdentity) (identity : Text) (s : AppState)
      → (joined_parsed env now o identity s).1.on_air ≡ s.on_air
  unfolding joined_speaker
  joined_parsed_air now none identity s = ground (arith, strike_air identity s)
  joined_parsed_air now (some p) identity s = ground (arith, strike_air identity s)

  pub joined_air :
      (now : ℕ) (e : WebhookEvent) (s : AppState) → (on_joined env now e s).1.on_air ≡ s.on_air
  unfolding on_joined joined_identity remove
  joined_air now e s = elim (Option-cases e.participant) [
    | inl nobody ↦ rw nobody
    | inr (identity, found) ↦ rw found (
        ground
          (arith, joined_parsed_air now (parse_speaker_identity env.digits identity) identity s))
  ]

  unpublished_parsed_air :
      (o : Option SpeakerIdentity) (identity : Text) (s : AppState)
      → is_on_air s.on_air k ≡ false
      → is_on_air (unpublished_parsed env o identity s).on_air k ≡ false
  unpublished_parsed_air none identity s off = off
  unpublished_parsed_air (some p) identity s off =
      ground (arith, off, is_on_air-set_publishing p.channel_id k false s.on_air)

  pub unpublished_air :
      (e : WebhookEvent) (s : AppState)
      → is_on_air s.on_air k ≡ false
      → is_on_air (on_track_unpublished env e s).1.on_air k ≡ false
  unfolding on_track_unpublished unpublished_identity
  unpublished_air e s off = elim (Option-cases e.participant) [
    | inl nobody ↦ rw nobody off
    | inr (identity, found) ↦ rw found (
        ground (
          arith,
          off,
          unpublished_parsed_air (parse_speaker_identity env.digits identity) identity s off,
        ))
  ]

  left_parsed_air :
      (o : Option SpeakerIdentity) (identity : Text) (s : AppState)
      → is_on_air s.on_air k ≡ false
      → is_on_air (left_parsed env o identity s).on_air k ≡ false
  unfolding left_parsed
  left_parsed_air none identity s off = off
  left_parsed_air (some p) identity s off =
      ground (arith, off, is_on_air-clear_channel p.channel_id k s.on_air)

  pub left_air :
      (e : WebhookEvent) (s : AppState)
      → is_on_air s.on_air k ≡ false
      → is_on_air (on_left env e s).1.on_air k ≡ false
  unfolding on_left left_identity
  left_air e s off = elim (Option-cases e.participant) [
    | inl nobody ↦ rw nobody off
    | inr (identity, found) ↦ rw found (
        ground
          (arith, off, left_parsed_air (parse_speaker_identity env.digits identity) identity s off))
  ]
