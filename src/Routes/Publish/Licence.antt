-- ===== src/Routes/Publish/Licence.antt =====
-- What a token of a speaker is worth: its holder passes the checks of the webhooks.
use ev211_field_server.Base.{
  ℕ, ◌≡◌, ◌∙◌, ◌<◌, refl, ap, inl, inr, true, false, Option, none, some, ◌∷◌, Text, codes, nat_eq,
  text_eq, text_beq_iff, nat_beq_iff, All, ok, Bool-cases, arith,
}
use ev211_field_server.Base.Dict.{get-put}
use ev211_field_server.Identity.{
  SpeakerIdentity, speaker_identity, is_alnum, parse_speaker_identity,
}
use ev211_field_server.Identity.RoundTrip.{parse-speaker_identity}
use ev211_field_server.HttpUtil.{Request}
use ev211_field_server.Database.Rows.{ChannelRow, LeaseRow, is_open, is_ai, send, relay}
use ev211_field_server.Database.Channels.{get_channel}
use ev211_field_server.Database.Leases.{
  get_lease, found_identity, acquire_lease, extend_lease_if_identity, release_lease_if_identity,
  new_lease,
}
use ev211_field_server.State.{AppState, room}
use ev211_field_server.Webhook.{is_unlicensed, is_violation}
use ev211_field_server.Webhook.Effects.{record_signal_event_core}
use ev211_field_server.Tokens.{
  TokenReply, publish_ttl_seconds, issue_publish_token, publish_response,
}
use ev211_field_server.Site.{World, Site, refuse_if}
use ev211_field_server.Site.Steps.{Gives, Anything, >>=-Gives, >>=-skip, refuse_if-Gives, gives_ok}
use ev211_field_server.Routes.Publish.{
  open_channel, if_open, settle_joined, acquire, publish_signalled, publish_human, publish_locked,
  issue_publish,
}
use ev211_field_server.Routes.Guards.{
  channel_busy, send_guard, resend, wait, ip_of, invalid_password,
}
use ev211_field_server.Routes.Calls.{ensure_room, ensure, record_signal, route_signal}

-- The channels, the leases and the generation.
pub record SameLedger (s t : AppState) : Type 0 where
  pub channels : s.db.channels ≡ t.db.channels
  pub leases : s.db.leases ≡ t.db.leases
  pub generation : s.generation ≡ t.generation

-- An open channel of people, with its row.
abbrev pub IsHuman : ℕ → ChannelRow → AppState → Type 0
IsHuman k c s = (get_channel s.db k ≡ some c) × (is_open c.state ≡ true) × (is_ai c.source ≡ false)

abbrev pub IsFound : ℕ → ChannelRow → AppState → Type 0
IsFound k c s = (get_channel s.db k ≡ some c) × (is_open c.state ≡ true)

if_open-Gives :
    (R : Site → Type 0) (o : Option ChannelRow) (s : Site)
    → R s
    → Gives (λ c t. (t ≡ s) × (o ≡ some c) × (is_open c.state ≡ true)) R (if_open o s)
if_open-Gives R none s r = r
if_open-Gives R (some c) s r = elim (Bool-cases (is_open c.state)) [
  | inl good ↦ rw (good, if_open) (refl, refl, good)
  | inr bad ↦ rw (bad, if_open) r
]

open_channel-Gives :
    (R : Site → Type 0) (k : ℕ) (s : Site)
    → R s
    → Gives
        (λ c t. (t ≡ s) × (get_channel s.app.db k ≡ some c) × (is_open c.state ≡ true))
        R
        (open_channel k s)
unfolding open_channel
open_channel-Gives R k s r = if_open-Gives R (get_channel s.app.db k) s r

open-IsFound-Gives :
    (k : ℕ) (s : Site) → Gives (λ c t. IsFound k c t.app) Anything (open_channel k s)
unfolding open_channel get_channel
open-IsFound-Gives k s = ground arith

module _ (w : World) (now : ℕ) where
  ensure_room_keeps : (s : Site) → SameLedger (ensure_room w s).1.app s.app
  unfolding ensure_room ensure
  ensure_room_keeps s = ground arith

  pub signalled_keeps :
      (k : ℕ) (identity ip : Text) (s : Site)
      → SameLedger (publish_signalled w now k identity ip s).1.app s.app
  unfolding record_signal
  signalled_keeps k identity ip s =
      let kept =
        record_signal_event_core w.env.hash now
          (route_signal w send (codes "token_issued") relay (some k) (room s.app) none identity ip)
          s.app in
      record { channels = kept.channels; leases = kept.leases; generation = kept.generation }

  -- The identity of a channel's lease, of the row's epoch and the current generation.
  abbrev pub IsHeld : ℕ → ChannelRow → Text → AppState → Type 0
  IsHeld k c identity s =
      IsHuman k c s
      × (identity ≡ speaker_identity k c.epoch s.generation w.nonce)
      × (found_identity (get_lease s.db k) identity ≡ true)

  ensure_room-Gives :
      (k : ℕ) (c : ChannelRow) (s : Site)
      → IsHuman k c s.app
      → Gives (λ _ t. IsHuman k c t.app) Anything (ensure_room w s)
  unfolding ensure_room ensure get_channel
  ensure_room-Gives k c s h = ground arith

  acquire-Gives :
      (k : ℕ) (c : ChannelRow) (s : Site)
      → IsHuman k c s.app
      → Gives (λ i t. IsHeld k c i t.app) Anything (acquire w now k c.epoch s)
  unfolding acquire acquire_lease get_lease new_lease get_channel
  acquire-Gives k c s h =
      let identity = speaker_identity k c.epoch s.app.generation w.nonce in
      ground (
        arith,
        text_beq_iff identity identity,
        nat_beq_iff k k,
        get-put s.app.db.leases k k
            (new_lease now k c.epoch s.app.generation w.nonce publish_ttl_seconds),
      )

  settle-Gives :
      (k : ℕ) (c : ChannelRow) (o : Option LeaseRow) (s : Site)
      → IsHuman k c s.app
      → Gives (λ _ t. IsHuman k c t.app) Anything (settle_joined w now k o s)
  unfolding settle_joined extend_lease_if_identity release_lease_if_identity get_channel
  settle-Gives k c none s h = h
  settle-Gives k c (some l) s h = ground arith

  signal-Gives :
      (k : ℕ) (c : ChannelRow) (i ip : Text) (s : Site)
      → IsHeld k c i s.app
      → Gives (λ _ t. IsHeld k c i t.app) Anything (publish_signalled w now k i ip s)
  unfolding record_signal get_lease get_channel
  signal-Gives k c i ip s h = ground (arith, signalled_keeps k i ip s)

  abbrev pub IsWorth : ℕ → TokenReply → Site → Type 0
  IsWorth k r t = (c : ChannelRow) × IsHeld k c r.token.identity t.app

  -- The rest of the route on an open channel of people.
  publish_human-Gives :
      (ip : Text) (k : ℕ) (c : ChannelRow) (s : Site)
      → IsHuman k c s.app
      → Gives (IsWorth k) Anything (publish_human w now ip k c s)
  unfolding publish_human issue_publish_token publish_response
  publish_human-Gives ip k c s human =
      >>=-Gives (λ _ t. IsHuman k c t.app) (IsWorth k) Anything (ensure_room w) _ s
        (ensure_room-Gives k c s human)
        (λ _ t human₁.
          >>=-Gives (λ _ u. IsHuman k c u.app) (IsWorth k) Anything
            (settle_joined w now k (get_lease t.app.db k)) _ t
            (settle-Gives k c (get_lease t.app.db k) t human₁)
            (λ _ u human₂.
              >>=-Gives (λ i v. IsHeld k c i v.app) (IsWorth k) Anything (acquire w now k c.epoch) _
                u (acquire-Gives k c u human₂)
                (λ i v held.
                  >>=-Gives (λ _ x. IsHeld k c i x.app) (IsWorth k) Anything
                    (publish_signalled w now k i ip) _ v (signal-Gives k c i ip v held)
                    (λ _ x held₁. (c, held₁)))))

  publish_locked-Gives :
      (ip : Text) (k : ℕ) (s : Site) → Gives (IsWorth k) Anything (publish_locked w now ip k s)
  unfolding publish_locked
  publish_locked-Gives ip k s =
      >>=-Gives (λ c t. IsFound k c t.app) (IsWorth k) Anything (open_channel k) _ s
        (open-IsFound-Gives k s)
        (λ c t found.
          >>=-Gives (λ _ u. IsHuman k c u.app) (IsWorth k) Anything
            (refuse_if (is_ai c.source) channel_busy) _ t
            (refuse_if-Gives (λ u. IsHuman k c u.app) Anything (is_ai c.source) channel_busy t
              (λ human. (found.0, found.1, human)) tt)
            (λ _ u human. publish_human-Gives ip k c u human))

  issue_publish-Gives :
      (r : Request) (k : ℕ) (authorization : Option Text) (s : Site)
      → Gives (IsWorth k) Anything (issue_publish w now r k authorization s)
  unfolding issue_publish
  issue_publish-Gives r k authorization s =
      >>=-skip (IsWorth k) (send_guard w invalid_password now r authorization) _ s (λ _ t.
        >>=-skip (IsWorth k) (open_channel k) _ t (λ _ u.
          >>=-skip (IsWorth k) (wait w 0) _ u (λ _ v.
            >>=-skip (IsWorth k) (resend w invalid_password now authorization) _ v (λ _ x.
              >>=-skip (IsWorth k) (wait w 1) _ x (λ _ y. publish_locked-Gives (ip_of w r) k y)))))

  -- The holder of an identity passes the checks of a publication.
  abbrev pub IsLicensed : ℕ → Text → AppState → Type 0
  IsLicensed k identity s =
      (p : SpeakerIdentity) × (parse_speaker_identity w.env.digits identity ≡ some p)
      × (p.channel_id ≡ k)
      × (is_unlicensed w.env p identity s ≡ false)

  held-IsLicensed :
      (k : ℕ) (c : ChannelRow) (identity : Text) (s : AppState) (b : ℕ) (n : Text)
      → k < 100
      → w.nonce ≡ b ∷ n
      → All (λ x. is_alnum x ≡ true) (b ∷ n)
      → IsHeld k c identity s
      → IsLicensed k identity s
  unfolding is_unlicensed is_violation
  held-IsLicensed k c identity s b n small fresh plain ((found, opened, human), printed, holds) =
      let text : Text = speaker_identity k c.epoch s.generation (b ∷ n) in
      let same : identity ≡ text =
        printed ∙ ap (λ x. speaker_identity k c.epoch s.generation x) fresh in
      let p : SpeakerIdentity = record {
        channel_id = k;
        epoch = c.epoch;
        generation = s.generation;
        nonce = b ∷ n;
        raw = text;
      } in
      (
        p,
        ap (parse_speaker_identity w.env.digits) same
            ∙ parse-speaker_identity w.env.digits k c.epoch s.generation b n small plain,
        refl,
        ground (arith, found, opened, holds, nat_beq_iff s.generation s.generation),
      )

  -- A token that issue_publish answers, on a channel below 100 with a nonce of letters and digits,
  -- names an identity that parses to its channel and that the state behind the route licenses to
  -- publish there, whatever other requests did during the waits.
  pub issued-IsLicensed :
      (r : Request) (k : ℕ) (authorization : Option Text) (s : Site) (b : ℕ) (n : Text)
      (reply : TokenReply) (t : Site)
      → k < 100
      → w.nonce ≡ b ∷ n
      → All (λ x. is_alnum x ≡ true) (b ∷ n)
      → issue_publish w now r k authorization s ≡ (ok reply, t)
      → IsLicensed k reply.token.identity t.app
  issued-IsLicensed r k authorization s b n reply t small fresh plain answered =
      let (c, held) =
        gives_ok (IsWorth k) Anything (issue_publish w now r k authorization s) answered
          (issue_publish-Gives r k authorization s) in
      held-IsLicensed k c reply.token.identity t.app b n small fresh plain held
