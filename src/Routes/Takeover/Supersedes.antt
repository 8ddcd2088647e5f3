-- ===== src/Routes/Takeover/Supersedes.antt =====
-- What a takeover does to the speaker before, and what a failed one leaves.
use ev211_field_server.Base.{
  ◌<◌, List, inl, inr, Option-cases, ℕ, ◌+◌, ◌≡◌, ◌∙◌, ◌≤◌, refl, sym, ap, true, Option, none, some,
  Text, nat_eq, text_eq, text_beq_iff, nat_beq_iff, ok, raised, arith,
}
use mathlib.Core.Path.{subst}
use ev211_field_server.Base.Dict.{get-put, get-modify}
use ev211_field_server.Identity.{SpeakerIdentity, speaker_identity}
use ev211_field_server.Database.Rows.{Database, ChannelRow, LeaseRow, is_open, is_ai}
use ev211_field_server.Database.Channels.{get_channel, bump_channel_epoch}
use ev211_field_server.Base.Dict
use ev211_field_server.Database.Channels.Lifecycle.{
  ChannelOp, run_ops, epoch_of, epoch_or_zero, epoch_never_falls,
}
use ev211_field_server.Database.Leases.{get_lease, force_acquire_lease, new_lease}
use ev211_field_server.State.{AppState}
use ev211_field_server.Webhook.{is_violation}
use ev211_field_server.Tokens.{
  TokenReply, publish_ttl_seconds, issue_publish_token, publish_response,
}
use ev211_field_server.Site.{World, Site, Refusal, gets, refuse_if}
use ev211_field_server.Site.Steps.{Gives, >>=-Gives, refuse_if-Gives, gives_ok, gives_raised}
use ev211_field_server.Routes.Guards.{channel_busy}
use ev211_field_server.Routes.Calls.{ensure_room, ensure, try_remove, record_signal}
use ev211_field_server.Routes.Publish.{open_channel, publish_signalled, publish_reply}
use ev211_field_server.Routes.Publish.Licence.{IsHuman, IsHeld, signalled_keeps}
use ev211_field_server.Routes.Takeover.{
  remove_or_refuse, bump_epoch, seize, takeover_human, takeover_locked,
}

abbrev pub raised_row : ChannelRow → ChannelRow
raised_row c = record c { epoch = c.epoch + 1 }

module _ (w : World) (now : ℕ) (d : Database) (k : ℕ) where
  abbrev Untouched : Site → Type 0
  Untouched t = t.app.db ≡ d

  abbrev IsBefore : ChannelRow → Site → Type 0
  IsBefore c t = (t.app.db ≡ d) × IsHuman k c t.app

  -- Behind a takeover the channel has the next epoch and the lease of the identity answered.
  abbrev pub IsTaken : ChannelRow → Text → Site → Type 0
  IsTaken c identity t = IsHeld w now k (raised_row c) identity t.app

  ensure-Before :
      (c : ChannelRow) (s : Site)
      → IsBefore c s
      → Gives (λ _ t. IsBefore c t) Untouched (ensure_room w s)
  unfolding ensure_room ensure
  ensure-Before c s h = ground arith

  remove-Before :
      (c : ChannelRow) (o : Option LeaseRow) (s : Site)
      → IsBefore c s
      → Gives (λ _ t. IsBefore c t) Untouched (remove_or_refuse w now o s)
  unfolding remove_or_refuse try_remove
  remove-Before c none s h = h
  remove-Before c (some l) s h = ground arith

  bump-Gives :
      (c : ChannelRow) (s : Site)
      → IsBefore c s
      → Gives
          (λ e t. (e ≡ c.epoch + 1) × IsHuman k (raised_row c) t.app)
          Untouched
          (bump_epoch w now k s)
  unfolding bump_epoch bump_channel_epoch get_channel
  bump-Gives c s h = ground (
    arith,
    nat_beq_iff k k,
    get-modify s.app.db.channels k k (λ a. record a { epoch = a.epoch + 1 }),
  )

  seize-Gives :
      (c : ChannelRow) (e : ℕ) (s : Site)
      → e ≡ c.epoch + 1
      → IsHuman k (raised_row c) s.app
      → Gives (λ i t. IsTaken c i t) Untouched (seize w now k e s)
  unfolding seize force_acquire_lease get_channel get_lease new_lease
  seize-Gives c e s same h =
      let identity = speaker_identity k e s.app.generation w.nonce in
      ground (
        arith,
        text_beq_iff identity identity,
        nat_beq_iff k k,
        get-put s.app.db.leases k k
            (new_lease now k e s.app.generation w.nonce publish_ttl_seconds),
      )

  signal-Taken :
      (c : ChannelRow) (i ip : Text) (s : Site)
      → IsTaken c i s
      → Gives (λ _ t. IsTaken c i t) Untouched (publish_signalled w now k i ip s)
  unfolding record_signal get_lease get_channel
  signal-Taken c i ip s h = ground (arith, signalled_keeps w now k i ip s)

  abbrev IsTakenOver : TokenReply → Site → Type 0
  IsTakenOver r t = (c : ChannelRow) × (get_channel d k ≡ some c) × IsTaken c r.token.identity t

  takeover_human-Gives :
      (ip : Text) (c : ChannelRow) (s : Site)
      → get_channel d k ≡ some c
      → IsBefore c s
      → Gives IsTakenOver Untouched (takeover_human w now ip k s)
  unfolding takeover_human issue_publish_token publish_response
  takeover_human-Gives ip c s row h =
      >>=-Gives (λ _ t. IsBefore c t) IsTakenOver Untouched (ensure_room w) _ s
        (ensure-Before c s h)
        (λ _ t h₁.
          >>=-Gives (λ _ u. IsBefore c u) IsTakenOver Untouched
            (remove_or_refuse w now (get_lease t.app.db k)) _ t
            (remove-Before c (get_lease t.app.db k) t h₁)
            (λ _ u h₂.
              >>=-Gives (λ e v. (e ≡ c.epoch + 1) × IsHuman k (raised_row c) v.app) IsTakenOver
                Untouched (bump_epoch w now k) _ u (bump-Gives c u h₂)
                (λ e v (same, h₃).
                  >>=-Gives (λ i x. IsTaken c i x) IsTakenOver Untouched (seize w now k e) _ v
                    (seize-Gives c e v same h₃)
                    (λ i x h₄.
                      >>=-Gives (λ _ y. IsTaken c i y) IsTakenOver Untouched
                        (publish_signalled w now k i ip) (λ _. gets (publish_reply w now k i e)) x
                        (signal-Taken c i ip x h₄) (λ _ y h₅. (c, row, h₅))))))

  found-Before :
      (s : Site)
      → Untouched s
      → Gives
          (λ c t.
            Untouched t
            × (get_channel d k ≡ some c)
            × (get_channel t.app.db k ≡ some c)
            × (is_open c.state ≡ true))
          Untouched
          (open_channel k s)
  unfolding open_channel get_channel
  found-Before s h = ground arith

  takeover_locked-Gives :
      (ip : Text) (s : Site)
      → Untouched s
      → Gives IsTakenOver Untouched (takeover_locked w now ip k s)
  unfolding takeover_locked
  takeover_locked-Gives ip s h =
      >>=-Gives _ IsTakenOver Untouched (open_channel k) _ s (found-Before s h)
        (λ c t (same, row, found, opened).
          >>=-Gives (λ _ u. IsBefore c u) IsTakenOver Untouched
            (refuse_if (is_ai c.source) channel_busy) _ t
            (refuse_if-Gives (IsBefore c) Untouched (is_ai c.source) channel_busy t
              (λ human. (same, (found, opened, human))) same)
            (λ _ u h₁. takeover_human-Gives ip c u row h₁))

-- Under its locks a takeover that is refused, as where LiveKit fails to remove the speaker, leaves
-- the whole database as it was.
pub failed_takeover_changes_nothing :
    (w : World) (now : ℕ) (ip : Text) (k : ℕ) (s : Site) (e : Refusal) (t : Site)
    → takeover_locked w now ip k s ≡ (raised e, t)
    → t.app.db ≡ s.app.db
failed_takeover_changes_nothing w now ip k s e t refused =
    gives_raised (IsTakenOver w now s.app.db k) (Untouched w now s.app.db k)
      (takeover_locked w now ip k s) refused (takeover_locked-Gives w now s.app.db k ip s refl)

abbrev row_or : ChannelRow → Option ChannelRow → ChannelRow
row_or d none = d
row_or d (some c) = c

-- Whoever is older than the channel's epoch breaks the rules, whatever the leases and generation.
older_violates :
    (w : World) (k : ℕ) (i : Text) (p : SpeakerIdentity) (u : AppState)
    → p.channel_id ≡ k
    → p.epoch < epoch_of u.db k
    → is_violation w.env p i u ≡ true
unfolding is_violation get_channel
older_violates w k i p u same old = elim (Option-cases (Dict.get u.db.channels k)) [
  | inl missing ↦ rw (same, missing) (ground arith)
  | inr (c, found) ↦ rw (same, found) (ground (arith, found, old))
]

raised_epoch :
    (k : ℕ) (c : ChannelRow) (s : AppState)
    → get_channel s.db k ≡ some (raised_row c)
    → epoch_of s.db k ≡ c.epoch + 1
unfolding get_channel
raised_epoch k c s found = rw found refl

-- A takeover that answers a token gives its channel the next epoch and the lease of the token's
-- identity, and behind any later run of creations, closings and epoch bumps of channels, whatever
-- the leases and the generation are then, whoever speaks on the channel with an epoch of at most
-- the former one breaks the rules of the webhooks.
pub takeover_supersedes :
    (w : World) (now : ℕ) (ip : Text) (k : ℕ) (s : Site) (r : TokenReply) (t : Site)
    (c : ChannelRow) (i : Text) (p : SpeakerIdentity) (ops : List ChannelOp) (u : AppState)
    → takeover_locked w now ip k s ≡ (ok r, t)
    → get_channel s.app.db k ≡ some c
    → p.channel_id ≡ k
    → p.epoch ≤ c.epoch
    → u.db.channels ≡ (run_ops t.app.db ops).channels
    → IsTaken w now s.app.db k c r.token.identity t × (is_violation w.env p i u ≡ true)
takeover_supersedes w now ip k s r t c i p ops u answered row same old later =
    let (a, found, taken) =
      gives_ok (IsTakenOver w now s.app.db k) (Untouched w now s.app.db k)
        (takeover_locked w now ip k s) answered
        (takeover_locked-Gives w now s.app.db k ip s refl) in
    let one : a ≡ c = ap (row_or a) (sym found ∙ row) in
    let taken₁ : IsTaken w now s.app.db k c r.token.identity t =
      subst (λ x. IsTaken w now s.app.db k x r.token.identity t) one taken in
    let epoch : epoch_of u.db k ≡ epoch_of (run_ops t.app.db ops) k =
      ap (λ rows. epoch_or_zero (Dict.get rows k)) later in
    (
      taken₁,
      older_violates w k i p u same (
          omega (
            arith,
            old,
            epoch,
            raised_epoch k c t.app taken₁.0.0,
            epoch_never_falls t.app.db ops k,
          )),
    )
