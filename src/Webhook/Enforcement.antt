-- ===== src/Webhook/Enforcement.antt =====
-- Who gets on air, and who is removed.
use ev211_field_server.Base.{
  ℕ, ◌≡◌, ◌∙◌, refl, true, false, List, Option, none, some, Text, text_eq, nat_eq, text_beq_iff,
  Option-cases, inl, inr, arith,
}
use ev211_field_server.Identity.{SpeakerIdentity, parse_speaker_identity}
use ev211_field_server.OnAir.{is_on_air, is_on_air-set_publishing}
use ev211_field_server.Database.Rows.{
  EventType, participant_joined, participant_left, participant_connection_aborted, track_published,
  track_unpublished, other,
}
use ev211_field_server.Database.Channels.{get_channel, track_of}
use ev211_field_server.Database.Leases.{get_lease, found_identity}
use ev211_field_server.State.{AppState, room}
use ev211_field_server.Webhook.{
  is_violation, is_unlicensed, older_epoch, channel_open, is_wrong_track, listed_participants,
  published_listed, published_speaker, published_parsed, published_identity, on_track_published,
  dispatch, commit, finish, process, handle,
}
use ev211_field_server.EventLog.{record_event}
use ev211_field_server.Events.{Participant, Env, WebhookEvent, Outcome, done, failed}
use ev211_field_server.Webhook.Effects.{SameCore, record_event_core}
use ev211_field_server.Webhook.OffAir.{strike_air, joined_air, unpublished_air, left_air}

-- The event announces the track of the channel `k` by the holder of the channel's lease: of this
-- generation, of an epoch that is not outdated, on an open channel and under the channel's name.
pub record IsLicensed (env : Env) (e : WebhookEvent) (s : AppState) (k : ℕ) : Type 0 where
  pub published : e.event ≡ track_published
  pub identity : Text
  pub speaker : SpeakerIdentity
  pub announced : e.participant ≡ some identity
  pub parsed : parse_speaker_identity env.digits identity ≡ some speaker
  pub channel : speaker.channel_id ≡ k
  pub generation : speaker.generation ≡ s.generation
  pub epoch : older_epoch env speaker (get_channel s.db k) ≡ false
  pub opened : channel_open env (get_channel s.db k) ≡ true
  pub holder : found_identity (get_lease s.db k) identity ≡ true
  pub track : e.track ≡ some (track_of k)

module _ (env : Env) (k : ℕ) where
  track_is :
      (track : Option Text) (expected : Text)
      → is_wrong_track env track expected ≡ false
      → track ≡ some expected
  track_is none expected h = cc
  track_is (some name) expected h = ground (arith, text_beq_iff name expected)

  -- What the other requests do during the wait does not put the channel on air.
  abbrev pub Quiet : Type 0
  Quiet =
      (t : AppState) → is_on_air t.on_air k ≡ false → is_on_air (env.meanwhile t).on_air k ≡ false

  published_listed_air :
      (p : SpeakerIdentity) (identity : Text) (ps : List Participant) (s : AppState)
      → is_on_air s.on_air k ≡ false
      → is_on_air (published_listed env p identity ps s).1.on_air k ≡ true
      → p.channel_id ≡ k
  unfolding published_listed
  published_listed_air p identity ps s off on = ground (
    arith,
    strike_air env k identity s,
    is_on_air-set_publishing p.channel_id k true s.on_air,
    nat_eq.same_iff p.channel_id k,
  )

  -- Only the last branch puts a channel on air.
  published_speaker_air :
      Quiet
      → (track : Option Text) (p : SpeakerIdentity) (identity : Text) (s : AppState)
      → is_on_air s.on_air k ≡ false
      → is_on_air (published_speaker env track p identity s).1.on_air k ≡ true
      → (p.channel_id ≡ k)
        × (is_unlicensed env p identity s ≡ false)
        × (track ≡ some (track_of p.channel_id))
  unfolding published_speaker
  published_speaker_air quiet track p identity s off on = (
    ground (
      arith,
      strike_air env k identity s,
      published_listed_air p identity (listed_participants env (env.participants (room s)))
          (env.meanwhile s) (quiet s off),
    ),
    ground (arith, strike_air env k identity s),
    track_is track (track_of p.channel_id) (ground (arith, strike_air env k identity s)),
  )

  licence :
      (e : WebhookEvent) (p : SpeakerIdentity) (identity : Text) (s : AppState)
      → e.event ≡ track_published
      → e.participant ≡ some identity
      → parse_speaker_identity env.digits identity ≡ some p
      → p.channel_id ≡ k
      → is_unlicensed env p identity s ≡ false
      → e.track ≡ some (track_of p.channel_id)
      → IsLicensed env e s k
  unfolding is_unlicensed is_violation
  licence e p identity s published announced parsed channel fine track = record {
    published = published;
    identity = identity;
    speaker = p;
    announced = announced;
    parsed = parsed;
    channel = channel;
    generation = ground (arith, nat_eq.same_iff p.generation s.generation);
    epoch = rw (← channel) (ground arith);
    opened = rw (← channel) (ground arith);
    holder = rw (← channel) (ground arith);
    track = rw (← channel) track;
  }

  published_parsed-IsLicensed :
      Quiet
      → (e : WebhookEvent) (o : Option SpeakerIdentity) (identity : Text) (s : AppState)
      → e.event ≡ track_published
      → e.participant ≡ some identity
      → parse_speaker_identity env.digits identity ≡ o
      → is_on_air s.on_air k ≡ false
      → is_on_air (published_parsed env e.track o identity s).1.on_air k ≡ true
      → IsLicensed env e s k
  published_parsed-IsLicensed quiet e none identity s published announced parsed off on =
      absurd (ground (arith, strike_air env k identity s))
  published_parsed-IsLicensed quiet e (some p) identity s published announced parsed off on =
      let (channel, fine, track) = published_speaker_air quiet e.track p identity s off on in
      licence e p identity s published announced parsed channel fine track

  published-IsLicensed :
      Quiet
      → (e : WebhookEvent) (s : AppState) → e.event ≡ track_published
      → is_on_air s.on_air k ≡ false
      → is_on_air (on_track_published env e s).1.on_air k ≡ true
      → IsLicensed env e s k
  unfolding on_track_published published_identity
  published-IsLicensed quiet e s published off on = elim (Option-cases e.participant) [
    | inl nobody ↦ absurd (ground arith)
    | inr (identity, found) ↦
        published_parsed-IsLicensed quiet e (parse_speaker_identity env.digits identity) identity s
          published found refl off (ground arith)
  ]

  dispatch-IsLicensed :
      Quiet
      → (kind : EventType) (now : ℕ) (e : WebhookEvent) (s : AppState) → e.event ≡ kind
      → is_on_air s.on_air k ≡ false
      → is_on_air (dispatch env kind now e s).1.on_air k ≡ true
      → IsLicensed env e s k
  unfolding dispatch
  dispatch-IsLicensed quiet participant_joined now e s same off on =
      absurd (ground (arith, joined_air env k now e s))
  dispatch-IsLicensed quiet track_published now e s same off on =
      published-IsLicensed quiet e s same off on
  dispatch-IsLicensed quiet track_unpublished now e s same off on =
      absurd (ground (arith, unpublished_air env k e s off))
  dispatch-IsLicensed quiet participant_left now e s same off on =
      absurd (ground (arith, left_air env k e s off))
  dispatch-IsLicensed quiet participant_connection_aborted now e s same off on =
      absurd (ground (arith, left_air env k e s off))
  dispatch-IsLicensed quiet (other name) now e s same off on = absurd (ground arith)

  commit_air : (now : ℕ) (id : Text) (s : AppState) → (commit env now id s).on_air ≡ s.on_air
  unfolding commit
  commit_air now id s = ground arith

  finish_air :
      (now : ℕ) (id : Text) (r : Outcome × AppState) → (finish env now id r).1.on_air ≡ r.1.on_air
  finish_air now id (done, s) = commit_air now id s
  finish_air now id (failed, s) = refl

  process-IsLicensed :
      Quiet
      → (now : ℕ) (e : WebhookEvent) (s : AppState) → is_on_air s.on_air k ≡ false
      → is_on_air (process env now e s).1.on_air k ≡ true
      → IsLicensed env e s k
  unfolding process
  process-IsLicensed quiet now e s off on = dispatch-IsLicensed quiet e.event now e s refl off (
      ground
        (arith, commit_air now e.id s, finish_air now e.id (dispatch env e.event now e s), off, on))

  core-IsLicensed :
      (e : WebhookEvent) (s t : AppState)
      → SameCore s t
      → IsLicensed env e s k
      → IsLicensed env e t k
  unfolding get_channel get_lease
  core-IsLicensed e s t core l = record {
    published = l.published;
    identity = l.identity;
    speaker = l.speaker;
    announced = l.announced;
    parsed = l.parsed;
    channel = l.channel;
    generation = l.generation ∙ core.generation;
    epoch = rw (← core.channels) l.epoch;
    opened = rw (← core.channels) l.opened;
    holder = rw (← core.leases) l.holder;
    track = l.track;
  }

-- Where no other request puts the channel on air while a publication waits for the listing, a
-- webhook behind which a channel is newly on air is the announcement of the channel's track by the
-- holder of its lease, of the current generation and no outdated epoch, while the channel is open:
-- all as the handling found them.
pub handle-IsLicensed :
    (env : Env) (k now : ℕ) (e : WebhookEvent) (s : AppState)
    → Quiet env k
    → is_on_air s.on_air k ≡ false
    → is_on_air (handle env now e s).1.on_air k ≡ true
    → IsLicensed env e s k
unfolding handle
handle-IsLicensed env k now e s quiet off on =
    core-IsLicensed env k e (record_event env now e s) s (record_event_core env now e s) (
      process-IsLicensed env k quiet now e (record_event env now e s)
        (ground (arith, record_event_core env now e s)) (ground arith))
