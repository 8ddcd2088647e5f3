-- ===== src/Webhook/Effects.antt =====
-- What each part of a handling leaves as it was.
use ev211_field_server.Base.{
  ℕ, ◌≡◌, ◌⊎◌, refl, Bool-cases, List, Option, none, some, [], ◌∷◌, Text, text_eq, Option-cases,
  inl, inr, arith,
}
use ev211_field_server.Database.Rows.{
  Database, Direction, Scope, EventType, participant_joined, participant_left,
  participant_connection_aborted, track_published, track_unpublished, other,
}
use ev211_field_server.Identity.{SpeakerIdentity, parse_speaker_identity, is_listener_identity}
use ev211_field_server.Database.Channels.{track_of}
use ev211_field_server.Database.Leases.{mark_lease_joined, release_lease_if_identity}
use ev211_field_server.Database.Signals
use ev211_field_server.Database.Usage.{open_usage_session, close_usage_session}
use ev211_field_server.State.{
  AppState, room, Signal, generation_or, clip, subject_hash, open_for_join, track_by_type,
  track_usage, record_signal_event,
}
use ev211_field_server.Webhook.{
  joined_speaker, joined_identity, on_joined, published_speaker, published_identity,
  on_track_published, unpublished_identity, on_track_unpublished, joined_parsed, published_parsed,
  left_parsed, left_identity, on_left, dispatch, published_listed, is_unlicensed, is_wrong_track,
  listed_participants, is_exempt,
}
use ev211_field_server.EventLog.{record_event, audited}
use ev211_field_server.Events.{Participant, Env, WebhookEvent, remove, strike_and_remove}

-- The audit log and the accounting leave all this alone.
pub record SameCore (s t : AppState) : Type 0 where
  pub channels : s.db.channels ≡ t.db.channels
  pub leases : s.db.leases ≡ t.db.leases
  pub processed : s.db.processed_webhooks ≡ t.db.processed_webhooks
  pub on_air : s.on_air ≡ t.on_air
  pub blocklist : s.blocklist ≡ t.blocklist
  pub generation : s.generation ≡ t.generation

open_for_join_core :
    (now : ℕ) (d : Direction) (sc : Scope) (k : Option ℕ) (h : Text) (s : AppState)
    → SameCore (open_for_join now d sc k h s) s
unfolding open_for_join open_usage_session
open_for_join_core now d sc k h s = ground arith

track_usage_core :
    (now : ℕ) (d : Direction) (e : EventType) (sc : Scope) (k : Option ℕ) (h : Option Text)
    (s : AppState)
    → SameCore (track_usage now d e sc k h s) s
unfolding track_usage track_by_type close_usage_session
track_usage_core now d e sc k none s = ground arith
track_usage_core now d e sc k (some []) s = ground arith
track_usage_core now d participant_joined sc k (some (c ∷ h)) s =
    open_for_join_core now d sc k (c ∷ h) s
track_usage_core now d participant_left sc k (some (c ∷ h)) s = ground arith
track_usage_core now d _ sc k (some (c ∷ h)) s = ground arith

logged_core :
    (now : ℕ) (d : Direction) (e : EventType) (sc : Scope) (k g : Option ℕ)
    (r t h c i : Option Text) (db : Database)
    → ((Signals.record_signal_event now d e sc k g r t h c i db).1.channels ≡ db.channels)
      × ((Signals.record_signal_event now d e sc k g r t h c i db).1.leases ≡ db.leases)
      × ((Signals.record_signal_event now d e sc k g r t h c i db).1.processed_webhooks
          ≡ db.processed_webhooks)
unfolding Signals.record_signal_event
logged_core now d e sc k g r t h c i db = ground arith

pub record_signal_event_core :
    (hash : Text → Text) (now : ℕ) (e : Signal) (s : AppState)
    → SameCore (record_signal_event hash now e s).1 s
unfolding record_signal_event
record_signal_event_core hash now e s =
    let logged =
      Signals.record_signal_event now e.direction e.event_type e.scope e.channel_id
        (some (generation_or e.generation s.generation)) (clip 128 e.room) (clip 128 e.track_name)
        (subject_hash hash e.subject) (clip 64 e.client_ip) (clip 128 e.source_event_id) s.db in
    ground (
      arith,
      logged_core now e.direction e.event_type e.scope e.channel_id
          (some (generation_or e.generation s.generation)) (clip 128 e.room) (clip 128 e.track_name)
          (subject_hash hash e.subject) (clip 64 e.client_ip) (clip 128 e.source_event_id) s.db,
      track_usage_core now e.direction e.event_type e.scope e.channel_id
          (subject_hash hash e.subject) (record s { db = logged.1 }),
    )

pub record_event_core :
    (env : Env) (now : ℕ) (e : WebhookEvent) (s : AppState) → SameCore (record_event env now e s) s
unfolding record_event
record_event_core env now e s = elim (Option-cases (audited env e)) [
  | inl silent ↦ rw silent (ground arith)
  | inr (signal, found) ↦ rw found (record_signal_event_core env.hash now signal s)
]

-- The ledger of processed events.
abbrev pub ledger : AppState → List (Text × ℕ)
ledger s = s.db.processed_webhooks

module _ (env : Env) where
  pub remove_core : (identity : Text) (s : AppState) → SameCore (remove env identity s).1 s
  unfolding remove
  remove_core identity s = ground arith

  strike_ledger :
      (identity : Text) (s : AppState) → ledger (strike_and_remove env identity s).1 ≡ ledger s
  unfolding strike_and_remove remove
  strike_ledger identity s = refl

  ledger-joined_speaker :
      (now : ℕ) (p : SpeakerIdentity) (identity : Text) (s : AppState)
      → ledger (joined_speaker env now p identity s).1 ≡ ledger s
  unfolding joined_speaker mark_lease_joined
  ledger-joined_speaker now p identity s = ground (arith, strike_ledger identity s)

  ledger-joined_parsed :
      (now : ℕ) (o : Option SpeakerIdentity) (identity : Text) (s : AppState)
      → ledger (joined_parsed env now o identity s).1 ≡ ledger s
  ledger-joined_parsed now none identity s = ground (arith, strike_ledger identity s)
  ledger-joined_parsed now (some p) identity s = ledger-joined_speaker now p identity s

  joined_ledger :
      (now : ℕ) (e : WebhookEvent) (s : AppState) → ledger (on_joined env now e s).1 ≡ ledger s
  unfolding on_joined joined_identity remove
  joined_ledger now e s = elim (Option-cases e.participant) [
    | inl nobody ↦ rw nobody refl
    | inr (identity, found) ↦ rw found (
        ground
          (arith, ledger-joined_parsed now (parse_speaker_identity env.digits identity) identity s))
  ]

  -- Either as it was, or as the other requests left it during the wait for the listing.
  abbrev pub IsKept : AppState → AppState → Type 0
  IsKept s t = (ledger t ≡ ledger s) ⊎ (ledger t ≡ ledger (env.meanwhile s))

  ledger-published_listed :
      (p : SpeakerIdentity) (identity : Text) (ps : List Participant) (s : AppState)
      → ledger (published_listed env p identity ps s).1 ≡ ledger s
  unfolding published_listed
  ledger-published_listed p identity ps s = ground (arith, strike_ledger identity s)

  published_speaker_ledger :
      (track : Option Text) (p : SpeakerIdentity) (identity : Text) (s : AppState)
      → IsKept s (published_speaker env track p identity s).1
  unfolding published_speaker
  published_speaker_ledger track p identity s = elim (Bool-cases (is_unlicensed env p identity s)) [
    | inl bad ↦ rw bad (inl (strike_ledger identity s))
    | inr good ↦ elim (Bool-cases (is_wrong_track env track (track_of p.channel_id))) [
      | inl wrong ↦ rw (good, wrong) (inl (strike_ledger identity s))
      | inr right ↦
          let ps = listed_participants env (env.participants (room s)) in
          rw (good, right) (inr (ledger-published_listed p identity ps (env.meanwhile s)))
    ]
  ]

  published_parsed_ledger :
      (track : Option Text) (o : Option SpeakerIdentity) (identity : Text) (s : AppState)
      → IsKept s (published_parsed env track o identity s).1
  published_parsed_ledger track none identity s =
      elim (Bool-cases (is_listener_identity identity)) [
        | inl listener ↦ rw listener (inl refl)
        | inr stranger ↦ rw stranger (inl (strike_ledger identity s))
      ]
  published_parsed_ledger track (some p) identity s = published_speaker_ledger track p identity s

  published_ledger : (e : WebhookEvent) (s : AppState) → IsKept s (on_track_published env e s).1
  unfolding on_track_published published_identity
  published_ledger e s = elim (Option-cases e.participant) [
    | inl nobody ↦ rw nobody (inl refl)
    | inr (identity, found) ↦ elim (Bool-cases (is_exempt env identity)) [
      | inl exempt ↦ rw (found, exempt) (inl refl)
      | inr member ↦
          rw (found, member)
            (published_parsed_ledger e.track (parse_speaker_identity env.digits identity) identity
              s)
    ]
  ]

  unpublished_ledger :
      (e : WebhookEvent) (s : AppState) → ledger (on_track_unpublished env e s).1 ≡ ledger s
  unfolding on_track_unpublished unpublished_identity
  unpublished_ledger e s = ground arith

  left_ledger : (e : WebhookEvent) (s : AppState) → ledger (on_left env e s).1 ≡ ledger s
  unfolding on_left left_identity left_parsed release_lease_if_identity
  left_ledger e s = ground arith

  -- No handler writes the ledger of processed events.
  pub dispatch_ledger :
      (kind : EventType) (now : ℕ) (e : WebhookEvent) (s : AppState)
      → IsKept s (dispatch env kind now e s).1
  unfolding dispatch
  dispatch_ledger participant_joined now e s = inl (joined_ledger now e s)
  dispatch_ledger track_published now e s = published_ledger e s
  dispatch_ledger track_unpublished now e s = inl (unpublished_ledger e s)
  dispatch_ledger participant_left now e s = inl (left_ledger e s)
  dispatch_ledger participant_connection_aborted now e s = inl (left_ledger e s)
  dispatch_ledger (other name) now e s = inl refl
