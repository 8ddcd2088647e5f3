-- ===== src/Webhook/Invariant.antt =====
-- The lease of a channel that is on air, over runs of webhooks.
use ev211_field_server.Base.{
  ℕ, ◌≡◌, ◌∙◌, refl, ap, sym, Bool, true, false, ◌||◌, not, Option, none, some, List, [], ◌∷◌, Text,
  ◌==◌, text_eq, nat_eq, All, Bool-cases, Option-cases, inl, inr, arith,
}
use ev211_field_server.Base.Dict.{get-modify}
use ev211_field_server.Identity.{SpeakerIdentity, parse_speaker_identity}
use ev211_field_server.OnAir.{is_on_air, is_on_air-set_publishing, is_on_air-clear_channel}
use ev211_field_server.Database.Rows.{
  Database, LeaseRow, EventType, participant_joined, participant_left,
  participant_connection_aborted, track_published, track_unpublished, other,
}
use ev211_field_server.Database.Channels.{track_of}
use ev211_field_server.Database.Leases.{get_lease, found_identity, mark_lease_joined, joined_row}
use ev211_field_server.Database.Leases.Release.{get_lease-release, released_by_identity}
use ev211_field_server.Database.Webhooks.{mark_webhook_processed}
use ev211_field_server.State.{AppState, room}
use ev211_field_server.Webhook.{
  joined_speaker, joined_parsed, joined_identity, on_joined, is_violation, is_unlicensed,
  is_wrong_track, listed_participants, published_listed, published_speaker, published_parsed,
  published_identity, on_track_published, unpublished_identity, unpublished_parsed,
  on_track_unpublished, left_parsed, left_identity, on_left, dispatch, commit, finish, process,
  handle,
}
use ev211_field_server.EventLog.{record_event}
use ev211_field_server.Events.{
  Participant, Env, WebhookEvent, Outcome, done, failed, remove, strike_and_remove,
}
use ev211_field_server.Webhook.Effects.{record_event_core}
use ev211_field_server.Webhook.Delivery.{Delivery, deliver}

abbrev pub has_lease : Option LeaseRow → Bool
has_lease none = false
has_lease (some l) = true

-- If the channel is on air, it has a lease.
abbrev pub is_leased : ℕ → AppState → Bool
is_leased k s = not (is_on_air s.on_air k) || has_lease (get_lease s.db k)

get_lease-joined :
    (now c k : ℕ) (identity : Text) (db : Database)
    → has_lease (get_lease (mark_lease_joined now c identity db) k) ≡ has_lease (get_lease db k)
unfolding get_lease mark_lease_joined
get_lease-joined now c k identity db =
    ground (arith, get-modify db.leases c k (joined_row now identity))

found_lease :
    (o : Option LeaseRow) (identity : Text) → found_identity o identity ≡ true → has_lease o ≡ true
found_lease none identity h = cc
found_lease (some l) identity h = refl

module _ (env : Env) (k : ℕ) where
  strike_leased :
      (identity : Text) (s : AppState)
      → is_leased k (strike_and_remove env identity s).1 ≡ is_leased k s
  unfolding strike_and_remove remove
  strike_leased identity s = refl

  joined_speaker_leased :
      (now : ℕ) (p : SpeakerIdentity) (identity : Text) (s : AppState)
      → is_leased k (joined_speaker env now p identity s).1 ≡ is_leased k s
  unfolding joined_speaker
  joined_speaker_leased now p identity s =
      ground (arith, strike_leased identity s, get_lease-joined now p.channel_id k identity s.db)

  joined_parsed_leased :
      (now : ℕ) (o : Option SpeakerIdentity) (identity : Text) (s : AppState)
      → is_leased k (joined_parsed env now o identity s).1 ≡ is_leased k s
  joined_parsed_leased now none identity s = ground (arith, strike_leased identity s)
  joined_parsed_leased now (some p) identity s = joined_speaker_leased now p identity s

  joined_leased :
      (now : ℕ) (e : WebhookEvent) (s : AppState)
      → is_leased k (on_joined env now e s).1 ≡ is_leased k s
  unfolding on_joined joined_identity remove
  joined_leased now e s = elim (Option-cases e.participant) [
    | inl nobody ↦ rw nobody
    | inr (identity, found) ↦ rw found (
        ground
          (arith, joined_parsed_leased now (parse_speaker_identity env.digits identity) identity s))
  ]

  licensed_lease :
      (p : SpeakerIdentity) (identity : Text) (s : AppState)
      → is_unlicensed env p identity s ≡ false
      → has_lease (get_lease s.db p.channel_id) ≡ true
  unfolding is_unlicensed is_violation
  licensed_lease p identity s h = found_lease (get_lease s.db p.channel_id) identity (ground arith)

  published_listed_leased :
      (p : SpeakerIdentity) (identity : Text) (ps : List Participant) (s : AppState)
      → is_leased k s ≡ true
      → ((p.channel_id == k) ≡ true → has_lease (get_lease s.db k) ≡ true)
      → is_leased k (published_listed env p identity ps s).1 ≡ true
  unfolding published_listed
  published_listed_leased p identity ps s h here =
      ground (
        arith,
        strike_leased identity s,
        is_on_air-set_publishing p.channel_id k true s.on_air,
        here,
      )

  -- What the other requests do during the wait takes no lease of the channel, and puts it on air
  -- only with one.
  abbrev pub LeavesLease : Type 0
  LeavesLease =
      (t : AppState)
      → (is_leased k t ≡ true → is_leased k (env.meanwhile t) ≡ true)
        × (has_lease (get_lease t.db k) ≡ true
            → has_lease (get_lease (env.meanwhile t).db k) ≡ true)

  published_speaker_leased :
      LeavesLease
      → (track : Option Text) (p : SpeakerIdentity) (identity : Text) (s : AppState)
      → is_leased k s ≡ true
      → is_leased k (published_speaker env track p identity s).1 ≡ true
  unfolding published_speaker
  published_speaker_leased leaves track p identity s h =
      elim (Bool-cases (is_unlicensed env p identity s)) [
        | inl bad ↦ rw bad (strike_leased identity s ∙ h)
        | inr good ↦
            let lease = licensed_lease p identity s good in
            let here : (p.channel_id == k) ≡ true → has_lease (get_lease s.db k) ≡ true = λ same.
              ap (λ j. has_lease (get_lease s.db j)) (sym ((nat_eq.same_iff p.channel_id k).0 same))
              ∙ lease in
            elim (Bool-cases (is_wrong_track env track (track_of p.channel_id))) [
              | inl wrong ↦ rw (good, wrong) (strike_leased identity s ∙ h)
              | inr right ↦
                  let ps = listed_participants env (env.participants (room s)) in
                  rw (good, right)
                    (published_listed_leased p identity ps (env.meanwhile s) ((leaves s).0 h)
                      (λ same. (leaves s).1 (here same)))
            ]
      ]

  published_parsed_leased :
      LeavesLease
      → (track : Option Text) (o : Option SpeakerIdentity) (identity : Text) (s : AppState)
      → is_leased k s ≡ true
      → is_leased k (published_parsed env track o identity s).1 ≡ true
  published_parsed_leased leaves track none identity s h = ground (arith, strike_leased identity s)
  published_parsed_leased leaves track (some p) identity s h =
      published_speaker_leased leaves track p identity s h

  published_leased :
      LeavesLease
      → (e : WebhookEvent) (s : AppState) → is_leased k s ≡ true
      → is_leased k (on_track_published env e s).1 ≡ true
  unfolding on_track_published published_identity
  published_leased leaves e s h = elim (Option-cases e.participant) [
    | inl nobody ↦ rw nobody h
    | inr (identity, found) ↦ rw found (
        ground (
          arith,
          h,
          published_parsed_leased leaves e.track (parse_speaker_identity env.digits identity)
              identity s h,
        ))
  ]

  unpublished_parsed_leased :
      (o : Option SpeakerIdentity) (identity : Text) (s : AppState)
      → is_leased k s ≡ true
      → is_leased k (unpublished_parsed env o identity s) ≡ true
  unpublished_parsed_leased none identity s h = h
  unpublished_parsed_leased (some p) identity s h =
      ground (arith, h, is_on_air-set_publishing p.channel_id k false s.on_air)

  unpublished_leased :
      (e : WebhookEvent) (s : AppState)
      → is_leased k s ≡ true
      → is_leased k (on_track_unpublished env e s).1 ≡ true
  unfolding on_track_unpublished unpublished_identity
  unpublished_leased e s h = elim (Option-cases e.participant) [
    | inl nobody ↦ rw nobody h
    | inr (identity, found) ↦ rw found (
        ground (
          arith,
          h,
          unpublished_parsed_leased (parse_speaker_identity env.digits identity) identity s h,
        ))
  ]

  left_parsed_leased :
      (o : Option SpeakerIdentity) (identity : Text) (s : AppState)
      → is_leased k s ≡ true
      → is_leased k (left_parsed env o identity s) ≡ true
  unfolding left_parsed
  left_parsed_leased none identity s h = h
  left_parsed_leased (some p) identity s h = ground (
    arith,
    h,
    released_by_identity p.channel_id identity s.db,
    get_lease-release p.channel_id k identity s.db,
    is_on_air-clear_channel p.channel_id k s.on_air,
  )

  left_leased :
      (e : WebhookEvent) (s : AppState)
      → is_leased k s ≡ true
      → is_leased k (on_left env e s).1 ≡ true
  unfolding on_left left_identity
  left_leased e s h = elim (Option-cases e.participant) [
    | inl nobody ↦ rw nobody h
    | inr (identity, found) ↦ rw found (
        ground
          (arith, h, left_parsed_leased (parse_speaker_identity env.digits identity) identity s h))
  ]

  dispatch_leased :
      LeavesLease
      → (kind : EventType) (now : ℕ) (e : WebhookEvent) (s : AppState) → is_leased k s ≡ true
      → is_leased k (dispatch env kind now e s).1 ≡ true
  unfolding dispatch
  dispatch_leased leaves participant_joined now e s h = joined_leased now e s ∙ h
  dispatch_leased leaves track_published now e s h = published_leased leaves e s h
  dispatch_leased leaves track_unpublished now e s h = unpublished_leased e s h
  dispatch_leased leaves participant_left now e s h = left_leased e s h
  dispatch_leased leaves participant_connection_aborted now e s h = left_leased e s h
  dispatch_leased leaves (other name) now e s h = h

  commit_leased :
      (now : ℕ) (id : Text) (s : AppState) → is_leased k (commit env now id s) ≡ is_leased k s
  unfolding commit mark_webhook_processed get_lease
  commit_leased now id s = ground arith

  finish_leased :
      (now : ℕ) (id : Text) (r : Outcome × AppState)
      → is_leased k (finish env now id r).1 ≡ is_leased k r.1
  finish_leased now id (done, s) = commit_leased now id s
  finish_leased now id (failed, s) = refl

  process_leased :
      LeavesLease
      → (now : ℕ) (e : WebhookEvent) (s : AppState) → is_leased k s ≡ true
      → is_leased k (process env now e s).1 ≡ true
  unfolding process
  process_leased leaves now e s h = ground (
    arith,
    h,
    commit_leased now e.id s,
    finish_leased now e.id (dispatch env e.event now e s),
    dispatch_leased leaves e.event now e s h,
  )

  record_leased :
      (now : ℕ) (e : WebhookEvent) (s : AppState)
      → is_leased k (record_event env now e s) ≡ is_leased k s
  unfolding get_lease
  record_leased now e s = ground (arith, record_event_core env now e s)

  handle_leased :
      LeavesLease
      → (now : ℕ) (e : WebhookEvent) (s : AppState) → is_leased k s ≡ true
      → is_leased k (handle env now e s).1 ≡ true
  unfolding handle
  handle_leased leaves now e s h =
      ground (
        arith,
        h,
        process_leased leaves now e (record_event env now e s) (record_leased now e s ∙ h),
      )

-- From a state in which a channel is on air only with a lease, and where no other request takes its
-- lease or puts it on air without one while a publication waits for the listing, the channel is on
-- air only with a lease behind any run of deliveries, whatever LiveKit answers.
pub on_air_has_lease :
    (k : ℕ) (s : AppState) (ds : List Delivery)
    → is_leased k s ≡ true
    → All (λ (d : Delivery). LeavesLease d.env k) ds
    → is_leased k (deliver s ds) ≡ true
unfolding deliver
on_air_has_lease k s [] h leaves = h
on_air_has_lease k s (d ∷ ds) h (first, leaves) =
    on_air_has_lease k (handle d.env d.now d.event s).1 ds
      (handle_leased d.env k first d.now d.event s h) leaves
