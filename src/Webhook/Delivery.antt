-- ===== src/Webhook/Delivery.antt =====
-- Repeated, failed and foreign deliveries.
use ev211_field_server.Base.{
  ℕ, ◌≡◌, refl, true, false, List, [], ◌∷◌, Text, text_eq, All, Bool-cases, inl, inr, arith,
}
use ev211_field_server.Base.Dict
use ev211_field_server.Base.Dict.{get-put}
use ev211_field_server.Database.Webhooks.{is_webhook_processed, mark_webhook_processed}
use ev211_field_server.State.{AppState, is_empty_text, room}
use ev211_field_server.Webhook.{dispatch, commit, finish, is_foreign, process, handle}
use ev211_field_server.EventLog.{record_event}
use ev211_field_server.Events.{Env, WebhookEvent, Outcome, done, failed}
use ev211_field_server.Webhook.Effects.{ledger, IsKept, record_event_core, dispatch_ledger}

module _ (env : Env) (now : ℕ) (e : WebhookEvent) where
  commit_processed :
      (s : AppState)
      → is_empty_text e.id ≡ false
      → is_webhook_processed e.id (commit env now e.id s).db ≡ true
  unfolding commit mark_webhook_processed
  commit_processed s named =
      ground (arith, text_eq.same_iff e.id e.id, get-put s.db.processed_webhooks e.id e.id now)

  finish_commits :
      (r : Outcome × AppState)
      → (finish env now e.id r).0 ≡ done
      → is_empty_text e.id ≡ false
      → is_webhook_processed e.id (finish env now e.id r).1.db ≡ true
  finish_commits (done, s) ended named = commit_processed s named
  finish_commits (failed, s) ended named = cc

  process_commits :
      (s : AppState)
      → (process env now e s).0 ≡ done
      → is_empty_text e.id ≡ false
      → is_webhook_processed e.id (process env now e s).1.db ≡ true
  unfolding process
  process_commits s ended named =
      ground (arith, commit_processed s named, finish_commits (dispatch env e.event now e s), ended)

  handle_commits :
      (s : AppState)
      → (handle env now e s).0 ≡ done
      → is_empty_text e.id ≡ false
      → is_webhook_processed e.id (handle env now e s).1.db ≡ true
  unfolding handle
  handle_commits s ended named = ground (arith, process_commits (record_event env now e s), named)

  handle_seen :
      (s : AppState)
      → is_empty_text e.id ≡ false
      → is_webhook_processed e.id s.db ≡ true
      → handle env now e s ≡ (done, s)
  unfolding handle
  handle_seen s named seen = rw (named, seen)

  finish_uncommitted :
      (r : Outcome × AppState)
      → (finish env now e.id r).0 ≡ failed
      → (finish env now e.id r).1 ≡ r.1
  finish_uncommitted (done, s) ended = cc
  finish_uncommitted (failed, s) ended = refl

  process_uncommitted :
      (s : AppState) → (process env now e s).0 ≡ failed → IsKept env s (process env now e s).1
  unfolding process
  process_uncommitted s ended = elim (Bool-cases (is_foreign env e s)) [
    | inl foreign ↦ ground (arith, foreign)
    | inr here ↦
        let r = dispatch env e.event now e s in
        let failing : (finish env now e.id r).0 ≡ failed = ground (arith, here) in
        rw here (rw (finish_uncommitted r failing) (dispatch_ledger env e.event now e s))
  ]

  -- Where the other requests write no processed event while a handling waits for a listing, a
  -- handling that fails does not commit the event: the ledger of processed events is as before.
  pub failed_uncommitted :
      (s : AppState)
      → ((t : AppState) → ledger (env.meanwhile t) ≡ ledger t)
      → (handle env now e s).0 ≡ failed
      → ledger (handle env now e s).1 ≡ ledger s
  unfolding handle
  failed_uncommitted s quiet ended = ground (
    arith,
    process_uncommitted (record_event env now e s),
    quiet (record_event env now e s),
    record_event_core env now e s,
  )

-- One delivery: what LiveKit answers and the other requests do during its handling, the time and
-- the event.
pub record Delivery : Type 0 where
  pub env : Env
  pub now : ℕ
  pub event : WebhookEvent

unfoldable pub deliver : AppState → List Delivery → AppState
deliver s [] = s
deliver s (d ∷ ds) = deliver (handle d.env d.now d.event s).1 ds

-- The other requests forget no processed event while a handling waits for its listing.
abbrev pub Remembers : Text → Delivery → Type 0
Remembers id d =
    (t : AppState)
    → is_webhook_processed id t.db ≡ true
    → is_webhook_processed id (d.env.meanwhile t).db ≡ true

module _ (env : Env) (now : ℕ) (e : WebhookEvent) (id : Text) where
  abbrev Known : AppState → Type 0
  Known s = is_webhook_processed id s.db ≡ true

  commit-Known : (other : Text) (s : AppState) → Known s → Known (commit env now other s)
  unfolding commit mark_webhook_processed is_webhook_processed Dict.has
  commit-Known other s known =
      ground (arith, text_eq.same_iff other id, get-put s.db.processed_webhooks other id now)

  finish-Known : (r : Outcome × AppState) → Known r.1 → Known (finish env now e.id r).1
  finish-Known (done, s) known = commit-Known e.id s known
  finish-Known (failed, s) known = known

  kept-Known :
      (s t : AppState)
      → IsKept env s t
      → Known s
      → ((u : AppState) → Known u → Known (env.meanwhile u))
      → Known t
  unfolding is_webhook_processed
  kept-Known s t (inl same) known remembers = rw same known
  kept-Known s t (inr same) known remembers = rw same (remembers s known)

  handle-Known :
      (s : AppState)
      → Known s
      → ((u : AppState) → Known u → Known (env.meanwhile u))
      → Known (handle env now e s).1
  unfolding handle process is_webhook_processed
  handle-Known s known remembers =
      let s₁ = record_event env now e s in
      let logged : Known s₁ = rw (record_event_core env now e s).processed known in
      let dispatched =
        kept-Known s₁ (dispatch env e.event now e s₁).1 (dispatch_ledger env e.event now e s₁)
          logged remembers in
      ground (
        arith,
        known,
        commit-Known e.id s₁ logged,
        finish-Known (dispatch env e.event now e s₁) dispatched,
      )

deliver_known :
    (id : Text) (s : AppState) (ds : List Delivery)
    → is_webhook_processed id s.db ≡ true
    → All (Remembers id) ds
    → is_webhook_processed id (deliver s ds).db ≡ true
unfolding deliver
deliver_known id s [] known h = known
deliver_known id s (d ∷ ds) known (remembers, h) =
    deliver_known id (handle d.env d.now d.event s).1 ds
      (handle-Known d.env d.now d.event id s known remembers) h

-- An event with an id whose handling ended well is handled once: behind any run of further
-- deliveries in whose waits no other request forgets the id, a delivery of it, whatever LiveKit
-- would answer then, ends well and changes nothing.
pub redelivery_changes_nothing :
    (env later_env : Env) (now later : ℕ) (e : WebhookEvent) (s : AppState) (ds : List Delivery)
    → (handle env now e s).0 ≡ done
    → is_empty_text e.id ≡ false
    → All (Remembers e.id) ds
    → let t = deliver (handle env now e s).1 ds in handle later_env later e t ≡ (done, t)
redelivery_changes_nothing env later_env now later e s ds ended named remembers =
    handle_seen later_env later e (deliver (handle env now e s).1 ds) named (
      deliver_known e.id (handle env now e s).1 ds (handle_commits env now e s ended named)
        remembers)

-- An event of another room than the current relay room ends well and touches no channel, lease,
-- strike or on-air state.
foreign_room_untouched :
    (env : Env) (now : ℕ) (e : WebhookEvent) (s : AppState)
    → is_foreign env e s ≡ true
    → ((handle env now e s).0 ≡ done)
      × ((handle env now e s).1.db.channels ≡ s.db.channels)
      × ((handle env now e s).1.db.leases ≡ s.db.leases)
      × ((handle env now e s).1.on_air ≡ s.on_air)
      × ((handle env now e s).1.blocklist ≡ s.blocklist)
unfolding handle process commit mark_webhook_processed room
foreign_room_untouched env now e s foreign = ground (arith, foreign, record_event_core env now e s)
