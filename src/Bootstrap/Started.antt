-- ===== src/Bootstrap/Started.antt =====
-- The state behind the reconciliation of a start that succeeds.
use ev211_field_server.Base.{
  ℕ, ◌≡◌, refl, ap, sym, ◌∙◌, Bool, true, false, ◌||◌, Option, none, some, List, [], ◌∷◌, map, Text,
  ◌==◌, text_eq, nat_eq, if◌then◌else◌, any, ltb, arith, count_of, count_of-order_by,
}
use mathlib.Core.Path.{subst}
use ev211_field_server.Base.Dict
use ev211_field_server.OnAir.{is_on_air, is_on_air-clear}
use ev211_field_server.Database.Rows.{Database, ChannelRow, LeaseRow}
use ev211_field_server.Database.Channels.{list_channels, get_channel}
use ev211_field_server.Database.Leases.{get_lease, release_lease_if_identity}
use ev211_field_server.Database.Settings.{clear_intercom_channels}
use ev211_field_server.State.{AppState, room}
use ev211_field_server.Rooms.{room_name}
use ev211_field_server.Rotation.{delete_rooms}
use ev211_field_server.Rotation.Atomicity.{OnlyAsked, with_calls, delete_rooms_asks}
use ev211_field_server.Events.{Participant}
use ev211_field_server.Bootstrap.{
  Server, is_stuck, is_stale_at_start, release_found, release_absent, released, reconcile_listed,
  ensure_room, and_then, reconcile_rooms, reconcile_all, prepare, reconciled_start,
}
use ev211_field_server.Bootstrap.Reconciled.{
  publishes, unstuck, reconcile_air, get_lease-release_absent,
}

-- A channel is on air exactly where a listed speaker holds its lease and publishes, and no channel
-- has a joined lease of a speaker who is not listed.
-- The channels are those of `s`.
pub record IsReconciled (v : Server) (ps : List Participant) (s t : AppState) : Type 0 where
  pub channels : t.db.channels ≡ s.db.channels
  pub air : (k : ℕ) → is_on_air t.on_air k ≡ any (publishes v k t.db) ps
  pub joined :
      (k : ℕ) (c : ChannelRow) (row : LeaseRow)
      → get_channel t.db k ≡ some c
      → get_lease t.db k ≡ some row
      → is_stuck v.digits ps row ≡ false

any-keys :
    {V : Type 0} (k : ℕ) (rows : List (ℕ × V))
    → any (λ j. j == k) (map (λ (r : ℕ × V). r.0) rows)
      ≡ ltb 0 (count_of (λ (r : ℕ × V). r.0 == k) rows)
any-keys k [] = ground arith
any-keys k ((j, x) ∷ rows) = ground (arith, any-keys k rows)

get-counted :
    {V : Type 0} (k : ℕ) (x : V) (rows : List (ℕ × V))
    → Dict.get rows k ≡ some x
    → ltb 0 (count_of (λ (r : ℕ × V). r.0 == k) rows) ≡ true
unfolding Dict.get
get-counted k x [] h = cc
get-counted k x ((j, y) ∷ rows) h = ground (arith, h, get-counted k x rows)

-- A channel that the table has is listed.
channel_listed :
    (k : ℕ) (c : ChannelRow) (db : Database)
    → get_channel db k ≡ some c
    → any (λ j. j == k) (map (λ (r : ℕ × ChannelRow). r.0) (list_channels db)) ≡ true
unfolding get_channel list_channels
channel_listed k c db h =
    any-keys k _
    ∙ ap (λ n. ltb 0 n)
        (count_of-order_by (λ (r : ℕ × ChannelRow). r.0) (λ (r : ℕ × ChannelRow). r.0 == k)
          db.channels)
    ∙ get-counted k c db.channels h

module _ (v : Server) (ps : List Participant) where
  channels-release_found :
      (k : ℕ) (o : Option LeaseRow) (db : Database)
      → (release_found v.digits ps k o db).channels ≡ db.channels
  unfolding release_lease_if_identity
  channels-release_found k none db = refl
  channels-release_found k (some row) db = ground arith

  channels-release_absent :
      (ks : List ℕ) (db : Database) → (release_absent v.digits ps ks db).channels ≡ db.channels
  unfolding release_absent
  channels-release_absent [] db = refl
  channels-release_absent (k ∷ ks) db =
      channels-release_absent ks (release_found v.digits ps k (get_lease db k) db)
      ∙ channels-release_found k (get_lease db k) db

  abbrev stuck_lease : Option LeaseRow → Bool
  stuck_lease none = false
  stuck_lease (some row) = is_stuck v.digits ps row

  same_channel :
      (ks : List ℕ) (db : Database) (k : ℕ)
      → get_channel db k ≡ get_channel (release_absent v.digits ps ks db) k
  unfolding get_channel
  same_channel ks db k = ap (λ rows. Dict.get rows k) (sym (channels-release_absent ks db))

  listed_branch : {A : Type 0} {b : Bool} (x y : A) → b ≡ true → (if b then x else y) ≡ x
  listed_branch x y e = rw e refl

  kept_unstuck :
      (b : Bool) (r row : LeaseRow)
      → is_stuck v.digits ps r ≡ b
      → (if b then none else some r) ≡ some row
      → is_stuck v.digits ps row ≡ false
  kept_unstuck true r row e h = cc
  kept_unstuck false r row e h = ap (λ o. stuck_lease o) (sym h) ∙ e

  left_unstuck :
      (o : Option LeaseRow) (row : LeaseRow)
      → unstuck v ps o ≡ some row
      → is_stuck v.digits ps row ≡ false
  left_unstuck none row h = cc
  left_unstuck (some r) row h = kept_unstuck (is_stuck v.digits ps r) r row refl h

  released_joined :
      (s : AppState) (k : ℕ) (c : ChannelRow) (row : LeaseRow)
      → get_channel (released v ps s).db k ≡ some c
      → get_lease (released v ps s).db k ≡ some row
      → is_stuck v.digits ps row ≡ false
  released_joined s k c row channel lease =
      let ids = map (λ (r : ℕ × ChannelRow). r.0) (list_channels s.db) in
      let known = channel_listed k c s.db (same_channel ids s.db k ∙ channel) in
      left_unstuck (get_lease s.db k) row
        (sym (listed_branch _ _ known) ∙ sym (get_lease-release_absent v ps k ids s.db) ∙ lease)

  reconcile_listed-IsReconciled :
      (s : AppState)
      → ((k : ℕ) → is_on_air s.on_air k ≡ false)
      → (reconcile_listed v (some ps) s).0 ≡ true
      → IsReconciled v ps s (reconcile_listed v (some ps) s).1
  reconcile_listed-IsReconciled s off ok =
      let r = released v ps s in
      let kept = λ (k : ℕ). reconcile_air v k (room s) ps r ok in
      let ids = map (λ (c : ℕ × ChannelRow). c.0) (list_channels s.db) in
      record {
        channels = ap (λ (d : Database). d.channels) (kept 0).1 ∙ channels-release_absent ids s.db;
        air = λ k.
            (kept k).0
            ∙ ap (λ b. b || any (publishes v k r.db) ps) (off k)
            ∙ ap (λ d. any (publishes v k d) ps) (sym (kept k).1);
        joined = λ k c row channel lease.
            released_joined s k c row (ap (λ d. get_channel d k) (sym (kept k).1) ∙ channel)
              (ap (λ d. get_lease d k) (sym (kept k).1) ∙ lease);
      }

module _ (v : Server) where
  pub went_on :
      (r : Bool × AppState) (f : AppState → Bool × AppState)
      → (and_then v r f).0 ≡ true
      → (r.0 ≡ true) × (and_then v r f ≡ f r.1)
  went_on (true, s) f ok = (refl, refl)
  went_on (false, s) f ok = cc

  ensure_room_asks : (names : List Text) (s : AppState) → OnlyAsked s (ensure_room v names s).1
  ensure_room_asks names s = ground arith

  asked_further : (s t u : AppState) → OnlyAsked s t → OnlyAsked t u → OnlyAsked s u
  asked_further s t u h k = k ∙ ap (λ x. with_calls u.calls x) h

  went_asks :
      (r : Bool × AppState) (f : AppState → Bool × AppState) (s : AppState)
      → OnlyAsked s r.1
      → ((t : AppState) → OnlyAsked t (f t).1)
      → OnlyAsked s (and_then v r f).1
  went_asks (true, t) f s h k = asked_further s t (f t).1 h (k t)
  went_asks (false, t) f s h k = h

  -- The rooms before the reconciliation.
  abbrev rooms_ready : List Text → AppState → Bool × AppState
  rooms_ready names s =
      and_then v (ensure_room v names s) (delete_rooms v.livekit (is_stale_at_start (room s)) names)

  rooms_ready_asks : (names : List Text) (s : AppState) → OnlyAsked s (rooms_ready names s).1
  rooms_ready_asks names s =
      went_asks (ensure_room v names s) (delete_rooms v.livekit (is_stale_at_start (room s)) names)
        s (ensure_room_asks names s)
        (delete_rooms_asks v.livekit (is_stale_at_start (room s)) names)

  options-IsReconciled :
      (o : Option (List Participant)) (s : AppState)
      → ((k : ℕ) → is_on_air s.on_air k ≡ false)
      → (reconcile_listed v o s).0 ≡ true
      → (ps : List Participant) × (o ≡ some ps) × IsReconciled v ps s (reconcile_listed v o s).1
  options-IsReconciled none s off ok = cc
  options-IsReconciled (some ps) s off ok = (ps, refl, reconcile_listed-IsReconciled v ps s off ok)

  same_room : (s t : AppState) → OnlyAsked s t → room s ≡ room t
  unfolding room
  same_room s t h = ap (λ (x : AppState). room_name x.generation) (sym h)

  abbrev after_rooms : AppState → Bool × AppState
  after_rooms t =
      reconcile_listed v (v.participants (room t)) (record t { db = clear_intercom_channels t.db })

  reconcile_rooms-IsReconciled :
      (names : List Text) (s : AppState)
      → ((k : ℕ) → is_on_air s.on_air k ≡ false)
      → (reconcile_rooms v names s).0 ≡ true
      → (ps : List Participant) × (v.participants (room s) ≡ some ps)
        × IsReconciled v ps s (reconcile_rooms v names s).1
  reconcile_rooms-IsReconciled names s off ok =
      let t = (rooms_ready names s).1 in
      let h = rooms_ready_asks names s in
      let (_, same) = went_on (rooms_ready names s) after_rooms ok in
      let (ps, listing, reconciled) =
        options-IsReconciled (v.participants (room t))
          (record t { db = clear_intercom_channels t.db })
          (λ k. ap (λ (x : AppState). is_on_air x.on_air k) h ∙ off k)
          (ap (λ r. r.0) (sym same) ∙ ok) in
      (
        ps,
        ap v.participants (same_room s t h) ∙ listing,
        subst (λ r. IsReconciled v ps s r.1) (sym same)
            (record {
              channels =
                  unfold clear_intercom_channels in
                  reconciled.channels ∙ ap (λ (x : AppState). x.db.channels) h;
              air = reconciled.air;
              joined = reconciled.joined;
            }),
      )

  reconcile_all-IsReconciled :
      (o : Option (List Text)) (s : AppState)
      → ((k : ℕ) → is_on_air s.on_air k ≡ false)
      → (reconcile_all v o s).0 ≡ true
      → (ps : List Participant) × (v.participants (room s) ≡ some ps)
        × IsReconciled v ps s (reconcile_all v o s).1
  reconcile_all-IsReconciled none s off ok = cc
  reconcile_all-IsReconciled (some names) s off ok = reconcile_rooms-IsReconciled names s off ok

  silent_start :
      (hash : Text → Text → Text) (has_key : Bool) (now : ℕ) (s : AppState) (k : ℕ)
      → is_on_air (prepare hash has_key now s).on_air k ≡ false
  unfolding prepare
  silent_start hash has_key now s k = is_on_air-clear k s.on_air

  pub reconciled_start-IsReconciled :
      (hash : Text → Text → Text) (has_key : Bool) (now : ℕ) (s : AppState)
      → (reconciled_start v hash has_key now s).0 ≡ true
      → (ps : List Participant) × (v.participants (room (prepare hash has_key now s)) ≡ some ps)
        × IsReconciled v ps (prepare hash has_key now s) (reconciled_start v hash has_key now s).1
  unfolding reconciled_start
  reconciled_start-IsReconciled hash has_key now s ok =
      reconcile_all-IsReconciled v.livekit.rooms (prepare hash has_key now s)
        (silent_start hash has_key now s) ok
