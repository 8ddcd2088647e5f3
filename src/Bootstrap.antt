-- ===== src/Bootstrap.antt =====
-- api/app/state.py: bootstrap, from the choice of the generation over the reconciliation with the
-- participants of the room to the restoration of the AI channels (restore_ai_channels of
-- Routes/AiWorkers). `Server` is what LiveKit answers during one start.
pub mod Generation
pub mod Reconciled
pub mod Started
pub mod Restored
use ev211_field_server.Base.{
  ℕ, suc, ◌+◌, Bool, true, false, ◌&&◌, ◌||◌, not, Option, none, some, List, [], ◌∷◌, ◌++◌, map,
  Text, codes, ◌==◌, text_eq, ltb, if◌then◌else◌, any,
}
use ev211_field_server.RateLimit
use ev211_field_server.OnAir
use ev211_field_server.Identity.{Digits, SpeakerIdentity, starts_with, parse_speaker_identity}
use ev211_field_server.Database.Rows.{Database, ChannelRow, LeaseRow}
use ev211_field_server.Database.Channels.{list_channels, close_open_ai_channels}
use ev211_field_server.Database.Leases.{
  get_lease, found_identity, release_lease_if_identity, clear_all_leases,
}
use ev211_field_server.Database.Settings.{get_generation, set_generation, clear_intercom_channels}
use ev211_field_server.State.{AppState, create_room, remove_participant, room, is_empty_text}
use ev211_field_server.Rotation.{LiveKit, asked, delete_rooms}
use ev211_field_server.Events.{Participant}
use ev211_field_server.Site.{World}
use ev211_field_server.Routes.AiWorkers.{restore_ai_channels}

pub record Server : Type 0 where
  pub digits : Digits
  pub livekit : LiveKit
  pub participants : Text → Option (List Participant)
  pub removes : Text → Text → Bool

-- The generation, and whether it changed.
unfoldable pub decide_generation : Text → Option (ℕ × Text) → ℕ × Bool
decide_generation new_hash none = (1, false)
decide_generation new_hash (some (value, stored_hash)) =
    if not (stored_hash == new_hash) then (suc value, true) else (value, false)

-- What comes before the first call to LiveKit; `has_key` is whether an OpenAI key is set.
unfoldable pub prepare : (Text → Text → Text) → Bool → ℕ → AppState → AppState
prepare hash has_key now s =
    let new_hash = hash s.send_password s.admin_password in
    let (generation, generation_changed) = decide_generation new_hash (get_generation s.db) in
    let stored = set_generation generation new_hash s.db in
    let cleared = if generation_changed then clear_all_leases stored else stored in
    record s {
      generation = generation;
      db =
          if generation_changed || not has_key
          then (close_open_ai_channels now cleared).1
          else cleared;
      blocklist = RateLimit.clear s.blocklist;
      on_air = OnAir.clear s.on_air;
    }

-- All intercom rooms are stale at a start.
unfoldable pub is_stale_at_start : Text → Text → Bool
unfolding starts_with
is_stale_at_start target name =
    if starts_with (codes "field-g") name && not (name == target)
    then true
    else starts_with (codes "intercom-g") name

abbrev pub is_speaker : Digits → Text → Bool
is_speaker u identity = elim (parse_speaker_identity u identity) [ none ↦ false | some _ ↦ true ]

-- The identities of the speakers in the room.
unfoldable pub is_live : Digits → List Participant → Text → Bool
is_live u ps identity =
    any
      (λ (p : Participant).
        (not (is_empty_text p.identity) && is_speaker u p.identity) && (p.identity == identity))
      ps

-- A lease that was joined and whose speaker is not in the room.
abbrev pub is_stuck : Digits → List Participant → LeaseRow → Bool
is_stuck u ps row = elim row.joined_at [ none ↦ false | some _ ↦ not (is_live u ps row.identity) ]

abbrev pub release_found : Digits → List Participant → ℕ → Option LeaseRow → Database → Database
release_found u ps k none db = db
release_found u ps k (some row) db =
    if is_stuck u ps row then (release_lease_if_identity k row.identity db).1 else db

unfoldable pub release_absent : Digits → List Participant → List ℕ → Database → Database
release_absent u ps [] db = db
release_absent u ps (k ∷ ks) db = release_absent u ps ks (release_found u ps k (get_lease db k) db)

abbrev pub restore_publisher : SpeakerIdentity → Participant → AppState → AppState
restore_publisher q p s =
    if ltb 0 p.tracks
    then record s { on_air = OnAir.set_publishing q.channel_id true s.on_air }
    else s

module _ (v : Server) where
  -- One participant against the ledger of leases; false is a removal that raises.
  abbrev pub reconcile_speaker :
      Text → Participant → Option SpeakerIdentity → AppState → Bool × AppState
  reconcile_speaker target p none s = (true, s)
  reconcile_speaker target p (some q) s =
      if found_identity (get_lease s.db q.channel_id) p.identity
      then (true, restore_publisher q p s)
      else (v.removes target p.identity, asked (remove_participant target p.identity) s)

  unfoldable pub reconcile_participant : Text → Participant → AppState → Bool × AppState
  reconcile_participant target p s =
      if is_empty_text p.identity
      then (true, s)
      else reconcile_speaker target p (parse_speaker_identity v.digits p.identity) s

  unfoldable pub reconcile : Text → List Participant → AppState → Bool × AppState
  unfolding reconcile_participant
  reconcile target [] s = (true, s)
  reconcile target (p ∷ ps) s =
      let (ok, t) = reconcile_participant target p s in
      let rest = reconcile target ps t in if ok then rest else (false, t)

  abbrev pub released : List Participant → AppState → AppState
  released ps s = record s {
    db = release_absent v.digits ps (map (λ (r : ℕ × ChannelRow). r.0) (list_channels s.db)) s.db;
  }

  abbrev pub reconcile_listed : Option (List Participant) → AppState → Bool × AppState
  reconcile_listed none s = (false, s)
  reconcile_listed (some ps) s = reconcile (room s) ps (released ps s)

  -- The current room is created unless it is listed.
  abbrev pub ensure_room : List Text → AppState → Bool × AppState
  ensure_room names s =
      if any (λ n. n == room s) names
      then (true, s)
      else (v.livekit.creates (room s), asked (create_room (room s)) s)

  abbrev pub and_then : Bool × AppState → (AppState → Bool × AppState) → Bool × AppState
  and_then (false, s) f = (false, s)
  and_then (true, s) f = f s

  abbrev pub reconcile_rooms : List Text → AppState → Bool × AppState
  reconcile_rooms names s =
      and_then
        (and_then (ensure_room names s) (delete_rooms v.livekit (is_stale_at_start (room s)) names))
        (λ t.
          reconcile_listed (v.participants (room t))
            (record t { db = clear_intercom_channels t.db }))

  abbrev pub reconcile_all : Option (List Text) → AppState → Bool × AppState
  reconcile_all none s = (false, s)
  reconcile_all (some names) s = reconcile_rooms names s

  unfoldable pub reconciled_start : (Text → Text → Text) → Bool → ℕ → AppState → Bool × AppState
  unfolding prepare
  reconciled_start hash has_key now s = reconcile_all v.livekit.rooms (prepare hash has_key now s)

  -- False is a start that LiveKit's failure stopped; `w` answers the restoration of the AI channels.
  unfoldable pub bootstrap : World → (Text → Text → Text) → Bool → ℕ → AppState → Bool × AppState
  unfolding reconciled_start
  bootstrap w hash has_key now s =
      and_then (reconciled_start hash has_key now s) (λ t. (true, (restore_ai_channels w now t).1))
