-- ===== src/Routes/Calls.antt =====
-- The calls to LiveKit that the routes of api/app/main.py share: _try_remove, _publisher_present,
-- and the rooms that api/app/state.py ensures before a token is issued.
use ev211_field_server.Base.{
  ℕ, Bool, true, false, Option, none, some, List, [], Text, ◌==◌, text_eq, nat_eq, if◌then◌else◌,
  any,
}
use ev211_field_server.Rooms.{intercom_room_name, intercom_channel_room_name}
use ev211_field_server.Identity.{is_intercom_identity}
use ev211_field_server.Database.Rows.{other, Direction, Scope}
use ev211_field_server.Base.{count_of, Result, ok, raised}
use ev211_field_server.State.{
  AppState, room, create_room, remove_participant, Signal, record_signal_event,
}
use ev211_field_server.Events.{Participant, RemoveReply, removed, refused, is_not_found}
use ev211_field_server.Rotation.{asked}
use ev211_field_server.Site.{World, Handler, Refusal, exception, found, call}

abbrev pub listed_rooms : Option (List Text) → List Text
listed_rooms none = []
listed_rooms (some names) = names

-- `_intercom_user_count`
unfoldable pub intercom_user_count : List Participant → ℕ
intercom_user_count ps = count_of (λ (p : Participant). is_intercom_identity p.identity) ps

unfoldable pub intercom_room : AppState → Text
intercom_room s = intercom_room_name s.generation

unfoldable pub intercom_channel_room : ℕ → AppState → Text
intercom_channel_room channel_id s = intercom_channel_room_name s.generation channel_id

module _ (w : World) where
  abbrev pub try_removed : RemoveReply → Bool
  try_removed removed = true
  try_removed (refused msg) = is_not_found (w.env.lower msg)

  -- `_try_remove`
  unfoldable pub try_remove : Text → AppState → Bool × AppState
  try_remove identity s =
      (try_removed (w.env.remove (room s) identity), asked (remove_participant (room s) identity) s)

  abbrev pub is_present : Option (List Participant) → Text → Bool
  is_present none identity = true
  is_present (some ps) identity = any (λ (p : Participant). p.identity == identity) ps

  -- `_publisher_present`
  unfoldable pub publisher_present : Text → AppState → Bool
  publisher_present identity s = is_present (w.env.participants (room s)) identity

  -- The room is created where it is not listed; false where that raises.
  unfoldable pub ensure : Text → AppState → Bool × AppState
  ensure name s =
      if any (λ n. n == name) (listed_rooms w.livekit.rooms)
      then (true, s)
      else (w.livekit.creates name, asked (create_room name) s)

  abbrev pub if_created : Refusal → Bool × AppState → Result Refusal (Unit {0}) × AppState
  if_created denial (true, s) = (ok tt, s)
  if_created denial (false, s) = (raised denial, s)

  abbrev pub ensured : Refusal → (AppState → Text) → Handler (Unit {0})
  ensured denial name s =
      let (r, app) = if_created denial (ensure (name s.app) s.app) in (r, record s { app = app })

  unfoldable pub ensure_room : Handler (Unit {0})
  unfolding ensure
  ensure_room = ensured exception room

  -- The two rooms of the intercom are limited to `intercom_max + 2` participants by LiveKit.
  unfoldable pub ensure_intercom_room : Refusal → Handler (Unit {0})
  unfolding ensure intercom_room
  ensure_intercom_room denial = ensured denial intercom_room

  unfoldable pub ensure_intercom_channel_room : Refusal → ℕ → Handler (Unit {0})
  unfolding ensure intercom_channel_room
  ensure_intercom_channel_room denial channel_id = ensured denial (intercom_channel_room channel_id)

  -- `list_participants`, with the refusal for a listing that raises.
  unfoldable pub participants_of : Refusal → Text → Handler (List Participant)
  participants_of denial name = found (w.env.participants name) denial

  -- The event of a route, of the current generation.
  abbrev pub route_signal :
      Direction → Text → Scope → Option ℕ → Text → Option Text → Text → Text → Signal
  route_signal direction event_type scope channel_id name track subject ip = record {
    direction = direction;
    event_type = other event_type;
    scope = scope;
    channel_id = channel_id;
    generation = none;
    room = some name;
    track_name = track;
    subject = subject;
    client_ip = some ip;
    source_event_id = none;
  }

  unfoldable pub record_signal : ℕ → Signal → Handler Bool
  record_signal now e = call (record_signal_event w.env.hash now e)
