-- ===== src/Rotation.antt =====
-- api/app/state.py: the change of either password. `LiveKit` is what the server answers to the
-- calls of one rotation or one start, false or `none` for a call that raises; `hash` is
-- `password_hash`. A change runs under the rotation lock, so it is one step.
pub mod Atomicity
pub mod Revocation
use ev211_field_server.Base.{
  ℕ, suc, ◌+◌, Bool, true, false, ◌&&◌, ◌||◌, not, Option, none, some, List, [], ◌∷◌, ◌++◌, Text,
  codes, ◌==◌, text_eq, if◌then◌else◌,
}
use ev211_field_server.RateLimit
use ev211_field_server.OnAir
use ev211_field_server.AiChannels
use ev211_field_server.Identity.{starts_with}
use ev211_field_server.Rooms.{room_name, intercom_room_name}
use ev211_field_server.Database.Channels.{close_open_ai_channels}
use ev211_field_server.Database.Settings.{set_admin_password_and_generation, rotate_send_password}
use ev211_field_server.State.{AppState, LiveKitCall, create_room, delete_room}

pub record LiveKit : Type 0 where
  pub creates : Text → Bool
  pub rooms : Option (List Text)
  pub deletes : Text → Bool
  -- Whether the task of a worker that was asked to stop ends in time.
  pub ends : ℕ → Bool

pub data Answer : Type 0 where
  changed same_password livekit_failed : Answer

abbrev pub asked : LiveKitCall → AppState → AppState
asked call s = record s { calls = s.calls ++ call ∷ [] }

-- A room of this prefix that is not the one to keep.
unfoldable pub is_stale : Text → Text → Text → Bool
unfolding starts_with
is_stale room intercom name =
    if starts_with (codes "field-g") name && not (name == room)
    then true
    else starts_with (codes "intercom-g") name && not (name == intercom)

module _ (lk : LiveKit) where
  -- The rooms to delete, one call a room, up to the first call that raises.
  unfoldable pub delete_rooms : (Text → Bool) → List Text → AppState → Bool × AppState
  delete_rooms stale [] s = (true, s)
  delete_rooms stale (name ∷ names) s = elim (stale name) [
    | false ↦ delete_rooms stale names s
    | true ↦ elim (lk.deletes name) [
      | true ↦ delete_rooms stale names (asked (delete_room name) s)
      | false ↦ (false, asked (delete_room name) s)
    ]
  ]

  abbrev pub delete_listed : (Text → Bool) → Option (List Text) → AppState → Bool × AppState
  delete_listed stale none s = (false, s)
  delete_listed stale (some names) s = delete_rooms stale names s

  -- The part of a rotation that may raise: the new room, the listing, the old rooms.
  unfoldable pub rotate_rooms : ℕ → AppState → Bool × AppState
  unfolding is_stale
  rotate_rooms new_gen s =
      let created = asked (create_room (room_name new_gen)) s in
      let deleted =
        delete_listed (is_stale (room_name new_gen) (intercom_room_name new_gen)) lk.rooms
          created in
      if lk.creates (room_name new_gen) then deleted else (false, created)

module _ (hash : Text → Text → Text) where
  unfoldable pub change_admin_password_locked : Text → AppState → Answer × AppState
  change_admin_password_locked new_password s =
      if new_password == s.send_password then (same_password, s) else (
        changed,
        record s {
          db =
              set_admin_password_and_generation new_password s.generation
                (hash s.send_password new_password) s.db;
          admin_password = new_password;
        },
      )

  -- The part of a rotation that persists, and the state in memory behind it.
  unfoldable pub persist_rotation : (ℕ → Bool) → ℕ → Text → AppState → AppState
  persist_rotation ends now new_password s =
      let new_gen = suc s.generation in
      record s {
        db =
            (close_open_ai_channels now (
              rotate_send_password new_password new_gen (hash new_password s.admin_password)
                s.db)).1;
        send_password = new_password;
        generation = new_gen;
        blocklist = RateLimit.clear s.blocklist;
        on_air = OnAir.clear s.on_air;
        ai_channels = AiChannels.close ends s.ai_channels;
      }

  abbrev pub finish_rotation : (ℕ → Bool) → ℕ → Text → Bool × AppState → Answer × AppState
  finish_rotation ends now new_password (false, s) = (livekit_failed, s)
  finish_rotation ends now new_password (true, s) =
      (changed, persist_rotation ends now new_password s)

  unfoldable pub change_send_password_locked : LiveKit → ℕ → Text → AppState → Answer × AppState
  unfolding rotate_rooms
  change_send_password_locked lk now new_password s =
      if new_password == s.admin_password
      then (same_password, s)
      else finish_rotation lk.ends now new_password (rotate_rooms lk (suc s.generation) s)
