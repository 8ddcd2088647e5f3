-- ===== src/Events.antt =====
-- The events of LiveKit that api/app/webhook.py handles, and its strikes and removals. What LiveKit
-- answers to the one removal and the one listing that a handling makes, what other requests do while
-- it waits for the listing, `str.lower` and the hash of an identity are the parameters of `Env`.
use ev211_field_server.Base.{
  ℕ, Bool, ◌||◌, Option, List, [], ◌∷◌, ◌++◌, Text, codes, text_eq, nat_eq, if◌then◌else◌,
}
use ev211_field_server.RateLimit
use ev211_field_server.Identity.{Digits, starts_with, is_monitor_identity}
use ev211_field_server.Database.Rows.{EventType}
use ev211_field_server.State.{AppState, remove_participant, room, is_empty_text}

pub record Participant : Type 0 where
  pub identity : Text
  pub tracks : ℕ

pub data RemoveReply : Type 0 where
  removed : RemoveReply
  refused : Text → RemoveReply

pub record Env : Type 0 where
  pub digits : Digits
  pub hash : Text → Text
  pub lower : Text → Text
  pub remove : Text → Text → RemoveReply
  -- `none` is a listing that raises.
  pub participants : Text → Option (List Participant)
  -- What other requests do while the handling waits for the listing.
  pub meanwhile : AppState → AppState

pub record WebhookEvent : Type 0 where
  pub id : Text
  pub event : EventType
  -- The room's name, empty where the event has no room.
  pub room : Text
  -- The participant's identity.
  pub participant : Option Text
  -- The track's name.
  pub track : Option Text

pub data Outcome : Type 0 where
  done failed : Outcome

-- `needle in haystack`
unfoldable pub contains : Text → Text → Bool
unfolding starts_with
contains needle [] = starts_with needle []
contains needle (c ∷ s) = starts_with needle (c ∷ s) || contains needle s

unfoldable pub is_not_found : Text → Bool
unfolding contains
is_not_found msg =
    contains (codes "not found") msg
    || contains (codes "does not exist") msg
    || contains (codes "no participant") msg

module _ (env : Env) where
  unfoldable pub remove_outcome : RemoveReply → Outcome
  remove_outcome removed = done
  remove_outcome (refused msg) = if is_not_found (env.lower msg) then done else failed

  -- `_remove`
  unfoldable pub remove : Text → AppState → Outcome × AppState
  remove identity s = (
    remove_outcome (env.remove (room s) identity),
    record s { calls = s.calls ++ remove_participant (room s) identity ∷ [] },
  )

  abbrev pub struck : Text → AppState → AppState
  struck identity s = record s { blocklist = RateLimit.strike s.blocklist identity }

  -- `state.blocklist.strike(identity); await self._remove(identity)`
  unfoldable pub strike_and_remove : Text → AppState → Outcome × AppState
  strike_and_remove identity s = remove identity (struck identity s)

  abbrev pub is_unseen : Text → Bool
  is_unseen identity = is_empty_text identity || is_monitor_identity identity
