-- ===== src/Rotation/Atomicity.antt =====
-- A change of the send password that fails changes nothing but what LiveKit was asked.
use ev211_field_server.Base.{
  ℕ, suc, ◌≡◌, ◌≢◌, refl, ap, ◌∙◌, Bool, true, false, Option, none, some, List, [], ◌∷◌, Text, ◌==◌,
  text_eq, Bool-cases, inl, inr, arith,
}
use ev211_field_server.State.{AppState, LiveKitCall, create_room, delete_room}
use ev211_field_server.Rooms.{room_name, intercom_room_name}
use ev211_field_server.Rotation.{
  LiveKit, changed, delete_rooms, delete_listed, asked, is_stale, rotate_rooms, finish_rotation,
  change_send_password_locked,
}

-- The same state, but for the calls to LiveKit.
abbrev pub with_calls : List LiveKitCall → AppState → AppState
with_calls calls s = record s { calls = calls }

abbrev pub OnlyAsked : AppState → AppState → Type 0
OnlyAsked s t = t ≡ with_calls t.calls s

module _ (lk : LiveKit) where
  pub delete_rooms_asks :
      (stale : Text → Bool) (names : List Text) (s : AppState)
      → OnlyAsked s (delete_rooms lk stale names s).1
  unfolding delete_rooms
  delete_rooms_asks stale [] s = refl
  delete_rooms_asks stale (name ∷ names) s = ground (
    arith,
    delete_rooms_asks stale names s,
    delete_rooms_asks stale names (asked (delete_room name) s),
  )

  delete_listed_asks :
      (stale : Text → Bool) (o : Option (List Text)) (s : AppState)
      → OnlyAsked s (delete_listed lk stale o s).1
  delete_listed_asks stale none s = refl
  delete_listed_asks stale (some names) s = delete_rooms_asks stale names s

  pub rotate_rooms_asks : (new_gen : ℕ) (s : AppState) → OnlyAsked s (rotate_rooms lk new_gen s).1
  unfolding rotate_rooms
  rotate_rooms_asks new_gen s = ground (
    arith,
    delete_listed_asks (is_stale (room_name new_gen) (intercom_room_name new_gen)) lk.rooms
        (asked (create_room (room_name new_gen)) s),
  )

finish_asks :
    (ends : ℕ → Bool) (hash : Text → Text → Text) (now : ℕ) (new_password : Text) (s : AppState)
    (r : Bool × AppState)
    → OnlyAsked s r.1
    → (finish_rotation hash ends now new_password r).0 ≢ changed
    → OnlyAsked s (finish_rotation hash ends now new_password r).1
finish_asks ends hash now new_password s (false, t) h failed = h
finish_asks ends hash now new_password s (true, t) h failed = absurd (failed refl)

-- A password that is not the admin's is rotated to.
pub rotates :
    (hash : Text → Text → Text) (lk : LiveKit) (now : ℕ) (new_password : Text) (s : AppState)
    → (new_password == s.admin_password) ≡ false
    → change_send_password_locked hash lk now new_password s
      ≡ finish_rotation hash lk.ends now new_password (rotate_rooms lk (suc s.generation) s)
unfolding change_send_password_locked
rotates hash lk now new_password s other = rw other refl

-- A change of the send password that does not answer `changed` leaves the database, both passwords,
-- the generation, the block list and the channels on air as they were.
pub failed_rotation_changes_nothing :
    (hash : Text → Text → Text) (lk : LiveKit) (now : ℕ) (new_password : Text) (s : AppState)
    → (change_send_password_locked hash lk now new_password s).0 ≢ changed
    → OnlyAsked s (change_send_password_locked hash lk now new_password s).1
unfolding change_send_password_locked
failed_rotation_changes_nothing hash lk now new_password s failed =
    elim (Bool-cases (new_password == s.admin_password)) [
      | inl same ↦ rw same refl
      | inr other ↦ rw other (
          finish_asks lk.ends hash now new_password s (rotate_rooms lk (suc s.generation) s)
            (rotate_rooms_asks lk (suc s.generation) s)
            (λ answered.
              failed (ap (λ r. r.0) (rotates hash lk now new_password s other) ∙ answered)))
    ]
