-- ===== src/Rotation/Revocation.antt =====
-- What a change of the send password revokes.
use ev211_field_server.Base.{
  ℕ, suc, ◌≡◌, ◌≢◌, refl, ap, sym, ◌∙◌, Bool, true, false, Option, none, some, List, [], ◌++◌, Text,
  codes, ◌==◌, text_eq, nat_eq, Bool-cases, inl, inr, if◌then◌else◌, arith,
}
use ev211_field_server.Base.Dict
use ev211_field_server.RateLimit.{is_blocked}
use ev211_field_server.OnAir.{is_on_air, is_on_air-clear}
use ev211_field_server.RateLimit
use ev211_field_server.Database.Channels.{list_open_ai_channels}
use ev211_field_server.Database.Channels.Lifecycle.{close_ai_complete, close_ai_rest}
use ev211_field_server.Database.Leases.{get_lease}
use ev211_field_server.Database.Settings.{get_generation, rotate_send_password}
use ev211_field_server.Rooms.{room_name, intercom_room_name}
use ev211_field_server.State.{AppState, LiveKitCall, delete_room}
use ev211_field_server.Rotation.{
  LiveKit, changed, rotate_rooms, persist_rotation, finish_rotation, change_send_password_locked,
}
use ev211_field_server.Rotation.Atomicity.{OnlyAsked, with_calls, rotates, rotate_rooms_asks}

-- What the state `t` behind a rotation of the state `s` to a password promises: the next
-- generation, stored with the hash of the new pair; no lease, no intercom channel, no open AI
-- channel, no channel on air, no blocked identity.
pub record IsRevoked (hash : Text → Text → Text) (new_password : Text) (s t : AppState)
    : Type 0 where
  pub next : t.generation ≡ suc s.generation
  pub password : t.send_password ≡ new_password
  pub admin : t.admin_password ≡ s.admin_password
  pub stored : get_generation t.db ≡ some (suc s.generation, hash new_password s.admin_password)
  pub no_lease : (k : ℕ) → get_lease t.db k ≡ none
  pub no_intercom : t.db.intercom_channels ≡ []
  pub no_ai : list_open_ai_channels t.db ≡ []
  pub no_air : (k : ℕ) → is_on_air t.on_air k ≡ false
  pub no_block : (i : Text) → is_blocked t.blocklist i ≡ false

pub no_lease_left :
    {A : Type 0} (b : Bool) (o : Option A) → o ≡ none → (if b then none else o) ≡ none
no_lease_left b o h = ground arith

same_calls :
    (hash : Text → Text → Text) (new_password : Text) (s : AppState) (calls : List LiveKitCall)
    (t : AppState)
    → IsRevoked hash new_password (with_calls calls s) t
    → IsRevoked hash new_password s t
same_calls hash new_password s calls t h = record {
  next = h.next;
  password = h.password;
  admin = h.admin;
  stored = h.stored;
  no_lease = h.no_lease;
  no_intercom = h.no_intercom;
  no_ai = h.no_ai;
  no_air = h.no_air;
  no_block = h.no_block;
}

persisted :
    (ends : ℕ → Bool) (hash : Text → Text → Text) (now : ℕ) (new_password : Text) (s : AppState)
    → IsRevoked hash new_password s (persist_rotation hash ends now new_password s)
unfolding persist_rotation rotate_send_password get_generation get_lease is_blocked RateLimit.clear
    Dict.get
persisted ends hash now new_password s =
    let db =
      rotate_send_password new_password (suc s.generation) (hash new_password s.admin_password)
        s.db in
    let (no_ai, leases, _) = close_ai_complete now db in
    let (generation, intercoms) = close_ai_rest now db in
    record {
      next = refl;
      password = refl;
      admin = refl;
      stored = generation;
      no_lease = λ k. leases k ∙ no_lease_left _ none refl;
      no_intercom = intercoms;
      no_ai = no_ai;
      no_air = λ k. is_on_air-clear k s.on_air;
      no_block = λ i. refl;
    }

finished :
    (ends : ℕ → Bool) (hash : Text → Text → Text) (now : ℕ) (new_password : Text) (s : AppState)
    (r : Bool × AppState)
    → OnlyAsked s r.1
    → (finish_rotation hash ends now new_password r).0 ≡ changed
    → (r.0 ≡ true) × IsRevoked hash new_password s (finish_rotation hash ends now new_password r).1
finished ends hash now new_password s (false, t) h answered = cc
finished ends hash now new_password s (true, t) h answered = (
  refl,
  rw h (
      same_calls hash new_password s t.calls _
        (persisted ends hash now new_password (with_calls t.calls s))),
)

same_refused :
    (hash : Text → Text → Text) (lk : LiveKit) (now : ℕ) (new_password : Text) (s : AppState)
    → (new_password == s.admin_password) ≡ true
    → (change_send_password_locked hash lk now new_password s).0 ≢ changed
unfolding change_send_password_locked
same_refused hash lk now new_password s same = rw same (λ answered. cc)

rotated :
    (hash : Text → Text → Text) (lk : LiveKit) (now : ℕ) (new_password : Text) (s : AppState)
    → (change_send_password_locked hash lk now new_password s).0 ≡ changed
    → (new_password == s.admin_password) ≡ false
rotated hash lk now new_password s answered = elim (Bool-cases (new_password == s.admin_password)) [
  | inl same ↦ absurd (same_refused hash lk now new_password s same answered)
  | inr other ↦ other
]

rotated_rooms :
    (hash : Text → Text → Text) (lk : LiveKit) (now : ℕ) (new_password : Text) (s : AppState)
    → (change_send_password_locked hash lk now new_password s).0 ≡ changed
    → ((rotate_rooms lk (suc s.generation) s).0 ≡ true)
      × IsRevoked hash new_password s
          (finish_rotation hash lk.ends now new_password (rotate_rooms lk (suc s.generation) s)).1
rotated_rooms hash lk now new_password s answered =
    finished lk.ends hash now new_password s (rotate_rooms lk (suc s.generation) s)
      (rotate_rooms_asks lk (suc s.generation) s)
      (sym (
          ap (λ r. r.0)
            (rotates hash lk now new_password s (rotated hash lk now new_password s answered)))
        ∙ answered)

-- A change of the send password that answers `changed` revokes the old generation: the new one is
-- the next, is stored with the hash of the new passwords, and there is no lease, no intercom channel, no
-- open AI channel, no channel on air and no blocked identity.
pub rotation_revokes :
    (hash : Text → Text → Text) (lk : LiveKit) (now : ℕ) (new_password : Text) (s : AppState)
    → (change_send_password_locked hash lk now new_password s).0 ≡ changed
    → IsRevoked hash new_password s (change_send_password_locked hash lk now new_password s).1
rotation_revokes hash lk now new_password s answered =
    rw (rotates hash lk now new_password s (rotated hash lk now new_password s answered))
      (rotated_rooms hash lk now new_password s answered).1

abbrev pub is_delete : Text → LiveKitCall → Bool
is_delete name (delete_room n) = n == name
is_delete name _ = false

-- A room of the relay or of the intercom, of its channels too, that is not one of the two rooms of
-- the generation.
pub data IsOutdated (generation : ℕ) : Text → Type 0 where
  relay_room :
      {tail : Text}
      → codes "field-g" ++ tail ≢ room_name generation
      → IsOutdated generation (codes "field-g" ++ tail)
  intercom_room :
      {tail : Text}
      → codes "intercom-g" ++ tail ≢ intercom_room_name generation
      → IsOutdated generation (codes "intercom-g" ++ tail)
