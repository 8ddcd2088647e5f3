-- ===== src/Bootstrap/Generation.antt =====
-- What a start keeps and what it revokes.
use ev211_field_server.Base.{
  ℕ, suc, ◌≡◌, ◌≢◌, refl, ap, ◌∙◌, Bool, true, false, Option, none, some, Text, ◌==◌, text_eq,
  text_beq_iff, Bool-cases, inl, inr, arith,
}
use ev211_field_server.Base.Dict
use ev211_field_server.Database.Channels.Lifecycle.{close_ai_complete}
use ev211_field_server.Database.Leases.{get_lease, clear_all_leases}
use ev211_field_server.Database.Settings.{
  get_generation, set_generation, set_password_and_generation, set_admin_password_and_generation,
}
use ev211_field_server.State.{AppState}
use ev211_field_server.Rotation.{
  LiveKit, changed, change_admin_password_locked, change_send_password_locked,
}
use ev211_field_server.Rotation.Revocation.{rotation_revokes, no_lease_left}
use ev211_field_server.Bootstrap.{decide_generation, prepare}

-- The generation that a start would take up is stored with the hash of the passwords.
abbrev pub IsCommitted : (Text → Text → Text) → AppState → Type 0
IsCommitted hash s =
    get_generation s.db ≡ some (s.generation, hash s.send_password s.admin_password)

same_generation :
    (h : Text) (g : ℕ) (o : Option (ℕ × Text))
    → o ≡ some (g, h)
    → decide_generation h o ≡ (g, false)
unfolding decide_generation
same_generation h g o e = rw e (ground (arith, text_beq_iff h h))

start_keeps :
    (hash : Text → Text → Text) (now : ℕ) (s : AppState)
    → IsCommitted hash s
    → ((prepare hash true now s).generation ≡ s.generation)
      × ((k : ℕ) → get_lease (prepare hash true now s).db k ≡ get_lease s.db k)
unfolding prepare get_lease set_generation
start_keeps hash now s e =
    rw
      (same_generation (hash s.send_password s.admin_password) s.generation (get_generation s.db) e)
      (refl, λ k. refl)

admin_refused :
    (hash : Text → Text → Text) (new_password : Text) (s : AppState)
    → (new_password == s.send_password) ≡ true
    → (change_admin_password_locked hash new_password s).0 ≢ changed
unfolding change_admin_password_locked
admin_refused hash new_password s same = rw same (λ answered. cc)

abbrev with_admin : (Text → Text → Text) → Text → AppState → AppState
with_admin hash new_password s = record s {
  db =
      set_admin_password_and_generation new_password s.generation
        (hash s.send_password new_password) s.db;
  admin_password = new_password;
}

-- After a change of the admin password, and after a start behind it with an OpenAI key, the
-- generation and every lease are those from before.
admin_change_keeps_broadcasts :
    (hash : Text → Text → Text) (now : ℕ) (new_password : Text) (s : AppState)
    → (change_admin_password_locked hash new_password s).0 ≡ changed
    → let t = (change_admin_password_locked hash new_password s).1 in
      ((prepare hash true now t).generation ≡ s.generation)
      × ((k : ℕ) → get_lease (prepare hash true now t).db k ≡ get_lease s.db k)
unfolding change_admin_password_locked set_admin_password_and_generation set_password_and_generation
    get_generation get_lease
admin_change_keeps_broadcasts hash now new_password s answered =
    elim (Bool-cases (new_password == s.send_password)) [
      | inl same ↦ absurd (admin_refused hash new_password s same answered)
      | inr other ↦ rw other (start_keeps hash now (with_admin hash new_password s) refl)
    ]

-- After a change of the send password, a start with an OpenAI key keeps the new generation.
rotation_survives_start :
    (hash : Text → Text → Text) (lk : LiveKit) (now later : ℕ) (new_password : Text) (s : AppState)
    → (change_send_password_locked hash lk now new_password s).0 ≡ changed
    → (prepare hash true later
        (change_send_password_locked hash lk now new_password s).1).generation
      ≡ suc s.generation
rotation_survives_start hash lk now later new_password s answered =
    let r = rotation_revokes hash lk now new_password s answered in
    let t = (change_send_password_locked hash lk now new_password s).1 in
    (start_keeps hash later t
      (r.stored ∙ ap (λ p. some p) (rw (r.next, r.password, r.admin) refl))).0
    ∙ r.next

not_same : (a b : Text) → a ≢ b → (a == b) ≡ false
not_same a b differ = elim (Bool-cases (a == b)) [
  | inl same ↦ absurd (differ ((text_beq_iff a b).0 same))
  | inr other ↦ other
]

-- Where the hash of the passwords is not the stored one, a start takes the generation that
-- follows the stored one, and no lease is left.
changed_passwords_revoke :
    (hash : Text → Text → Text) (has_key : Bool) (now g : ℕ) (stored : Text) (s : AppState)
    → get_generation s.db ≡ some (g, stored)
    → stored ≢ hash s.send_password s.admin_password
    → ((prepare hash has_key now s).generation ≡ suc g)
      × ((k : ℕ) → get_lease (prepare hash has_key now s).db k ≡ none)
unfolding prepare decide_generation clear_all_leases get_lease Dict.get
changed_passwords_revoke hash has_key now g stored s found differ =
    rw (found, not_same stored (hash s.send_password s.admin_password) differ)
      (
        refl,
        λ k.
            (close_ai_complete now (
                clear_all_leases
                  (set_generation (suc g) (hash s.send_password s.admin_password) s.db))).1
              k
            ∙ no_lease_left _ _ refl,
      )
