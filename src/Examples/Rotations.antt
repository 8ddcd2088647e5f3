-- ===== src/Examples/Rotations.antt =====
-- Tests of the password changes and of the start.
use ev211_field_server.Base.{arith, text_beq_iff, ◌≡◌, refl, true, none, some, List, codes}
use ev211_field_server.Events.{Participant}
use ev211_field_server.State.{room}
use ev211_field_server.Rotation.{LiveKit, change_send_password_locked}
use ev211_field_server.Rotation.Atomicity.{OnlyAsked, failed_rotation_changes_nothing}
use ev211_field_server.Rotation.Revocation.{IsRevoked, rotation_revokes}
use ev211_field_server.Bootstrap.{prepare, bootstrap}
use ev211_field_server.Bootstrap.Restored.{IsStarted, start_reconciles}
use ev211_field_server.Examples.Program.{whole_program}
use ev211_field_server.Examples.Fixtures.{
  world_one, state_one, livekit_one, server_one, two_passwords,
}

-- A LiveKit that cannot list its rooms.
abbrev livekit_down : LiveKit
livekit_down = record livekit_one { rooms = none }

failed_rotation_changes_nothing_example :
    OnlyAsked state_one
      (change_send_password_locked two_passwords livekit_down 10 (codes "q") state_one).1
unfolding whole_program
failed_rotation_changes_nothing_example =
    failed_rotation_changes_nothing two_passwords livekit_down 10 (codes "q") state_one
      (λ e. absurd (ground (arith, e, text_beq_iff (codes "field-g1") (codes "field-g2"))))

rotation_revokes_example :
    IsRevoked two_passwords
      (codes "q")
      state_one
      (change_send_password_locked two_passwords livekit_one 10 (codes "q") state_one).1
unfolding whole_program
rotation_revokes_example = rotation_revokes two_passwords livekit_one 10 (codes "q") state_one refl

start_reconciles_example :
    (ps : List Participant) × (server_one.participants
        (room (prepare two_passwords true 10 state_one))
      ≡ some ps)
    × IsStarted server_one ps
        (prepare two_passwords true 10 state_one)
        (bootstrap server_one world_one two_passwords true 10 state_one).1
unfolding whole_program
start_reconciles_example =
    start_reconciles server_one world_one two_passwords true 10 state_one refl
