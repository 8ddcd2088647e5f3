-- ===== src/Examples/Leases.antt =====
-- Tests of the leases.
use ev211_field_server.Base.{List, arith, ◌≡◌, refl, false, some, [], ◌∷◌, codes}
use ev211_field_server.Identity.{speaker_identity}
use ev211_field_server.Database.Rows.{empty_db}
use ev211_field_server.Database.Leases.{
  get_lease, new_lease, acquire_lease, force_acquire_lease, mark_lease_joined,
  release_lease_if_identity,
}
use ev211_field_server.Database.Leases.Exclusive.{Attempt, attempts, acquired_lease_stays}
use ev211_field_server.Database.Leases.Held.{LeaseOp, ask, leave, lease_run, joined_lease_stays}
use ev211_field_server.Database.Leases.Release.{stale_leave_releases_nothing}
use ev211_field_server.Examples.Program.{whole_program}
use ev211_field_server.Examples.Fixtures.{db_one, lease_row}

-- Another speaker asks for the channel.
abbrev rival : Attempt
rival = record { now = 20; channel_id = 1; epoch = 1; generation = 1; nonce = codes "zz" }

acquired_lease_stays_example :
    get_lease
      (attempts 3600 30 (acquire_lease 10 1 1 1 (codes "ab") 3600 30 empty_db).1 (rival ∷ []))
      1
    ≡ some (new_lease 10 1 1 1 (codes "ab") 3600)
unfolding whole_program
acquired_lease_stays_example =
    acquired_lease_stays 10 3600 30 1 1 1 (codes "ab") empty_db (rival ∷ []) refl (omega arith)
      (omega arith, tt)

-- The rival asks, and leaves again.
abbrev rival_ops : List LeaseOp
rival_ops = ask rival ∷ leave 1 (codes "speaker-ch-01-e1-g1-nzz") ∷ []

joined_lease_stays_example :
    get_lease (lease_run 3600 30 (mark_lease_joined 15 1 lease_row.identity db_one) rival_ops) 1
    ≡ some (record lease_row { joined_at = some 15 })
unfolding whole_program
joined_lease_stays_example =
    joined_lease_stays 15 3600 30 1 db_one lease_row rival_ops refl (omega arith, (refl, tt))

stale_leave_releases_nothing_example :
    release_lease_if_identity 1
      (speaker_identity 1 1 1 (codes "ab"))
      (force_acquire_lease 10 1 2 1 (codes "cd") 3600 db_one).1
    ≡ (false, (force_acquire_lease 10 1 2 1 (codes "cd") 3600 db_one).1)
unfolding whole_program
stale_leave_releases_nothing_example =
    stale_leave_releases_nothing 10 1 1 2 1 1 3600 b'a' b'c' (codes "b") (codes "d") db_one
      (omega arith) (refl, (refl, tt)) (refl, (refl, tt)) (λ e. ground (arith, e))
