-- ===== src/Database/Leases/Held.antt =====
-- How long a speaker who joined keeps its channel.
use ev211_field_server.Base.{
  ℕ, ◌<◌, ◌≡◌, true, false, ◌&&◌, some, List, [], ◌∷◌, Text, ◌==◌, text_eq, nat_eq, All,
  text_beq_iff, arith,
}
use ev211_field_server.Base.Dict.{get-modify}
use ev211_field_server.Database.Rows.{Database, LeaseRow}
use ev211_field_server.Database.Leases.{
  get_lease, lease_alive, mark_lease_joined, joined_row, release_lease_if_identity,
}
use ev211_field_server.Database.Leases.Exclusive.{Attempt, attempt, attempt_keeps}
use ev211_field_server.Database.Leases.Release.{get_lease-release}

-- A call of acquire_lease, or the leave of an identity from a channel.
pub data LeaseOp : Type 0 where
  ask : Attempt → LeaseOp
  leave : ℕ → Text → LeaseOp

abbrev lease_op : ℕ → ℕ → Database → LeaseOp → Database
lease_op ttl grace db (ask a) = (attempt ttl grace db a).1
lease_op ttl grace db (leave k identity) = (release_lease_if_identity k identity db).1

unfoldable pub lease_run : ℕ → ℕ → Database → List LeaseOp → Database
lease_run ttl grace db [] = db
lease_run ttl grace db (op ∷ ops) = lease_run ttl grace (lease_op ttl grace db op) ops

-- A call before the lease expires, or a leave of another channel or identity.
abbrev pub Spares : LeaseRow → ℕ → LeaseOp → Type 0
Spares l k (ask a) = a.now < l.expires_at
Spares l k (leave j identity) = (j == k && l.identity == identity) ≡ false

abbrev pub joined_at_time : ℕ → LeaseRow → LeaseRow
joined_at_time t l = record l { joined_at = some t }

joined_alive :
    (t now ttl grace : ℕ) (l : LeaseRow)
    → now < l.expires_at
    → lease_alive (joined_at_time t l) now ttl grace ≡ true
unfolding lease_alive
joined_alive t now ttl grace l early = ground arith

op-Spares :
    (t ttl grace k : ℕ) (db : Database) (l : LeaseRow) (op : LeaseOp)
    → get_lease db k ≡ some (joined_at_time t l)
    → Spares l k op
    → get_lease (lease_op ttl grace db op) k ≡ some (joined_at_time t l)
op-Spares t ttl grace k db l (ask a) held early =
    attempt_keeps ttl grace db a k (joined_at_time t l) held
      (joined_alive t a.now ttl grace l early)
op-Spares t ttl grace k db l (leave j identity) held other =
    ground (arith, held, other, nat_eq.same_iff j k, get_lease-release j k identity db)

run-Spares :
    (t ttl grace k : ℕ) (db : Database) (l : LeaseRow) (ops : List LeaseOp)
    → get_lease db k ≡ some (joined_at_time t l)
    → All (Spares l k) ops
    → get_lease (lease_run ttl grace db ops) k ≡ some (joined_at_time t l)
unfolding lease_run
run-Spares t ttl grace k db l [] held spared = held
run-Spares t ttl grace k db l (op ∷ ops) held (first, spared) =
    run-Spares t ttl grace k (lease_op ttl grace db op) l ops
      (op-Spares t ttl grace k db l op held first) spared

-- A lease whose holder has joined is still the channel's lease behind any run of calls of
-- acquire_lease, for any channels, that come before it expires, and of leaves of other identities or
-- other channels, whatever the grace.
pub joined_lease_stays :
    (t ttl grace k : ℕ) (db : Database) (l : LeaseRow) (ops : List LeaseOp)
    → get_lease db k ≡ some l
    → All (Spares l k) ops
    → get_lease (lease_run ttl grace (mark_lease_joined t k l.identity db) ops) k
      ≡ some (joined_at_time t l)
joined_lease_stays t ttl grace k db l ops held spared =
    run-Spares t ttl grace k (mark_lease_joined t k l.identity db) l ops
      (unfold get_lease mark_lease_joined joined_row in
        ground (
          arith,
          nat_eq.same_iff k k,
          text_beq_iff l.identity l.identity,
          held,
          get-modify db.leases k k (joined_row t l.identity),
        ))
      spared
