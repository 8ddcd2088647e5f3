-- ===== src/Database/Leases.antt =====
-- Leases of api/app/db.py: who may send on a channel, and until when.
pub mod Exclusive
pub mod Release
pub mod Held
use ev211_field_server.Base.{
  ℕ, ◌+◌, Bool, true, false, ◌&&◌, not, Option, none, some, List, [], Text, ◌==◌, text_eq, nat_eq,
  ltb, leb, if◌then◌else◌, seconds,
}
use ev211_field_server.Base.Dict
use ev211_field_server.Identity.{speaker_identity}
use ev211_field_server.Database.Rows.{Database, LeaseRow}

unfoldable pub get_lease : Database → ℕ → Option LeaseRow
get_lease db channel_id = Dict.get db.leases channel_id

-- `issued_at = expires_at - ttl_seconds` may be negative, so it is moved to the other side.
unfoldable pub lease_alive : LeaseRow → ℕ → ℕ → ℕ → Bool
lease_alive l now ttl_seconds grace_seconds = elim l.joined_at [
  | some _ ↦ ltb now l.expires_at
  | none ↦
      if leb grace_seconds 0
      then ltb now l.expires_at
      else ltb (now + seconds ttl_seconds) (l.expires_at + seconds grace_seconds)
]

abbrev pub found_alive : Option LeaseRow → ℕ → ℕ → ℕ → Bool
found_alive none now ttl_seconds grace_seconds = false
found_alive (some l) now ttl_seconds grace_seconds = lease_alive l now ttl_seconds grace_seconds

unfoldable pub new_lease : ℕ → ℕ → ℕ → ℕ → Text → ℕ → LeaseRow
new_lease now channel_id epoch generation nonce ttl_seconds = record {
  identity = speaker_identity channel_id epoch generation nonce;
  epoch = epoch;
  generation = generation;
  nonce = nonce;
  expires_at = now + seconds ttl_seconds;
  joined_at = none;
}

unfoldable pub acquire_lease : ℕ → ℕ → ℕ → ℕ → Text → ℕ → ℕ → Database → (Bool × Text) × Database
unfolding new_lease lease_alive
acquire_lease now channel_id epoch generation nonce ttl_seconds grace_seconds db =
    if found_alive (Dict.get db.leases channel_id) now ttl_seconds grace_seconds
    then ((false, []), db)
    else (
      (true, speaker_identity channel_id epoch generation nonce),
      record db {
        leases =
            Dict.put db.leases channel_id
              (new_lease now channel_id epoch generation nonce ttl_seconds);
      },
    )

unfoldable pub force_acquire_lease : ℕ → ℕ → ℕ → ℕ → Text → ℕ → Database → Text × Database
unfolding new_lease
force_acquire_lease now channel_id epoch generation nonce ttl_seconds db = (
  speaker_identity channel_id epoch generation nonce,
  record db {
    leases =
        Dict.put db.leases channel_id (new_lease now channel_id epoch generation nonce ttl_seconds);
  },
)

abbrev pub found_identity : Option LeaseRow → Text → Bool
found_identity none identity = false
found_identity (some l) identity = l.identity == identity

unfoldable pub release_lease_if_identity : ℕ → Text → Database → Bool × Database
release_lease_if_identity channel_id identity db =
    if found_identity (Dict.get db.leases channel_id) identity
    then (true, record db { leases = Dict.remove db.leases channel_id })
    else (false, db)

unfoldable pub release_lease : ℕ → Database → Database
release_lease channel_id db = record db { leases = Dict.remove db.leases channel_id }

unfoldable pub joined_row : ℕ → Text → LeaseRow → LeaseRow
joined_row now identity l = if l.identity == identity then record l { joined_at = some now } else l

unfoldable pub mark_lease_joined : ℕ → ℕ → Text → Database → Database
unfolding joined_row
mark_lease_joined now channel_id identity db = record db {
  leases = Dict.modify db.leases channel_id (joined_row now identity);
}

unfoldable pub extend_lease_if_identity : ℕ → ℕ → Text → ℕ → Database → Bool × Database
extend_lease_if_identity now channel_id identity ttl_seconds db =
    if found_identity (Dict.get db.leases channel_id) identity
    then (
      true,
      record db {
        leases =
            Dict.modify db.leases channel_id
              (λ l. record l { expires_at = now + seconds ttl_seconds });
      },
    )
    else (false, db)

unfoldable pub clear_all_leases : Database → Database
clear_all_leases db = record db { leases = [] }
