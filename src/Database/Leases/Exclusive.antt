-- ===== src/Database/Leases/Exclusive.antt =====
-- While a lease is alive, nobody else gets its channel.
use ev211_field_server.Base.{
  ℕ, ◌+◌, ◌<◌, ◌≡◌, Bool, true, some, List, [], ◌∷◌, Text, text_eq, nat_eq, seconds, All, arith,
}
use ev211_field_server.Base.Dict.{get-put}
use ev211_field_server.Database.Rows.{Database, LeaseRow}
use ev211_field_server.Database.Leases.{get_lease, lease_alive, new_lease, acquire_lease}

pub record Attempt : Type 0 where
  pub now : ℕ
  pub channel_id : ℕ
  pub epoch : ℕ
  pub generation : ℕ
  pub nonce : Text

abbrev pub attempt : ℕ → ℕ → Database → Attempt → (Bool × Text) × Database
attempt ttl grace db a = acquire_lease a.now a.channel_id a.epoch a.generation a.nonce ttl grace db

-- The acquisitions of a run, in order, and the state behind them.
pub attempts : ℕ → ℕ → Database → List Attempt → Database
attempts ttl grace db [] = db
attempts ttl grace db (a ∷ tries) = attempts ttl grace (attempt ttl grace db a).1 tries

pub attempt_keeps :
    (ttl grace : ℕ) (db : Database) (a : Attempt) (k : ℕ) (l : LeaseRow)
    → get_lease db k ≡ some l
    → lease_alive l a.now ttl grace ≡ true
    → get_lease (attempt ttl grace db a).1 k ≡ some l
unfolding get_lease acquire_lease
attempt_keeps ttl grace db a k l e alive = ground (
  arith,
  nat_eq.same_iff a.channel_id k,
  get-put db.leases a.channel_id k (new_lease a.now a.channel_id a.epoch a.generation a.nonce ttl),
)

-- A lease that is alive at the times of all attempts of a run is still the channel's lease behind
-- them, whatever channels they ask for.
alive_lease_stays :
    (ttl grace : ℕ) (db : Database) (tries : List Attempt) (k : ℕ) (l : LeaseRow)
    → get_lease db k ≡ some l
    → All (λ a. lease_alive l (Attempt.now a) ttl grace ≡ true) tries
    → get_lease (attempts ttl grace db tries) k ≡ some l
unfolding attempts
alive_lease_stays ttl grace db [] k l e alive = e
alive_lease_stays ttl grace db (a ∷ tries) k l e (alive, rest) =
    alive_lease_stays ttl grace (attempt ttl grace db a).1 tries k l
      (attempt_keeps ttl grace db a k l e alive) rest

fresh_alive :
    (t ttl grace k e g : ℕ) (nonce : Text) (tries : List Attempt)
    → 0 < grace
    → All (λ a. Attempt.now a < t + seconds grace) tries
    → All (λ a. lease_alive (new_lease t k e g nonce ttl) (Attempt.now a) ttl grace ≡ true) tries
unfolding lease_alive new_lease
fresh_alive t ttl grace k e g nonce [] pos early = tt
fresh_alive t ttl grace k e g nonce (a ∷ tries) pos (h, early) =
    (ground arith, fresh_alive t ttl grace k e g nonce tries pos early)

-- A lease that was acquired at time `t` with a positive grace is still the channel's lease behind
-- any run of attempts, on any channels, that come before `t + grace`.
pub acquired_lease_stays :
    (t ttl grace k e g : ℕ) (nonce : Text) (db : Database) (tries : List Attempt)
    → (acquire_lease t k e g nonce ttl grace db).0.0 ≡ true
    → 0 < grace
    → All (λ a. Attempt.now a < t + seconds grace) tries
    → get_lease (attempts ttl grace (acquire_lease t k e g nonce ttl grace db).1 tries) k
      ≡ some (new_lease t k e g nonce ttl)
acquired_lease_stays t ttl grace k e g nonce db tries won pos early =
    alive_lease_stays ttl grace (acquire_lease t k e g nonce ttl grace db).1 tries k
      (new_lease t k e g nonce ttl)
      (unfold get_lease acquire_lease in
        ground (arith, nat_eq.same_iff k k, get-put db.leases k k (new_lease t k e g nonce ttl)))
      (fresh_alive t ttl grace k e g nonce tries pos early)
