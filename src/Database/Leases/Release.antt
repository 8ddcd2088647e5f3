-- ===== src/Database/Leases/Release.antt =====
-- A lease is released by its own identity alone.
use ev211_field_server.Base.{
  ℕ, ◌<◌, ◌≡◌, ◌≢◌, sym, ◌&&◌, Bool-cases, inl, inr, true, false, none, ◌∷◌, Text, ◌==◌, text_eq,
  nat_eq, text_beq_iff, if◌then◌else◌, All, arith,
}
use ev211_field_server.Base.Dict.{get-put, get-remove}
use ev211_field_server.Identity.{speaker_identity, is_alnum}
use ev211_field_server.Identity.RoundTrip.{ascii_digits, speaker_identity_injective}
use ev211_field_server.Database.Rows.{Database}
use ev211_field_server.Database.Leases.{
  get_lease, new_lease, force_acquire_lease, found_identity, release_lease_if_identity,
}

-- What a release by identity does to the lease of any channel.
pub get_lease-release :
    (k j : ℕ) (identity : Text) (db : Database)
    → get_lease (release_lease_if_identity k identity db).1 j
      ≡ (if (k == j) && found_identity (get_lease db k) identity then none else get_lease db j)
unfolding get_lease release_lease_if_identity
get_lease-release k j identity db = ground (arith, get-remove db.leases k j)

other_identity :
    (k e₁ e₂ g₁ g₂ c₁ c₂ : ℕ) (n₁ n₂ : Text)
    → k < 100
    → All (λ x. is_alnum x ≡ true) (c₁ ∷ n₁)
    → All (λ x. is_alnum x ≡ true) (c₂ ∷ n₂)
    → c₁ ∷ n₁ ≢ c₂ ∷ n₂
    → (speaker_identity k e₂ g₂ (c₂ ∷ n₂) == speaker_identity k e₁ g₁ (c₁ ∷ n₁)) ≡ false
other_identity k e₁ e₂ g₁ g₂ c₁ c₂ n₁ n₂ h p₁ p₂ differ =
    elim (Bool-cases (speaker_identity k e₂ g₂ (c₂ ∷ n₂) == speaker_identity k e₁ g₁ (c₁ ∷ n₁))) [
      | inl same ↦ absurd (
          differ (
            sym
              (speaker_identity_injective ascii_digits k k e₂ e₁ g₂ g₁ c₂ c₁ n₂ n₁ h h p₂ p₁
                ((text_beq_iff _ _).0 same)).3))
      | inr other ↦ other
    ]

-- After a takeover of a channel below 100, a leave of the speaker that was taken over (whose nonce
-- is another one, of letters and digits as the new nonce is) releases nothing: it answers false
-- and the ledger is as before.
pub stale_leave_releases_nothing :
    (t k e₁ e₂ g₁ g₂ ttl c₁ c₂ : ℕ) (n₁ n₂ : Text) (db : Database)
    → k < 100
    → All (λ x. is_alnum x ≡ true) (c₁ ∷ n₁)
    → All (λ x. is_alnum x ≡ true) (c₂ ∷ n₂)
    → c₁ ∷ n₁ ≢ c₂ ∷ n₂
    → release_lease_if_identity k
        (speaker_identity k e₁ g₁ (c₁ ∷ n₁))
        (force_acquire_lease t k e₂ g₂ (c₂ ∷ n₂) ttl db).1
      ≡ (false, (force_acquire_lease t k e₂ g₂ (c₂ ∷ n₂) ttl db).1)
unfolding release_lease_if_identity force_acquire_lease
stale_leave_releases_nothing t k e₁ e₂ g₁ g₂ ttl c₁ c₂ n₁ n₂ db h p₁ p₂ differ = ground (
  arith,
  other_identity k e₁ e₂ g₁ g₂ c₁ c₂ n₁ n₂ h p₁ p₂ differ,
  nat_eq.same_iff k k,
  get-put db.leases k k (new_lease t k e₂ g₂ (c₂ ∷ n₂) ttl),
)

pub released_by_identity :
    (k : ℕ) (identity : Text) (db : Database)
    → (release_lease_if_identity k identity db).0 ≡ found_identity (get_lease db k) identity
unfolding get_lease release_lease_if_identity
released_by_identity k identity db = ground arith
