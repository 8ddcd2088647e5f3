-- ===== src/Cascade/Chains.antt =====
-- The search for a cycle of sources: that it ends, and what its answer says of the chain.
use ev211_field_server.Base.{
  ℕ, zero, suc, ◌≡◌, ◌≤◌, ◌<◌, ◌⊎◌, refl, inl, inr, Bool, true, false, ◌||◌, not, Option, none,
  some, List, [], ◌∷◌, ◌==◌, nat_eq, nat_beq_iff, length, count_of, count_of-le-length, Bool-cases,
  Option-cases, arith,
}
use ev211_field_server.Base.Dict
use ev211_field_server.Database.Rows.{Database, ChannelRow}
use ev211_field_server.Database.Channels.{get_channel, is_open_ai}
use ev211_field_server.Cascade.{floor_channel_id, is_in, source_cycle, ai_source_cycle}

-- The chain of sources from a channel ends at the floor, at a channel without a source, or at one
-- that is not an open AI channel, and does not meet `avoided`.
pub data Ends (db : Database) (avoided : ℕ) : Option ℕ → Type 0 where
  at_none : Ends db avoided none
  at_floor : Ends db avoided (some 0)
  at_missing : {k : ℕ} → (k == avoided) ≡ false → get_channel db k ≡ none → Ends db avoided (some k)
  at_other :
      {k : ℕ} {c : ChannelRow}
      → (k == avoided) ≡ false
      → get_channel db k ≡ some c
      → is_open_ai c ≡ false
      → Ends db avoided (some k)
  behind :
      {k : ℕ} {c : ChannelRow}
      → (k == avoided) ≡ false
      → get_channel db k ≡ some c
      → Ends db avoided c.source_channel
      → Ends db avoided (some k)

-- The rows that the search has not seen.
abbrev unseen : List ℕ → List (ℕ × ChannelRow) → ℕ
unseen seen d = count_of (λ (r : ℕ × ChannelRow). not (is_in seen r.0)) d

unseen-le :
    (k : ℕ) (seen : List ℕ) (d : List (ℕ × ChannelRow)) → unseen (k ∷ seen) d ≤ unseen seen d
unseen-le k seen [] = omega arith
unseen-le k seen ((j, a) ∷ d) = ground (arith, unseen-le k seen d)

unseen-falls :
    (k : ℕ) (seen : List ℕ) (d : List (ℕ × ChannelRow)) (c : ChannelRow)
    → Dict.get d k ≡ some c
    → is_in seen k ≡ false
    → unseen (k ∷ seen) d < unseen seen d
unfolding Dict.get
unseen-falls k seen [] c h e = cc
unseen-falls k seen ((j, a) ∷ d) c h e =
    ground (arith, nat_beq_iff j k, nat_beq_iff k j, unseen-falls k seen d c, unseen-le k seen d)

floor-Ends : (db : Database) (out k : ℕ) → (k == floor_channel_id) ≡ true → Ends db out (some k)
floor-Ends db out k e = rw ((nat_beq_iff k 0).0 e) at_floor

-- With more fuel than unseen rows the search answers, and false only for a chain that ends.
cycle_decides :
    (fuel : ℕ) (db : Database) (output_cid : ℕ) (seen : List ℕ) (cur : Option ℕ)
    → unseen seen db.channels < fuel
    → (b : Bool) × (source_cycle fuel db output_cid seen cur ≡ some b)
      × (b ≡ false → Ends db output_cid cur)
unfolding source_cycle get_channel
cycle_decides zero db out seen cur h = absurd (omega arith)
cycle_decides (suc fuel) db out seen none h = (false, refl, λ _. at_none)
cycle_decides (suc fuel) db out seen (some k) h = elim (Bool-cases (k == floor_channel_id)) [
  | inl floor ↦ (false, rw (floor, source_cycle) refl, λ _. floor-Ends db out k floor)
  | inr above ↦ elim (Bool-cases (k == out || is_in seen k)) [
    | inl met ↦ (true, rw (above, met, source_cycle) refl, λ e. cc)
    | inr new ↦ elim (Option-cases (get_channel db k)) [
      | inl missing ↦ (
        false,
        rw (above, new, missing, source_cycle) refl,
        λ _. at_missing (ground arith) missing,
      )
      | inr (c, found) ↦ elim (Bool-cases (is_open_ai c)) [
        | inl goes_on ↦
            let (b, answers, ends) =
              cycle_decides fuel db out (k ∷ seen) c.source_channel
                (omega (arith, unseen-falls k seen db.channels c found (ground arith))) in
            (
              b,
              rw (above, new, found, goes_on, source_cycle) answers,
              λ e. behind (ground arith) found (ends e),
            )
        | inr stops ↦ (
          false,
          rw (above, new, found, stops, source_cycle) refl,
          λ _. at_other (ground arith) found stops,
        )
      ]
    ]
  ]
]

decided :
    (fuel : ℕ) (db : Database) (output_cid : ℕ) (cur : Option ℕ) (b : Bool)
    → source_cycle fuel db output_cid [] cur ≡ some b
    → (b ≡ false → Ends db output_cid cur)
    → (source_cycle fuel db output_cid [] cur ≡ some true)
      ⊎ ((source_cycle fuel db output_cid [] cur ≡ some false) × Ends db output_cid cur)
decided fuel db out cur true e ends = inl e
decided fuel db out cur false e ends = inr (e, ends refl)

-- The search for a cycle answers on every database, and where it answers false the chain of
-- sources ends without meeting the new channel.
pub ai_source_cycle_decides :
    (db : Database) (output_cid source_channel : ℕ)
    → (ai_source_cycle db output_cid source_channel ≡ some true)
      ⊎ ((ai_source_cycle db output_cid source_channel ≡ some false)
          × Ends db output_cid (some source_channel))
unfolding ai_source_cycle
ai_source_cycle_decides db output_cid source_channel =
    let fuel : ℕ = suc (length db.channels) in
    let (b, answers, ends) = cycle_decides fuel db output_cid [] (some source_channel) (
      omega (arith, count_of-le-length (λ (r : ℕ × ChannelRow). not (is_in [] r.0)) db.channels)) in
    decided fuel db output_cid (some source_channel) b answers ends
