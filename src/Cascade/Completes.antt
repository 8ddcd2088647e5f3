-- ===== src/Cascade/Completes.antt =====
-- That the cascade ends, and what it leaves.
use ev211_field_server.Base.{
  ℕ, zero, suc, ◌≡◌, ◌≤◌, ◌<◌, ◌≢◌, refl, inl, inr, Bool, true, false, Option, none, some, List, [],
  ◌∷◌, ◌++◌, nat_eq, nat_beq_iff, length, count_of-le-length, Bool-cases, Option-cases, arith,
}
use ev211_field_server.Database.Rows.{ChannelRow}
use ev211_field_server.Database.Channels.{get_channel, is_open_ai}
use ev211_field_server.State.{AppState}
use ev211_field_server.Site.{World}
use ev211_field_server.Cascade.{
  is_in, is_dependent, candidates, close_level, cascade, close_dependent_ai_channels,
}
use ev211_field_server.Cascade.Levels.{
  open_count, depends, depends-level, clear-level, level_clears, closed_is_clear, open_count-level,
}
use ev211_field_server.Cascade.Candidates.{is_in-candidates, is_in-append}

abbrev is_open_row : ℕ × ChannelRow → Bool
is_open_row r = is_open_ai r.1

-- An open AI channel whose source is among `ended` has its source in the frontier still.
abbrev IsPending : List ℕ → List ℕ → AppState → Type 0
IsPending frontier ended s =
    (j k : ℕ) → depends (k ∷ []) s j ≡ true → is_in ended k ≡ true → is_in frontier k ≡ true

-- The channels closed so far depend on nothing.
abbrev IsSettled : List ℕ → AppState → Type 0
IsSettled closed s = (gs : List ℕ) (j : ℕ) → is_in closed j ≡ true → depends gs s j ≡ false

dependent-in :
    (fs : List ℕ) (k : ℕ) (o : Option ChannelRow)
    → is_dependent (k ∷ []) o ≡ true
    → is_in fs k ≡ true
    → is_dependent fs o ≡ true
dependent-in fs k none h e = cc
dependent-in fs k (some c) h e = elim (Option-cases c.source_channel) [
  | inl no_source ↦ ground arith
  | inr (x, source) ↦ ground (arith, nat_beq_iff k x)
]

both_ways : {b : Bool} → b ≡ false → b ≡ true → ⊥
both_ways e h = cc

unseen :
    (fs seen : List ℕ) (s : AppState) (j : ℕ)
    → IsSettled seen s
    → depends fs s j ≡ true
    → is_in seen j ≡ false
unseen fs seen s j settled h = elim (Bool-cases (is_in seen j)) [
  | inl e ↦ absurd (both_ways (settled fs j e) h)
  | inr e ↦ e
]

nonempty-length : {A : Type 0} (xs : List A) → xs ≢ [] → 1 ≤ length xs
nonempty-length [] h = absurd (h refl)
nonempty-length (x ∷ xs) h = omega arith

no_more :
    (ended : List ℕ) (t : AppState)
    → IsPending [] ended t
    → (j k : ℕ) → is_in ended k ≡ true
    → depends (k ∷ []) t j ≡ false
no_more ended t left j k known = elim (Bool-cases (depends (k ∷ []) t j)) [
  | inl still ↦ absurd (both_ways refl (left j k still known))
  | inr clear ↦ clear
]

module _ (w : World) (now : ℕ) where
  level_settles :
      (fs ks closed : List ℕ) (s : AppState)
      → IsSettled closed s
      → IsSettled (closed ++ (close_level w now fs ks s).0) (close_level w now fs ks s).1
  level_settles fs ks closed s h gs j e = elim (Bool-cases (is_in closed j)) [
    | inl before ↦ clear-level w now gs fs ks s j (h gs j before)
    | inr later ↦
        closed_is_clear w now gs fs ks s j
          (ground (arith, is_in-append closed (close_level w now fs ks s).0 j))
  ]

  level_pends :
      (fs ended seen : List ℕ) (s : AppState)
      → IsSettled seen s
      → IsPending fs ended s
      → let (next, t) = close_level w now fs (candidates fs seen s.db) s in
        IsPending next (ended ++ next) t
  level_pends fs ended seen s settled h j k e known =
      let ks = candidates fs seen s.db in
      let (next, t) = close_level w now fs ks s in
      elim (Bool-cases (is_in next k)) [
        | inl new ↦ new
        | inr old ↦
            let before = depends-level w now (k ∷ []) fs ks s j e in
            let inside = h j k before (ground (arith, is_in-append ended next k)) in
            let looked =
              is_in-candidates fs seen s j (dependent-in fs k (get_channel s.db j) before inside) (
                unseen fs seen s j settled
                  (dependent-in fs k (get_channel s.db j) before inside)) in
            absurd (
              both_ways (level_clears w now fs ks s j looked)
                (dependent-in fs k (get_channel t.db j) e inside))
      ]

  cascade_leaves :
      (fuel source_id : ℕ) (fs closed : List ℕ) (s : AppState)
      → (fs ≢ [] → open_count s < fuel)
      → IsSettled closed s
      → IsPending fs (source_id ∷ closed) s
      → (ids : List ℕ) × (t : AppState) × (cascade w now fuel fs closed s ≡ some (ids, t))
        × IsPending [] (source_id ∷ ids) t
  unfolding cascade
  cascade_leaves fuel source_id [] closed s enough settled h = (closed, s, refl, h)
  cascade_leaves zero source_id (f ∷ fs) closed s enough settled h =
      absurd (omega (arith, enough (λ e. cc)))
  cascade_leaves (suc fuel) source_id (f ∷ fs) closed s enough settled h =
      let ks = candidates (f ∷ fs) closed s.db in
      let (next, t) = close_level w now (f ∷ fs) ks s in
      cascade_leaves fuel source_id next (closed ++ next) t
        (λ some_closed. omega (
          arith,
          open_count-level w now (f ∷ fs) ks s,
          nonempty-length next some_closed,
          enough (λ e. cc),
        ))
        (level_settles (f ∷ fs) ks closed s settled)
        (level_pends (f ∷ fs) (source_id ∷ closed) closed s settled h)

  IsPending-at_start :
      (source_id : ℕ) (s : AppState) → IsPending (source_id ∷ []) (source_id ∷ []) s
  IsPending-at_start source_id s j k h e = e

  -- The cascade ends, and behind it no open AI channel translates the closed channel or one that
  -- the cascade has closed.
  pub cascade_completes :
      (source_id : ℕ) (s : AppState)
      → (ids : List ℕ) × (t : AppState) × (close_dependent_ai_channels w now source_id s
          ≡ some (ids, t))
        × ((j k : ℕ) → is_in (source_id ∷ ids) k ≡ true → depends (k ∷ []) t j ≡ false)
  unfolding close_dependent_ai_channels
  cascade_completes source_id s =
      let (ids, t, ends, left) =
        cascade_leaves (suc (length s.db.channels)) source_id (source_id ∷ []) [] s
          (λ _. omega (arith, count_of-le-length is_open_row s.db.channels)) (λ gs j e. cc)
          (IsPending-at_start source_id s) in
      (ids, t, ends, λ j k known. no_more (source_id ∷ ids) t left j k known)
