-- ===== src/Cascade/Exact.antt =====
-- The channels that the cascade closes, by a relation: those that depend on the source, directly or
-- through others.
use ev211_field_server.Base.{
  ℕ, zero, suc, ◌≡◌, ◌∙◌, ◌⊎◌, ◌↔◌, refl, inl, inr, true, false, Option, none, some, List, [], ◌∷◌,
  ◌++◌, nat_eq, nat_beq_iff, length, Bool-cases, Option-cases, arith,
}
use mathlib.Core.Path.{subst}
use ev211_field_server.Database.Rows.{ChannelRow}
use ev211_field_server.Database.Channels.{get_channel}
use ev211_field_server.State.{AppState}
use ev211_field_server.Site.{World}
use ev211_field_server.Cascade.{
  is_in, is_dependent, candidates, close_level, cascade, close_dependent_ai_channels,
}
use ev211_field_server.Cascade.Levels.{depends, depends-level, closed_depended, unclosed_stays}
use ev211_field_server.Cascade.Candidates.{is_in-append}
use ev211_field_server.Cascade.Completes.{cascade_completes}

-- An open AI channel that translates the root, or a channel that does.
pub data DependsOn (s : AppState) (root : ℕ) : ℕ → Type 0 where
  directly : {j : ℕ} → depends (root ∷ []) s j ≡ true → DependsOn s root j
  through : {j k : ℕ} → DependsOn s root k → depends (k ∷ []) s j ≡ true → DependsOn s root j

abbrev IsReached : AppState → ℕ → List ℕ → Type 0
IsReached s root fs = (k : ℕ) → is_in fs k ≡ true → (root ≡ k) ⊎ DependsOn s root k

abbrev IsNarrower : AppState → AppState → Type 0
IsNarrower s t = (gs : List ℕ) (j : ℕ) → depends gs t j ≡ true → depends gs s j ≡ true

one_of :
    (fs : List ℕ) (o : Option ChannelRow)
    → is_dependent fs o ≡ true
    → (k : ℕ) × (is_in fs k ≡ true) × (is_dependent (k ∷ []) o ≡ true)
one_of fs none h = cc
one_of fs (some c) h = elim (Option-cases c.source_channel) [
  | inl no_source ↦ absurd (ground arith)
  | inr (x, source) ↦ (x, ground arith, ground (arith, nat_beq_iff x x))
]

reached_dependent :
    (s : AppState) (root j : ℕ) (fs : List ℕ)
    → IsReached s root fs
    → depends fs s j ≡ true
    → DependsOn s root j
reached_dependent s root j fs reached h =
    let (k, inside, depending) = one_of fs (get_channel s.db j) h in
    elim (reached k inside) [
      | inl same ↦ directly (rw same depending)
      | inr before ↦ through before depending
    ]

-- What a cascade that answers has done, with what it started from.
abbrev Explains : AppState → ℕ → List ℕ → AppState → Option (List ℕ × AppState) → Type 0
Explains s₀ root closed s none = Unit {0}
Explains s₀ root closed s (some (ids, t)) =
    ((j : ℕ) → is_in ids j ≡ true → DependsOn s₀ root j)
    × ((gs : List ℕ) (j : ℕ) → is_in ids j ≡ false → depends gs t j ≡ depends gs s j)
    × ((j : ℕ) → is_in closed j ≡ true → is_in ids j ≡ true)

explained :
    (s₀ : AppState) (root : ℕ) (closed : List ℕ) (s : AppState) (o : Option (List ℕ × AppState))
    (r : List ℕ × AppState)
    → o ≡ some r
    → Explains s₀ root closed s o
    → Explains s₀ root closed s (some r)
explained s₀ root closed s o r e h = subst (λ x. Explains s₀ root closed s x) e h

outside :
    (ids next : List ℕ) (j : ℕ)
    → (is_in next j ≡ true → is_in ids j ≡ true)
    → is_in ids j ≡ false
    → is_in next j ≡ false
outside ids next j inside out = ground arith

module _ (w : World) (now : ℕ) where
  level-Explains :
      (s₀ : AppState) (root : ℕ) (fs ks closed : List ℕ) (s : AppState)
      (o : Option (List ℕ × AppState))
      → let (next, t) = close_level w now fs ks s in
        Explains s₀ root (closed ++ next) t o → Explains s₀ root closed s o
  level-Explains s₀ root fs ks closed s none h = tt
  level-Explains s₀ root fs ks closed s (some (ids, t')) (sound, stays, inside) =
      let next = (close_level w now fs ks s).0 in
      (
        sound,
        λ gs j out.
            stays gs j out
            ∙ unclosed_stays w now gs fs ks s j (
                outside ids next j (λ e. inside j (is_in-append closed next j ∙ ground (arith, e)))
                  out),
        λ j e. inside j (is_in-append closed next j ∙ ground (arith, e)),
      )

  cascade-Explains :
      (s₀ : AppState) (root fuel : ℕ) (fs closed : List ℕ) (s : AppState)
      → IsReached s₀ root fs
      → ((j : ℕ) → is_in closed j ≡ true → DependsOn s₀ root j)
      → IsNarrower s₀ s
      → Explains s₀ root closed s (cascade w now fuel fs closed s)
  unfolding cascade
  cascade-Explains s₀ root fuel [] closed s reached sound narrow = (sound, λ gs j e. refl, λ j e. e)
  cascade-Explains s₀ root zero (f ∷ fs) closed s reached sound narrow = tt
  cascade-Explains s₀ root (suc fuel) (f ∷ fs) closed s reached sound narrow =
      let ks = candidates (f ∷ fs) closed s.db in
      let (next, t) = close_level w now (f ∷ fs) ks s in
      let explains : (j : ℕ) → is_in next j ≡ true → DependsOn s₀ root j = λ j e.
        reached_dependent s₀ root j (f ∷ fs) reached
          (narrow (f ∷ fs) j (closed_depended w now (f ∷ fs) ks s j e)) in
      level-Explains s₀ root (f ∷ fs) ks closed s (cascade w now fuel next (closed ++ next) t) (
        cascade-Explains s₀ root fuel next (closed ++ next) t (λ k e. inr (explains k e))
          (λ j e. elim (Bool-cases (is_in closed j)) [
            | inl before ↦ sound j before
            | inr later ↦ explains j (ground (arith, is_in-append closed next j))
          ])
          (λ gs j h. narrow gs j (depends-level w now gs (f ∷ fs) ks s j h)))

  complete :
      (root : ℕ) (s t : AppState) (ids : List ℕ)
      → ((gs : List ℕ) (j : ℕ) → is_in ids j ≡ false → depends gs t j ≡ depends gs s j)
      → ((j k : ℕ) → is_in (root ∷ ids) k ≡ true → depends (k ∷ []) t j ≡ false)
      → (j : ℕ) → DependsOn s root j
      → is_in ids j ≡ true
  complete root s t ids stays left j (directly h) = elim (Bool-cases (is_in ids j)) [
    | inl inside ↦ inside
    | inr out ↦ ground (arith, nat_beq_iff root root, stays (root ∷ []) j out, left j root)
  ]
  complete root s t ids stays left j (through {k = k} before h) = elim (Bool-cases (is_in ids j)) [
    | inl inside ↦ inside
    | inr out ↦
        ground (arith, complete root s t ids stays left k before, stays (k ∷ []) j out, left j k)
  ]

  at_start : (root : ℕ) (s : AppState) → IsReached s root (root ∷ [])
  at_start root s k e = inl (ground (arith, nat_beq_iff root k))

  none_left :
      (ended : List ℕ) (t : AppState)
      → ((j k : ℕ) → is_in ended k ≡ true → depends (k ∷ []) t j ≡ false)
      → (j : ℕ) → depends ended t j ≡ false
  none_left ended t left j = elim (Bool-cases (depends ended t j)) [
    | inl still ↦
        let (k, inside, depending) = one_of ended (get_channel t.db j) still in
        absurd (ground (arith, left j k inside, depending))
    | inr clear ↦ clear
  ]

  -- The cascade ends, and closes exactly the channels that depended on the source before it,
  -- directly or through others; behind it no open AI channel translates the source or a channel
  -- that it closed.
  pub cascade_exact :
      (source_id : ℕ) (s : AppState)
      → (ids : List ℕ) × (t : AppState) × (close_dependent_ai_channels w now source_id s
          ≡ some (ids, t))
        × ((j : ℕ) → (is_in ids j ≡ true) ↔ DependsOn s source_id j)
        × ((j : ℕ) → depends (source_id ∷ ids) t j ≡ false)
  unfolding close_dependent_ai_channels
  cascade_exact source_id s =
      let (ids, t, ends, left) = cascade_completes w now source_id s in
      let (sound, stays, _) =
        explained s source_id [] s _ (ids, t) ends
          (cascade-Explains s source_id (suc (length s.db.channels)) (source_id ∷ []) [] s
            (at_start source_id s) (λ j e. cc) (λ gs j h. h)) in
      (
        ids,
        t,
        ends,
        λ j. (sound j, complete source_id s t ids stays left j),
        none_left (source_id ∷ ids) t left,
      )
