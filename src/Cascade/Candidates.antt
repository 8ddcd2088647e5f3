-- ===== src/Cascade/Candidates.antt =====
-- Which channels a level of the cascade looks at.
use ev211_field_server.Base.{
  ℕ, ◌≡◌, ◌∙◌, refl, inl, inr, Bool, true, false, ◌&&◌, ◌||◌, not, some, List, [], ◌∷◌, ◌++◌, map,
  ◌==◌, nat_eq, keep, any-order_by, Option-cases, arith,
}
use ev211_field_server.Base.Dict
use ev211_field_server.Base.Dict.{get-modify}
use ev211_field_server.Database.Rows.{Database, ChannelRow}
use ev211_field_server.Database.Channels.{
  get_channel, is_open_ai, has_source, list_open_ai_channels_by_source,
}
use ev211_field_server.State.{AppState}
use ev211_field_server.Cascade.{is_in, is_dependent, distinct, by_sources, candidates}
use ev211_field_server.Cascade.Levels.{depends}

pub is_in-append : (xs ys : List ℕ) (j : ℕ) → is_in (xs ++ ys) j ≡ (is_in xs j || is_in ys j)
is_in-append [] ys j = refl
is_in-append (x ∷ xs) ys j = ground (arith, is_in-append xs ys j)

is_in-distinct : (ks : List ℕ) (j : ℕ) → is_in (distinct ks) j ≡ is_in ks j
unfolding distinct
is_in-distinct [] j = refl
is_in-distinct (k ∷ ks) j = ground (arith, is_in-distinct ks k, is_in-distinct ks j)

is_in-keep :
    (p : ℕ → Bool) (ks : List ℕ) (j : ℕ)
    → is_in ks j ≡ true
    → p j ≡ true
    → is_in (keep p ks) j ≡ true
is_in-keep p [] j h e = cc
is_in-keep p (k ∷ ks) j h e = ground (arith, is_in-keep p ks j)

is_in-rows :
    (p : ChannelRow → Bool) (d : List (ℕ × ChannelRow)) (j : ℕ) (c : ChannelRow)
    → Dict.get d j ≡ some c
    → p c ≡ true
    → is_in (map (λ (r : ℕ × ChannelRow). r.0) (keep (λ (r : ℕ × ChannelRow). p r.1) d)) j ≡ true
unfolding Dict.get
is_in-rows p [] j c h e = cc
is_in-rows p ((k, a) ∷ d) j c h e = ground (arith, is_in-rows p d j c)

dependent-head :
    (k : ℕ) (fs : List ℕ) (c : ChannelRow)
    → is_dependent (k ∷ fs) (some c) ≡ (is_open_ai c && has_source k c || is_dependent fs (some c))
dependent-head k fs c = elim (Option-cases c.source_channel) [
  | inl e ↦ ground arith
  | inr (x, e) ↦ ground arith
]

is_in-by_sources :
    (fs : List ℕ) (db : Database) (j : ℕ) (c : ChannelRow)
    → get_channel db j ≡ some c
    → is_dependent fs (some c) ≡ true
    → is_in (by_sources fs db) j ≡ true
unfolding by_sources list_open_ai_channels_by_source get_channel
is_in-by_sources [] db j c e h = elim (Option-cases c.source_channel) [
  | inl no_source ↦ ground arith
  | inr (x, source) ↦ ground arith
]
is_in-by_sources (k ∷ fs) db j c e h = ground (
  arith,
  dependent-head k fs c,
  is_in-append (list_open_ai_channels_by_source k db) (by_sources fs db) j,
  is_in-rows (λ a. is_open_ai a && has_source k a) db.channels j c e,
  is_in-by_sources fs db j c e,
)

abbrev fresh : List ℕ → List ℕ → AppState → List ℕ
fresh fs seen s = keep (λ k. not (is_in seen k)) (by_sources fs s.db)

-- Among them is every channel that depends on the frontier and was not seen.
pub is_in-candidates :
    (fs seen : List ℕ) (s : AppState) (j : ℕ)
    → depends fs s j ≡ true
    → is_in seen j ≡ false
    → is_in (candidates fs seen s.db) j ≡ true
unfolding candidates
is_in-candidates fs seen s j h unseen = elim (Option-cases (get_channel s.db j)) [
  | inl missing ↦ absurd (ground arith)
  | inr (c, e) ↦
      any-order_by (λ k. k) (λ k. k == j) (distinct (fresh fs seen s))
      ∙ is_in-distinct (fresh fs seen s) j
      ∙ is_in-keep (λ k. not (is_in seen k)) (by_sources fs s.db) j
          (is_in-by_sources fs s.db j c e (ground arith)) (ground arith)
]
