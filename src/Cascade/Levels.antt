-- ===== src/Cascade/Levels.antt =====
-- What one level of the cascade closes.
use ev211_field_server.Base.{
  ℕ, ◌+◌, ◌≡◌, refl, ap, inl, inr, Bool, true, false, Option, none, some, List, [], ◌∷◌, ◌==◌,
  nat_eq, nat_beq_iff, if◌then◌else◌, length, count_of, Bool-cases, arith,
}
use mathlib.Core.Option
use ev211_field_server.Base.Dict
use ev211_field_server.Base.Dict.{get-modify}
use ev211_field_server.Database.Rows.{ChannelRow, LeaseRow}
use ev211_field_server.Database.Channels.{get_channel, is_open_ai, close_row, close_channel}
use ev211_field_server.Database.Leases.{get_lease}
use ev211_field_server.State.{AppState}
use ev211_field_server.Site.{World}
use ev211_field_server.Cascade.{
  is_in, is_dependent, stop_worker, remove_holder, close_and_clear, end_ai_channel, close_level,
}
use ev211_field_server.Routes.Calls.{try_remove}

-- The number of open AI channels.
abbrev pub open_count : AppState → ℕ
open_count s = count_of (λ (r : ℕ × ChannelRow). is_open_ai r.1) s.db.channels

abbrev pub depends : List ℕ → AppState → ℕ → Bool
depends fs s j = is_dependent fs (get_channel s.db j)

dependent-close_row :
    (fs : List ℕ) (o : Option ChannelRow) → is_dependent fs (Option.map close_row o) ≡ false
unfolding close_row
dependent-close_row fs none = refl
dependent-close_row fs (some c) = ground arith

abbrev found_open_ai : Option ChannelRow → Bool
found_open_ai none = false
found_open_ai (some c) = is_open_ai c

dependent_is_open :
    (fs : List ℕ) (o : Option ChannelRow) → is_dependent fs o ≡ true → found_open_ai o ≡ true
dependent_is_open fs none h = cc
dependent_is_open fs (some c) h = ground arith

count-close :
    (k : ℕ) (d : List (ℕ × ChannelRow))
    → found_open_ai (Dict.get d k) ≡ true
    → count_of (λ (r : ℕ × ChannelRow). is_open_ai r.1) (Dict.modify d k close_row) + 1
      ≡ count_of (λ (r : ℕ × ChannelRow). is_open_ai r.1) d
unfolding Dict.get Dict.modify close_row
count-close k [] h = cc
count-close k ((j, c) ∷ d) h = ground (arith, count-close k d)

module _ (w : World) (now : ℕ) where
  db-remove_holder : (o : Option LeaseRow) (s : AppState) → (remove_holder w now o s).db ≡ s.db
  unfolding try_remove
  db-remove_holder none s = refl
  db-remove_holder (some l) s = refl

  db-end_ai_channel :
      (k : ℕ) (s : AppState) → (end_ai_channel w now k s).db ≡ close_channel now k s.db
  unfolding end_ai_channel close_and_clear stop_worker
  db-end_ai_channel k s =
      ap (close_channel now k) (db-remove_holder (get_lease s.db k) (stop_worker w now k s))

  depends-end :
      (fs : List ℕ) (k j : ℕ) (s : AppState)
      → depends fs (end_ai_channel w now k s) j ≡ (if k == j then false else depends fs s j)
  unfolding close_channel get_channel
  depends-end fs k j s =
      rw (db-end_ai_channel k s, get-modify s.db.channels k j close_row)
        (elim (Bool-cases (k == j)) [
          | inl same ↦ rw same (dependent-close_row fs (Dict.get s.db.channels j))
          | inr other ↦ rw other refl
        ])

  open_count-end :
      (fs : List ℕ) (k : ℕ) (s : AppState)
      → depends fs s k ≡ true
      → open_count (end_ai_channel w now k s) + 1 ≡ open_count s
  unfolding close_channel get_channel
  open_count-end fs k s h =
      rw (db-end_ai_channel k s) (count-close k s.db.channels (dependent_is_open fs _ h))

  -- A level closes channels and opens none.
  pub depends-level :
      (gs fs ks : List ℕ) (s : AppState) (j : ℕ)
      → depends gs (close_level w now fs ks s).1 j ≡ true
      → depends gs s j ≡ true
  unfolding close_level
  depends-level gs fs [] s j h = h
  depends-level gs fs (k ∷ ks) s j h = elim (Bool-cases (depends fs s k)) [
    | inl now_closed ↦
        ground (arith, depends-level gs fs ks (end_ai_channel w now k s) j, depends-end gs k j s)
    | inr skipped ↦ ground (arith, depends-level gs fs ks s j)
  ]

  pub clear-level :
      (gs fs ks : List ℕ) (s : AppState) (j : ℕ)
      → depends gs s j ≡ false
      → depends gs (close_level w now fs ks s).1 j ≡ false
  clear-level gs fs ks s j h = elim (Bool-cases (depends gs (close_level w now fs ks s).1 j)) [
    | inl still ↦ ground (arith, depends-level gs fs ks s j still)
    | inr clear ↦ clear
  ]

  -- What a level looks at does not depend on the frontier behind it.
  pub level_clears :
      (fs ks : List ℕ) (s : AppState) (j : ℕ)
      → is_in ks j ≡ true
      → depends fs (close_level w now fs ks s).1 j ≡ false
  unfolding close_level
  level_clears fs [] s j h = cc
  level_clears fs (k ∷ ks) s j h = elim (Bool-cases (depends fs s k)) [
    | inl now_closed ↦ ground (
      arith,
      depends-end fs k j s,
      level_clears fs ks (end_ai_channel w now k s) j,
      clear-level fs fs ks (end_ai_channel w now k s) j,
    )
    | inr skipped ↦ ground (arith, level_clears fs ks s j, clear-level fs fs ks s j)
  ]

  -- What it closed depends on nothing.
  pub closed_is_clear :
      (gs fs ks : List ℕ) (s : AppState) (j : ℕ)
      → is_in (close_level w now fs ks s).0 j ≡ true
      → depends gs (close_level w now fs ks s).1 j ≡ false
  unfolding close_level
  closed_is_clear gs fs [] s j h = cc
  closed_is_clear gs fs (k ∷ ks) s j h = elim (Bool-cases (depends fs s k)) [
    | inl now_closed ↦ ground (
      arith,
      depends-end gs k j s,
      closed_is_clear gs fs ks (end_ai_channel w now k s) j,
      clear-level gs fs ks (end_ai_channel w now k s) j,
    )
    | inr skipped ↦ ground (arith, closed_is_clear gs fs ks s j)
  ]

  -- It closes only what depended on the frontier, and leaves the rest as it was.
  pub closed_depended :
      (fs ks : List ℕ) (s : AppState) (j : ℕ)
      → is_in (close_level w now fs ks s).0 j ≡ true
      → depends fs s j ≡ true
  unfolding close_level
  closed_depended fs [] s j h = cc
  closed_depended fs (k ∷ ks) s j h = elim (Bool-cases (depends fs s k)) [
    | inl now_closed ↦ ground (
      arith,
      nat_beq_iff k j,
      depends-end fs k j s,
      closed_depended fs ks (end_ai_channel w now k s) j,
    )
    | inr skipped ↦ ground (arith, closed_depended fs ks s j)
  ]

  pub unclosed_stays :
      (gs fs ks : List ℕ) (s : AppState) (j : ℕ)
      → is_in (close_level w now fs ks s).0 j ≡ false
      → depends gs (close_level w now fs ks s).1 j ≡ depends gs s j
  unfolding close_level
  unclosed_stays gs fs [] s j h = refl
  unclosed_stays gs fs (k ∷ ks) s j h = elim (Bool-cases (depends fs s k)) [
    | inl now_closed ↦
        ground (arith, depends-end gs k j s, unclosed_stays gs fs ks (end_ai_channel w now k s) j)
    | inr skipped ↦ ground (arith, unclosed_stays gs fs ks s j)
  ]

  -- Each channel that it closes was open before.
  pub open_count-level :
      (fs ks : List ℕ) (s : AppState)
      → open_count (close_level w now fs ks s).1 + length (close_level w now fs ks s).0
        ≡ open_count s
  unfolding close_level
  open_count-level fs [] s = omega arith
  open_count-level fs (k ∷ ks) s = elim (Bool-cases (depends fs s k)) [
    | inl now_closed ↦
        ground (arith, open_count-level fs ks (end_ai_channel w now k s), open_count-end fs k s)
    | inr skipped ↦ ground (arith, open_count-level fs ks s)
  ]
