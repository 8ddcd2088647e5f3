-- ===== src/Database/Channels/Slots.antt =====
-- The choice of a free slot.
use ev211_field_server.Base.{
  ℕ, zero, suc, ◌+◌, ◌<◌, ◌≤◌, ◌≡◌, refl, sym, ◌∙◌, ap, Bool, true, false, Option, none, some, List,
  [], ◌∷◌, map, Text, ◌==◌, nat_eq, any, keep, arith, ok, Bool-cases, inl, inr,
}
use mathlib.Core.Path.{subst}
use ev211_field_server.Base.Dict
use ev211_field_server.Base.Dict.{get-put}
use ev211_field_server.Database.Rows.{Database, ChannelRow, is_open, Source}
use ev211_field_server.Database.Channels.{
  first_free, lowest_free_general_slot, is_open_row, found_open, get_channel, create_channel,
  opened_row,
}

abbrev pub listed : List ℕ → ℕ → Bool
listed used j = any (λ k. k == j) used

-- What the search promises of its answer.
abbrev pub IsLowestFree : List ℕ → ℕ → ℕ → Option ℕ → Type 0
IsLowestFree used from past none = (j : ℕ) → from ≤ j → j < past → listed used j ≡ true
IsLowestFree used from past (some k) =
    (from ≤ k)
    × (k < past)
    × (listed used k ≡ false)
    × ((j : ℕ) → from ≤ j → j < k → listed used j ≡ true)

taken_below :
    (used : List ℕ) (from past j : ℕ)
    → listed used from ≡ true
    → (from + 1 ≤ j → j < past → listed used j ≡ true)
    → from ≤ j
    → j < past
    → listed used j ≡ true
taken_below used from past j taken later low high = elim (Bool-cases (from == j)) [
  | inl same ↦ ap (listed used) (sym ((nat_eq.same_iff from j).0 same)) ∙ taken
  | inr other ↦ later (ground arith) high
]

extend :
    (used : List ℕ) (from rounds : ℕ) (o : Option ℕ)
    → listed used from ≡ true
    → IsLowestFree used (from + 1) (from + 1 + rounds) o
    → IsLowestFree used from (from + suc rounds) o
extend used from rounds none taken h = λ j low high.
    taken_below used from (from + suc rounds) j taken (λ a b. h j a (omega arith)) low high
extend used from rounds (some k) taken (low, high, free, below) =
    (omega arith, omega arith, free, λ j a b. taken_below used from k j taken (below j) a b)

first_free-IsLowestFree :
    (used : List ℕ) (from rounds : ℕ)
    → IsLowestFree used from (from + rounds) (first_free used from rounds)
unfolding first_free
first_free-IsLowestFree used from zero = λ j a b. absurd (omega arith)
first_free-IsLowestFree used from (suc rounds) = elim (Bool-cases (listed used from)) [
  | inl taken ↦ rw taken (
      extend used from rounds (first_free used (from + 1) rounds) taken
        (first_free-IsLowestFree used (from + 1) rounds))
  | inr free ↦ rw free (omega arith, omega arith, free, λ j a b. absurd (omega arith))
]

abbrev pub open_slots : Database → List ℕ
open_slots db = map (λ (r : ℕ × ChannelRow). r.0) (keep is_open_row db.channels)

-- The slot search over 1 .. max_channels answers the lowest id with no open channel, and answers
-- none only if every one of them is open.
pub lowest_free_general_slot-IsLowestFree :
    (max_channels : ℕ) (db : Database)
    → IsLowestFree (open_slots db) 1 (1 + max_channels) (lowest_free_general_slot max_channels db)
unfolding lowest_free_general_slot
lowest_free_general_slot-IsLowestFree max_channels db =
    first_free-IsLowestFree (open_slots db) 1 max_channels

listed-open :
    (rows : List (ℕ × ChannelRow)) (k : ℕ)
    → listed (map (λ (r : ℕ × ChannelRow). r.0) (keep is_open_row rows)) k ≡ false
    → found_open (Dict.get rows k) ≡ false
unfolding Dict.get
listed-open [] k h = refl
listed-open ((j, c) ∷ rows) k h = ground (arith, listed-open rows k)

opened_row-open :
    (o : Option ChannelRow) (now k : ℕ) (language label : Text) (source : Source)
    (target_language : Option Text) (source_channel : Option ℕ)
    → is_open (opened_row o now k language label source target_language source_channel).state ≡ true
unfolding opened_row
opened_row-open none now k language label source target_language source_channel = refl
opened_row-open (some c) now k language label source target_language source_channel = refl

slot_is_free :
    (max_channels k : ℕ) (db : Database)
    → lowest_free_general_slot max_channels db ≡ some k
    → found_open (Dict.get db.channels k) ≡ false
slot_is_free max_channels k db e =
    let found =
      subst (IsLowestFree (open_slots db) 1 (1 + max_channels)) e
        (lowest_free_general_slot-IsLowestFree max_channels db) in
    listed-open db.channels k found.2

-- A channel of any kind can be created in the slot that the search answers: creation does not
-- raise, and behind it the ledger has the row that it answers, which is open.
create_in_free_slot :
    (max_channels k now : ℕ) (language label : Text) (source : Source)
    (target_language : Option Text) (source_channel : Option ℕ) (db : Database)
    → lowest_free_general_slot max_channels db ≡ some k
    → (row : ChannelRow) × (db' : Database) × (create_channel now k language label source
          target_language source_channel db
        ≡ ok (row, db'))
      × (get_channel db' k ≡ some row)
      × (is_open row.state ≡ true)
unfolding create_channel get_channel
create_in_free_slot max_channels k now language label source target_language source_channel db e =
    let row =
      opened_row (Dict.get db.channels k) now k language label source target_language
        source_channel in
    (
      row,
      record db { channels = Dict.put db.channels k row },
      rw (slot_is_free max_channels k db e),
      ground (arith, nat_eq.same_iff k k, get-put db.channels k k row),
      opened_row-open (Dict.get db.channels k) now k language label source target_language
          source_channel,
    )
