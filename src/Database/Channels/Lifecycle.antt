-- ===== src/Database/Channels/Lifecycle.antt =====
-- Closing channels, and the epochs over any run of channel operations.
use ev211_field_server.Base.{
  ℕ, ◌+◌, ◌≤◌, ◌≡◌, refl, ap, ◌∙◌, false, Option, none, some, List, [], ◌∷◌, Text, ◌==◌, nat_eq,
  if◌then◌else◌, any, keep, order_by, arith, Result, ok, raised,
}
use ev211_field_server.Base.Dict
use ev211_field_server.Base.Dict.{
  dict_laws, get-put, get-modify, get-remove, get-map_rows, get-remove_all,
}
use ev211_field_server.Database.Rows.{Database, ChannelRow, UsageSessionRow, Source}
use ev211_field_server.Database.Usage.{is_open_on, end_where}
use ev211_field_server.Database.Leases.{get_lease}
use ev211_field_server.Database.Channels.{
  found_open, get_channel, create_channel, opened_row, close_channel, close_row, close_if_ai,
  is_open_ai, open_ai_ids, end_on_all, close_open_ai_channels, list_open_ai_channels,
  bump_channel_epoch, ChannelError,
}

-- Ending the sessions that pass a test which asks for an open session leaves none that passes.
none_left :
    (k now : ℕ) (rs : List UsageSessionRow)
    → any (is_open_on k) (end_where (is_open_on k) (λ _. now) rs) ≡ false
unfolding end_where
none_left k now [] = refl
none_left k now (r ∷ rs) = ground (arith, none_left k now rs)

-- Closing a channel leaves it not open, without a lease and without an open usage session, and
-- every other channel keeps its row and its lease.
close_channel_complete :
    (now k : ℕ) (db : Database)
    → (found_open (get_channel (close_channel now k db) k) ≡ false)
      × (get_lease (close_channel now k db) k ≡ none)
      × (any (is_open_on k) (close_channel now k db).usage_sessions ≡ false)
      × ((j : ℕ)
          → (k == j) ≡ false
          → (get_channel (close_channel now k db) j ≡ get_channel db j)
            × (get_lease (close_channel now k db) j ≡ get_lease db j))
unfolding close_channel close_row get_channel get_lease
close_channel_complete now k db = (
  ground (arith, nat_eq.same_iff k k, get-modify db.channels k k close_row),
  ground (arith, nat_eq.same_iff k k, get-remove db.leases k k),
  none_left k now db.usage_sessions,
  λ j other. ground (arith, get-modify db.channels k j close_row, get-remove db.leases k j, other),
)

-- The channel operations that write an epoch or a state.
pub data ChannelOp : Type 0 where
  create : ℕ → ℕ → Text → Text → Source → Option Text → Option ℕ → ChannelOp
  close : ℕ → ℕ → ChannelOp
  close_ai : ℕ → ChannelOp
  bump : ℕ → ChannelOp

abbrev or_same : Result ChannelError (ChannelRow × Database) → Database → Database
or_same (ok (_, db')) db = db'
or_same (raised _) db = db

-- A creation that raises leaves the ledger as it was.
pub run_op : Database → ChannelOp → Database
run_op db (create now k language label source target from) =
    or_same (create_channel now k language label source target from db) db
run_op db (close now k) = close_channel now k db
run_op db (close_ai now) = (close_open_ai_channels now db).1
run_op db (bump k) = (bump_channel_epoch k db).1

pub run_ops : Database → List ChannelOp → Database
run_ops db [] = db
run_ops db (op ∷ ops) = run_ops (run_op db op) ops

abbrev pub epoch_or_zero : Option ChannelRow → ℕ
epoch_or_zero none = 0
epoch_or_zero (some c) = c.epoch

abbrev pub epoch_of : Database → ℕ → ℕ
epoch_of db k = epoch_or_zero (Dict.get db.channels k)

channels-end_on_all :
    (ks : List ℕ) (now : ℕ) (db : Database) → (end_on_all ks now db).channels ≡ db.channels
channels-end_on_all [] now db = refl
channels-end_on_all (k ∷ ks) now db = channels-end_on_all ks now _

create_epoch :
    (db : Database) (now k : ℕ) (language label : Text) (source : Source) (target : Option Text)
    (from : Option ℕ) (j : ℕ)
    → epoch_of db j ≤ epoch_of (run_op db (create now k language label source target from)) j
unfolding run_op create_channel opened_row
create_epoch db now k language label source target from j = ground (
  arith,
  nat_eq.same_iff k j,
  get-put db.channels k j
      (opened_row (Dict.get db.channels k) now k language label source target from),
)

close_ai_epoch : (db : Database) (now j : ℕ) → epoch_of (run_op db (close_ai now)) j ≡ epoch_of db j
unfolding run_op close_open_ai_channels close_if_ai close_row
close_ai_epoch db now j =
    ap (λ rows. epoch_or_zero (Dict.get rows j)) (channels-end_on_all (open_ai_ids db) now _)
    ∙ ground (arith, get-map_rows close_if_ai db.channels j)

run_op_epoch : (db : Database) (op : ChannelOp) (j : ℕ) → epoch_of db j ≤ epoch_of (run_op db op) j
run_op_epoch db (create now k language label source target from) j =
    create_epoch db now k language label source target from j
run_op_epoch db (close now k) j =
    unfold run_op close_channel close_row in ground (arith, get-modify db.channels k j close_row)
run_op_epoch db (close_ai now) j = omega (arith, close_ai_epoch db now j)
run_op_epoch db (bump k) j =
    unfold run_op bump_channel_epoch in
    ground
      (arith, get-modify db.channels k j (λ (c : ChannelRow). record c { epoch = c.epoch + 1 }))

-- Over any run of creations, closings and epoch bumps, the epoch of a channel never falls: a
-- slot that is closed and opened again goes on with the epoch that it had.
pub epoch_never_falls :
    (db : Database) (ops : List ChannelOp) (k : ℕ) → epoch_of db k ≤ epoch_of (run_ops db ops) k
unfolding run_ops
epoch_never_falls db [] k = omega arith
epoch_never_falls db (op ∷ ops) k =
    omega (arith, run_op_epoch db op k, epoch_never_falls (run_op db op) ops k)

keep_none :
    (rows : List (ℕ × ChannelRow))
    → keep (λ (r : ℕ × ChannelRow). is_open_ai r.1) (Dict.map_rows close_if_ai rows) ≡ []
unfolding Dict.map_rows close_if_ai close_row
keep_none [] = refl
keep_none ((k, c) ∷ rows) = ground (arith, keep_none rows)

leases-end_on_all :
    (ks : List ℕ) (now : ℕ) (db : Database) → (end_on_all ks now db).leases ≡ db.leases
leases-end_on_all [] now db = refl
leases-end_on_all (k ∷ ks) now db = leases-end_on_all ks now _

-- Closing the AI channels leaves no open AI channel, takes the leases of exactly the channels it
-- answers, and leaves every row that is not an open AI channel as it was.
pub close_ai_complete :
    (now : ℕ) (db : Database)
    → (list_open_ai_channels (close_open_ai_channels now db).1 ≡ [])
      × ((j : ℕ)
          → get_lease (close_open_ai_channels now db).1 j ≡ (
              if any (λ k. k == j) (close_open_ai_channels now db).0 then none else get_lease db j))
      × ((j : ℕ) (c : ChannelRow)
          → get_channel db j ≡ some c
          → is_open_ai c ≡ false
          → get_channel (close_open_ai_channels now db).1 j ≡ some c)
unfolding close_open_ai_channels list_open_ai_channels get_channel get_lease
close_ai_complete now db = (
  ap
        (λ rows.
          order_by (λ (r : ℕ × ChannelRow). r.0)
            (keep (λ (r : ℕ × ChannelRow). is_open_ai r.1) rows))
        (channels-end_on_all (open_ai_ids db) now _)
      ∙ rw keep_none (unfold order_by in refl),
  λ j.
      ap (λ rows. Dict.get rows j) (leases-end_on_all (open_ai_ids db) now _)
      ∙ get-remove_all db.leases (open_ai_ids db) j,
  λ j c found not_ai.
      ap (λ rows. Dict.get rows j) (channels-end_on_all (open_ai_ids db) now _)
      ∙ (unfold close_if_ai in
          ground (arith, get-map_rows close_if_ai db.channels j, found, not_ai)),
)

end_on_all_rest :
    (ks : List ℕ) (now : ℕ) (db : Database)
    → ((end_on_all ks now db).generation ≡ db.generation)
      × ((end_on_all ks now db).intercom_channels ≡ db.intercom_channels)
end_on_all_rest [] now db = (refl, refl)
end_on_all_rest (k ∷ ks) now db = end_on_all_rest ks now _

-- Closing the AI channels keeps the generation and the intercom channels.
pub close_ai_rest :
    (now : ℕ) (db : Database)
    → ((close_open_ai_channels now db).1.generation ≡ db.generation)
      × ((close_open_ai_channels now db).1.intercom_channels ≡ db.intercom_channels)
unfolding close_open_ai_channels
close_ai_rest now db = end_on_all_rest (open_ai_ids db) now _
