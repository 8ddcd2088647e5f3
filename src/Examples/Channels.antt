-- ===== src/Examples/Channels.antt =====
-- Tests of the channels.
use ev211_field_server.Base.{◌≤◌, ◌+◌, some, List, [], ◌∷◌, nat_eq}
use ev211_field_server.Database.Channels.Slots.{
  IsLowestFree, open_slots, lowest_free_general_slot-IsLowestFree,
}
use ev211_field_server.Database.Channels.Lifecycle.{
  ChannelOp, close, bump, run_ops, epoch_of, epoch_never_falls,
}
use ev211_field_server.Examples.Program.{whole_program}
use ev211_field_server.Examples.Fixtures.{db_one}

lowest_free_general_slot-IsLowestFree_example : IsLowestFree (open_slots db_one) 1 (1 + 4) (some 2)
unfolding whole_program
lowest_free_general_slot-IsLowestFree_example = lowest_free_general_slot-IsLowestFree 4 db_one

-- A channel that is closed and taken over.
abbrev two_ops : List ChannelOp
two_ops = close 5 1 ∷ bump 1 ∷ []

epoch_never_falls_example : epoch_of db_one 1 ≤ epoch_of (run_ops db_one two_ops) 1
unfolding whole_program
epoch_never_falls_example = epoch_never_falls db_one two_ops 1
