-- ===== src/Memory/Clock/Examples.antt =====
-- clock.go: the theorems on the clocks of two or three nodes.
use oniworks.Prelude.{◌<◌, ◌≢◌, arith, ==_iff}
use oniworks.Prelude.Text.{Text, text_eq, codes}
use oniworks.Prelude.Dict
use oniworks.Memory.Clock.{VectorClock, at, at-put, at-empty, new_vector_clock, tick, merge}
use oniworks.Memory.Clock.Cycle.{alone}
use oniworks.Memory.Clock.Merge.{tick-merge_regress}

abbrev node_a : Text
node_a = codes "a"

abbrev node_b : Text
node_b = codes "b"

abbrev node_c : Text
node_c = codes "c"

a≢b : node_a ≢ node_b
a≢b e = ground (arith, ==_iff node_a node_b)

a≢c : node_a ≢ node_c
a≢c e = ground (arith, ==_iff node_a node_c)

b≢c : node_b ≢ node_c
b≢c e = ground (arith, ==_iff node_b node_c)

-- Node a after one write.
abbrev clock_a : VectorClock
clock_a = record { node_id = node_a; clocks = Dict.put Dict.empty node_a 1; local_ts = 1 }

-- Node a after a restart, when a peer still has its fifth write.
tick-merge_regress_example :
    at
      (tick (merge (new_vector_clock node_a) (alone node_a 5))).1.clocks
      (new_vector_clock node_a).node_id
    < at (merge (new_vector_clock node_a) (alone node_a 5)).clocks (new_vector_clock node_a).node_id
unfolding new_vector_clock
tick-merge_regress_example =
    tick-merge_regress (new_vector_clock node_a) (alone node_a 5)
      (simp (at-put, at-empty) (ground arith)) (omega arith)
