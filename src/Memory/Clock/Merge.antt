-- ===== src/Memory/Clock/Merge.antt =====
-- clock.go: what Tick and Merge do to a node's clock.
use oniworks.Prelude.{
  ℕ, ◌+◌, ◌%◌, ◌^◌, ◌≤◌, ◌<◌, ◌≡◌, refl, ap, ◌∙◌, true, List, [], ◌∷◌, arith, if◌then◌else◌, ◌==◌,
  ==_iff, ==-refl,
}
use Prim.Native.Nat.{max}
use oniworks.Prelude.Text.{Text, text_eq}
use oniworks.Prelude.Dict
use oniworks.Prelude.Dict.{Dict, lookup, IsDistinct}
use oniworks.Memory.Clock.{
  VectorClock, ClockValue, at, or_zero, at-put, raise_to, merge_entries, merge, next_ts, stamp,
  tick, after,
}
use oniworks.Memory.Clock.Order.{after-of_dominates}

at-raise_to :
    (node n : Text) (t : ℕ) (m : Dict Text ℕ)
    → at (raise_to node t m) n ≡ (if node == n then max (at m n) t else at m n)
unfolding raise_to
at-raise_to node n t m = ground (arith, ==_iff node n, at-put m node n t)

at-merge_entries :
    (l : List (Text × ℕ)) (m : Dict Text ℕ) (n : Text)
    → IsDistinct l
    → at (merge_entries l m) n ≡ max (at m n) (or_zero (lookup n l))
unfolding merge_entries lookup
at-merge_entries [] m n d = omega arith
at-merge_entries ((node, t) ∷ l) m n (fresh, d) =
    ground
      (arith, at-merge_entries l (raise_to node t m) n d, at-raise_to node n t m, ==_iff node n)

-- Each component of the merged vector is the greater of the two.
merged-at :
    (m : Dict Text ℕ) (received : ClockValue) (n : Text)
    → at (merge_entries (Dict.entries received.vector) m) n ≡ max (at m n) (at received.vector n)
merged-at m received n =
    at-merge_entries (Dict.entries received.vector) m n (Dict.entries-IsDistinct received.vector)
    ∙ ap (λ o. max (at m n) (or_zero o)) (Dict.lookup-entries received.vector n)

-- Merge takes the greater of the two times for each node, and leaves the node's own counter,
-- `localTS`, whatever the received clock is: the branch that would advance it is never taken.
pub merge_lem :
    (vc : VectorClock) (received : ClockValue)
    → ((n : Text) → at (merge vc received).clocks n ≡ max (at vc.clocks n) (at received.vector n))
      × ((merge vc received).local_ts ≡ vc.local_ts)
      × ((merge vc received).node_id ≡ vc.node_id)
unfolding merge
merge_lem vc received =
    let own = merged-at vc.clocks received vc.node_id in
    (λ n. ground (arith, merged-at vc.clocks received n), ground arith, ground arith)

-- The node's own component is its counter.
abbrev pub IsSynced : VectorClock → Type 0
IsSynced vc = at vc.clocks vc.node_id ≡ vc.local_ts

-- Tick adds one to the counter, writes it to the node's own component, and stamps the write with
-- the vector that results.
pub tick_lem :
    (vc : VectorClock)
    → vc.local_ts + 1 < 2 ^ 64
    → ((n : Text)
        → at (tick vc).1.clocks n ≡ (if vc.node_id == n then vc.local_ts + 1 else at vc.clocks n))
      × ((tick vc).0.vector ≡ (tick vc).1.clocks)
      × ((tick vc).1.local_ts ≡ vc.local_ts + 1)
      × ((tick vc).1.node_id ≡ vc.node_id)
unfolding tick
tick_lem vc room = (
  λ n. ground (arith, at-put vc.clocks vc.node_id n ((vc.local_ts + 1) % 2 ^ 64)),
  refl,
  omega arith,
  refl,
)

-- A local write after a merge is after the merged clock, if the node's own component agrees with
-- its counter, the received clock does not know more of the node than the node itself, and the
-- counter does not wrap.
pub after-tick-merge :
    (vc : VectorClock) (received : ClockValue)
    → IsSynced vc
    → at received.vector vc.node_id ≤ vc.local_ts
    → vc.local_ts + 1 < 2 ^ 64
    → (after (tick (merge vc received)).0 received ≡ true) × IsSynced (tick (merge vc received)).1
after-tick-merge vc received synced known room =
    let (larger, same_ts, same_id) = merge_lem vc received in
    let (clocks, vector, ts, id) = tick_lem (merge vc received) (rw same_ts room) in
    (
      (after-of_dominates _ received
          (λ n.
            rw (vector) (ground (arith, clocks n, larger n, ==_iff (merge vc received).node_id n)))
          (
            vc.node_id,
            rw vector (ground (arith, clocks vc.node_id, larger vc.node_id, ==-refl vc.node_id)),
          )).0,
      ground (arith, clocks vc.node_id, ==-refl vc.node_id),
    )

-- When the received clock is ahead of the node's counter by more than one in the node's own
-- component, as after a restart under the same NodeID, and the counter does not wrap, the next local
-- write takes that component back.
pub tick-merge_regress :
    (vc : VectorClock) (received : ClockValue)
    → vc.local_ts + 1 < at received.vector vc.node_id
    → vc.local_ts + 1 < 2 ^ 64
    → at (tick (merge vc received)).1.clocks vc.node_id < at (merge vc received).clocks vc.node_id
tick-merge_regress vc received ahead room =
    let (larger, same_ts, same_id) = merge_lem vc received in
    let (clocks, vector, ts, id) = tick_lem (merge vc received) (rw same_ts room) in
    ground (arith, clocks vc.node_id, larger vc.node_id, ==-refl vc.node_id)

-- Two goroutines that take their times in one order and the lock in the other leave the node's own
-- component at the smaller time, one behind its counter, and the write with the later time is
-- stamped with a vector in which it is ahead of the clock that stays.
tick_interleaved :
    (vc : VectorClock)
    → vc.local_ts + 2 < 2 ^ 64
    → let (t₁, vc₁) = next_ts vc in
      let (t₂, vc₂) = next_ts vc₁ in
      let (late, vc₃) = stamp t₂ vc₂ in
      let (early, vc₄) = stamp t₁ vc₃ in
      (at vc₄.clocks vc.node_id + 1 ≡ vc₄.local_ts)
      × (at early.vector vc.node_id + 1 ≡ at late.vector vc.node_id)
tick_interleaved vc room =
    let n = vc.node_id in
    let t₁ = (vc.local_ts + 1) % 2 ^ 64 in
    let t₂ = (t₁ + 1) % 2 ^ 64 in
    let first = at-put vc.clocks n n t₂ in
    let second = at-put (Dict.put vc.clocks n t₂) n n t₁ in
    (ground (arith, second, ==-refl n), ground (arith, first, second, ==-refl n))
