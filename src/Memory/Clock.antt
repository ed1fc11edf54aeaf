-- ===== src/Memory/Clock.antt =====
-- framework/memory/clock.go: vector clocks and the order of last-write-wins.
-- A uint64 is a number that wraps at 2 ^ 64. A missing key of a Go map reads as 0.
pub mod Order
pub mod Cycle
pub mod Merge
mod Examples
use oniworks.Prelude.{
  ℕ, ◌+◌, ◌%◌, ◌^◌, Bool, true, false, not, ◌&&◌, ◌||◌, Option, none, some, List, [], ◌∷◌, ◌++◌,
  map, ◌≡◌, if◌then◌else◌, ltb, ◌==◌, nat_eq, arith,
}
use oniworks.Prelude.Text.{Text, text_eq, text_lt}
use oniworks.Prelude.Dict
use oniworks.Prelude.Dict.{Dict}

pub record VectorClock : Type 0 where
  pub node_id : Text
  pub clocks : Dict Text ℕ
  pub local_ts : ℕ

pub record ClockValue : Type 0 where
  pub node_id : Text
  pub ts : ℕ
  pub vector : Dict Text ℕ

abbrev pub or_zero : Option ℕ → ℕ
or_zero none = 0
or_zero (some t) = t

-- m[n]
abbrev pub at : Dict Text ℕ → Text → ℕ
at m n = or_zero (Dict.get m n)

pub at-empty : (n : Text) → at Dict.empty n ≡ 0
at-empty n = rw (Dict.get-empty {V = ℕ} n)

pub at-put :
    (m : Dict Text ℕ) (k n : Text) (t : ℕ) → at (Dict.put m k t) n ≡ (if k == n then t else at m n)
at-put m k n t = ground (arith, Dict.get-put m k n t)

pub new_vector_clock : Text → VectorClock
new_vector_clock id = record { node_id = id; clocks = Dict.put Dict.empty id 0; local_ts = 0 }

-- The atomic step of Tick before the lock: atomic.AddUint64(&vc.localTS, 1)
abbrev pub next_ts : VectorClock → ℕ × VectorClock
next_ts vc = let ts = (vc.local_ts + 1) % 2 ^ 64 in (ts, record vc { local_ts = ts })

-- What Tick does under the lock, for the time that it has got.
abbrev pub stamp : ℕ → VectorClock → ClockValue × VectorClock
stamp ts vc =
    let clocks = Dict.put vc.clocks vc.node_id ts in
    (record { node_id = vc.node_id; ts = ts; vector = clocks }, record vc { clocks = clocks })

-- A Tick with no other between its two steps.
pub tick : VectorClock → ClockValue × VectorClock
tick vc = let (ts, counted) = next_ts vc in stamp ts counted

-- One round of the loop of Merge.
pub raise_to : Text → ℕ → Dict Text ℕ → Dict Text ℕ
raise_to node t clocks = elim (Dict.get clocks node) [
  | none ↦ Dict.put clocks node t
  | some current ↦ if ltb current t then Dict.put clocks node t else clocks
]

pub merge_entries : List (Text × ℕ) → Dict Text ℕ → Dict Text ℕ
unfolding raise_to
merge_entries [] clocks = clocks
merge_entries ((node, t) ∷ more) clocks = merge_entries more (raise_to node t clocks)

pub merge : VectorClock → ClockValue → VectorClock
unfolding merge_entries
merge vc received =
    let clocks = merge_entries (Dict.entries received.vector) vc.clocks in
    let own = at received.vector vc.node_id in
    if ltb (at clocks vc.node_id) own
    then record vc { clocks = Dict.put clocks vc.node_id own; local_ts = own }
    else record vc { clocks = clocks }

-- The loop over `seen`, which holds each key of either vector: (cvDom, otherDom).
pub compare_at : Dict Text ℕ → Dict Text ℕ → List Text → Bool × Bool
compare_at v w [] = (false, false)
compare_at v w (n ∷ seen) =
    let (cv_dom, other_dom) = compare_at v w seen in
    (cv_dom || ltb (at w n) (at v n), other_dom || ltb (at v n) (at w n))

-- The union of the keys; the loop's result does not depend on their order or number.
abbrev pub keys : Dict Text ℕ → List Text
keys v = map (λ (p : Text × ℕ). p.0) (Dict.entries v)

-- cv.After(other)
pub after : ClockValue → ClockValue → Bool
unfolding compare_at
after cv other =
    let (cv_dom, other_dom) =
      compare_at cv.vector other.vector (keys cv.vector ++ keys other.vector) in
    if cv_dom && not other_dom
    then true
    else if other_dom && not cv_dom
    then false
    else if cv.ts == other.ts
    then text_lt other.node_id cv.node_id
    else ltb other.ts cv.ts

-- cv.Equal(other)
pub equal : ClockValue → ClockValue → Bool
unfolding after
equal cv other = not (after cv other) && not (after other cv)
