-- ===== src/Memory/Store/Remote/Examples.antt =====
-- store.go, redis.go: writes that arrive at new nodes.
use oniworks.Prelude.{
  ℕ, ◌≡◌, ◌≢◌, refl, true, false, none, some, [], ◌∷◌, arith, ◌==◌, ==_iff, inl, inr, Bool-cases,
}
use oniworks.Prelude.Text.{Text, text_eq, codes}
use oniworks.Prelude.Dict
use oniworks.Prelude.Dict.{Dict}
use oniworks.Memory.Clock.{ClockValue, equal}
use oniworks.Memory.Clock.Order.{equal_iff}
use oniworks.Memory.Clock.Cycle.{alone, informed}
use oniworks.Memory.Store.{int, Entry, set_message, Store, new_store, set}
use oniworks.Memory.Store.Remote.{apply_all, apply_redis}
use oniworks.Memory.Store.Remote.Replication.{write, converge, diverge, apply_redis-set}

abbrev key_k : Text
key_k = codes "k"

abbrev node_a : Text
node_a = codes "a"

abbrev node_b : Text
node_b = codes "b"

abbrev node_c : Text
node_c = codes "c"

abbrev entry : ℕ → ClockValue → Entry
entry n c = record { value = int n; expires_at = none; clock = c }

abbrev node_x : Store
node_x = new_store (codes "x") true

abbrev node_y : Store
node_y = new_store (codes "y") true

not_there : (id : Text) → Dict.get (new_store id true).table key_k ≡ none
unfolding new_store
not_there id = Dict.get-empty key_k

distinct : (a b : Text) → (a == b) ≡ false → a ≢ b
distinct a b h e = ground (arith, ==_iff a b)

differ : equal (alone node_a 1) (alone node_b 1) ≡ false
differ = elim (Bool-cases (equal (alone node_a 1) (alone node_b 1))) [
  | inl same ↦
      absurd (distinct node_a node_b refl ((equal_iff (alone node_a 1) (alone node_b 1)).0 same).1)
  | inr other ↦ other
]

converge_example :
    Dict.get
      (apply_all
        (write key_k (entry 1 (alone node_a 1)) ∷ write key_k (entry 2 (alone node_b 1)) ∷ [])
        node_x).table
      key_k
    ≡ Dict.get
        (apply_all
          (write key_k (entry 2 (alone node_b 1)) ∷ write key_k (entry 1 (alone node_a 1)) ∷ [])
          node_y).table
        key_k
converge_example =
    converge key_k (entry 1 (alone node_a 1)) (entry 2 (alone node_b 1)) node_x node_y
      (not_there (codes "x")) (not_there (codes "y")) differ

abbrev by_a : Entry
by_a = entry 1 (informed node_a 1 node_b 3)

abbrev by_b : Entry
by_b = entry 2 (alone node_b 3)

abbrev by_c : Entry
by_c = entry 3 (alone node_c 2)

diverge_example :
    (Dict.get
        (apply_all (write key_k by_c ∷ write key_k by_b ∷ write key_k by_a ∷ []) node_x).table
        key_k
      ≡ some by_a)
    × (Dict.get
          (apply_all (write key_k by_a ∷ write key_k by_b ∷ write key_k by_c ∷ []) node_y).table
          key_k
        ≡ some by_c)
diverge_example =
    diverge key_k node_a node_b node_c 1 2 3 by_a by_b by_c node_x node_y
      (distinct node_a node_b refl) (distinct node_a node_c refl) (distinct node_b node_c refl)
      (omega arith) (omega arith) (omega arith) refl refl refl (not_there (codes "x"))
      (not_there (codes "y"))

-- Node x after four writes.
abbrev busy_x : Store
busy_x = record node_x { clock = record { node_id = codes "x"; clocks = Dict.empty; local_ts = 4 } }

apply_redis-set_example :
    Dict.get
      (apply_redis some
        (set_message key_k (int 9) none (alone node_a 7))
        (set 3 key_k (int 8) 0 busy_x)).table
      key_k
    ≡ Dict.get (set 3 key_k (int 8) 0 busy_x).table key_k
apply_redis-set_example =
    apply_redis-set some 3 key_k (int 8) (int 9) 0 none (alone node_a 7) busy_x (omega arith)
