-- ===== src/Memory/Store/Remote/Replication.antt =====
-- What last-write-wins gives the nodes of a cluster, and where it fails them.
use oniworks.Prelude.{
  ℕ, ◌+◌, ◌^◌, ◌<◌, ◌≡◌, ◌≢◌, sym, ap, ◌∙◌, true, false, Option, none, some, [], ◌∷◌, arith,
  if◌then◌else◌, ==-refl, inl, inr, Option-cases,
}
use oniworks.Prelude.Text.{Text, text_eq}
use oniworks.Prelude.Dict
use oniworks.Prelude.Dict.{Dict}
use oniworks.Memory.Clock.{ClockValue, after, equal, at, tick, at-empty}
use oniworks.Memory.Clock.Order.{after-asymm, after-of_dominates, equal_lem}
use oniworks.Memory.Clock.Cycle.{alone, informed, after_cycle}
use oniworks.Memory.Store.{Value, Entry, Message, set_message, Store, set}
use oniworks.Memory.Clock.Merge.{tick_lem}
use oniworks.Memory.Store.Laws.{get-set}
use oniworks.Memory.Store.Remote.{
  apply_remote_set, apply_msg, apply_all, apply_redis, over_redis, no_clock,
}

-- A write that arrives, as the entry that it makes.
abbrev pub write : Text → Entry → Message
write key e = set_message key e.value e.expires_at e.clock

-- What an arriving write leaves at its key: itself, unless the entry there is after it.
abbrev winner : Option Entry → Entry → Entry
winner none e = e
winner (some existing) e = if after existing.clock e.clock then existing else e

get-apply_remote_set :
    (key : Text) (e : Entry) (s : Store)
    → Dict.get (apply_remote_set key e.value e.expires_at e.clock s).table key
      ≡ some (winner (Dict.get s.table key) e)
unfolding apply_remote_set
get-apply_remote_set key e s = elim (Option-cases (Dict.get s.table key)) [
  | inl gone ↦ ground (arith, gone, Dict.get-put s.table key key e, ==-refl key)
  | inr (old, found) ↦ ground (arith, found, Dict.get-put s.table key key e, ==-refl key)
]

apply_msg-write :
    (key : Text) (e : Entry) (s : Store)
    → Dict.get (apply_msg (write key e) s).table key ≡ some (winner (Dict.get s.table key) e)
unfolding apply_msg
apply_msg-write key e s = get-apply_remote_set key e s

apply_all-two :
    (key : Text) (e f : Entry) (s : Store)
    → Dict.get s.table key ≡ none
    → Dict.get (apply_all (write key e ∷ write key f ∷ []) s).table key ≡ some (winner (some e) f)
unfolding apply_all
apply_all-two key e f s fresh =
    apply_msg-write key f (apply_msg (write key e) s)
    ∙ ap (λ o. some (winner o f)) (apply_msg-write key e s ∙ ap (λ o. some (winner o e)) fresh)

-- Of two clocks that are not Equal exactly one is after the other.
winner_comm : (e f : Entry) → equal e.clock f.clock ≡ false → winner (some e) f ≡ winner (some f) e
winner_comm e f h =
    ground (
      arith,
      h,
      equal_lem e.clock f.clock,
      after-asymm e.clock f.clock,
      after-asymm f.clock e.clock,
    )

-- Two writes to a key that two nodes do not have leave the same entry on both, in whichever order
-- they arrive there, if their clocks are not Equal.
pub converge :
    (key : Text) (e f : Entry) (s t : Store)
    → Dict.get s.table key ≡ none
    → Dict.get t.table key ≡ none
    → equal e.clock f.clock ≡ false
    → Dict.get (apply_all (write key e ∷ write key f ∷ []) s).table key
      ≡ Dict.get (apply_all (write key f ∷ write key e ∷ []) t).table key
converge key e f s t fresh fresh' differ =
    apply_all-two key e f s fresh
    ∙ ap some (winner_comm e f differ)
    ∙ sym (apply_all-two key f e t fresh')

apply_all-three :
    (key : Text) (e f g : Entry) (s : Store)
    → Dict.get s.table key ≡ none
    → Dict.get (apply_all (write key e ∷ write key f ∷ write key g ∷ []) s).table key
      ≡ some (winner (some (winner (some e) f)) g)
unfolding apply_all
apply_all-three key e f g s fresh =
    apply_msg-write key g (apply_all (write key e ∷ write key f ∷ []) s)
    ∙ ap (λ o. some (winner o g)) (apply_all-two key e f s fresh)

-- Three writes can leave two nodes apart for good: of three different nodes, `a` writes for the
-- i-th time knowing the n-th write of `b`, and `c` for the m-th time knowing neither, with
-- 0 < i < m < n. A node that receives them in the order c, b, a keeps the write of `a`, and one
-- that receives them in the order a, b, c keeps that of `c`.
pub diverge :
    (key a b c : Text) (i m n : ℕ) (x y z : Entry) (s t : Store)
    → a ≢ b
    → a ≢ c
    → b ≢ c
    → 0 < i
    → i < m
    → m < n
    → x.clock ≡ informed a i b n
    → y.clock ≡ alone b n
    → z.clock ≡ alone c m
    → Dict.get s.table key ≡ none
    → Dict.get t.table key ≡ none
    → (Dict.get (apply_all (write key z ∷ write key y ∷ write key x ∷ []) s).table key ≡ some x)
      × (Dict.get (apply_all (write key x ∷ write key y ∷ write key z ∷ []) t).table key ≡ some z)
diverge key a b c i m n x y z s t a≢b a≢c b≢c i>0 i<m m<n ex ey ez fresh fresh' =
    let (xy, yz, zx) = after_cycle a b c i m n a≢b a≢c b≢c i>0 i<m m<n in
    (
      apply_all-three key z y x s fresh
          ∙ ap some (ground (arith, ex, ey, ez, xy, after-asymm _ _ xy, yz, after-asymm _ _ yz)),
      apply_all-three key x y z t fresh'
          ∙ ap some (ground (arith, ex, ey, ez, xy, zx, after-asymm _ _ zx)),
    )

-- A clock that has seen any write is after the empty clock.
after-no_clock : (c : ClockValue) (n : Text) → 0 < at c.vector n → after c no_clock ≡ true
after-no_clock c n h =
    (after-of_dominates c no_clock (λ k. rw (at-empty k) (omega arith)) (n, rw (at-empty n) h)).0

-- With Redis in place of gossip, a write from another node never replaces an entry that this node
-- wrote, since the clock is not sent: the key keeps what Set gave it.
pub apply_redis-set :
    (json : Value → Option Value) (now : ℕ) (key : Text) (mine theirs : Value) (ttl : ℕ)
    (exp : Option ℕ) (c : ClockValue) (s : Store)
    → s.clock.local_ts + 1 < 2 ^ 64
    → Dict.get (apply_redis json (set_message key theirs exp c) (set now key mine ttl s)).table key
      ≡ Dict.get (set now key mine ttl s).table key
unfolding apply_redis
apply_redis-set json now key mine theirs ttl exp c s room =
    let (clocks, vector, ts, id) = tick_lem s.clock room in
    let newer : after (tick s.clock).0 no_clock ≡ true =
      after-no_clock (tick s.clock).0 s.clock.node_id
        (rw vector (ground (arith, clocks s.clock.node_id, ==-refl s.clock.node_id))) in
    elim (Option-cases (json theirs)) [
      | inl bad ↦ ground (arith, bad)
      | inr (v, good) ↦
          let e : Entry = record { value = v; expires_at = over_redis exp; clock = no_clock } in
          ground (
            arith,
            good,
            newer,
            get-set now key mine ttl s,
            get-apply_remote_set key e (set now key mine ttl s),
          )
    ]
