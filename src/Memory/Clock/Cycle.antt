-- ===== src/Memory/Clock/Cycle.antt =====
-- clock.go: last-write-wins is no order. The tie-break by TS runs against dominance, so three
-- writes can each be after the next.
use oniworks.Prelude.{
  ℕ, ◌<◌, ◌≡◌, ◌≢◌, sym, ◌∙◌, true, false, arith, ◌==◌, ==_iff, ==-refl, lt→ltb, Bool-false,
}
use oniworks.Prelude.Text.{Text, text_eq}
use oniworks.Prelude.Dict
use oniworks.Prelude.Dict.{Dict, dict_laws}
use oniworks.Memory.Clock.{ClockValue, at-put, at-empty, after}
use oniworks.Memory.Clock.Order.{after-of_dominates, after-of_concurrent}

-- A write of a node that has received nothing.
abbrev pub alone : Text → ℕ → ClockValue
alone a t = record { node_id = a; ts = t; vector = Dict.put Dict.empty a t }

-- A write of node `a`, its `t`-th, after it received the `u`-th of node `b`.
abbrev pub informed : Text → ℕ → Text → ℕ → ClockValue
informed a t b u = record { node_id = a; ts = t; vector = Dict.put (Dict.put Dict.empty b u) a t }

eq_false : (a b : Text) → a ≢ b → (a == b) ≡ false
eq_false a b h = Bool-false (a == b) (λ e. h ((==_iff a b).0 e))

module _ (a b : Text) (t u : ℕ) (a≢b : a ≢ b) (t>0 : 0 < t) where
  informed-after : after (informed a t b u) (alone b u) ≡ true
  informed-after =
      (after-of_dominates _ _
        (λ k. simp (at-put, at-empty) (ground (arith, ==_iff a k, ==_iff b k, eq_false a b a≢b)))
        (a, simp (at-put, at-empty, ==-refl, eq_false b a (λ e. a≢b (sym e))) t>0)).0

-- Two writes of which neither node knew the other's are ordered by their times.
alone-after : (b c : Text) (m n : ℕ) → b ≢ c → 0 < m → m < n → after (alone b n) (alone c m) ≡ true
alone-after b c m n b≢c m>0 m<n =
    after-of_concurrent (alone b n) (alone c m)
      (b, simp (at-put, at-empty, ==-refl, eq_false c b (λ e. b≢c (sym e))) (omega arith))
      (c, simp (at-put, at-empty, ==-refl, eq_false b c b≢c) m>0) (omega arith)
    ∙ lt→ltb m n m<n

alone-after-informed :
    (a b c : Text) (i m n : ℕ)
    → a ≢ b
    → a ≢ c
    → b ≢ c
    → 0 < i
    → i < m
    → after (alone c m) (informed a i b n) ≡ true
alone-after-informed a b c i m n a≢b a≢c b≢c i>0 i<m =
    after-of_concurrent (alone c m) (informed a i b n)
      (c, simp (at-put, at-empty, ==-refl, eq_false a c a≢c, eq_false b c b≢c) (omega arith))
      (a, simp (at-put, at-empty, ==-refl, eq_false c a (λ e. a≢c (sym e))) i>0) (omega arith)
    ∙ lt→ltb i m i<m

-- Of three different nodes, let `a` write for the i-th time knowing the n-th write of `b`, and let
-- `c` write for the m-th time knowing neither, with 0 < i < m < n. Then the write of `a` is after
-- that of `b`, that of `b` is after that of `c`, and that of `c` is after that of `a`.
pub after_cycle :
    (a b c : Text) (i m n : ℕ)
    → a ≢ b
    → a ≢ c
    → b ≢ c
    → 0 < i
    → i < m
    → m < n
    → (after (informed a i b n) (alone b n) ≡ true)
      × (after (alone b n) (alone c m) ≡ true)
      × (after (alone c m) (informed a i b n) ≡ true)
after_cycle a b c i m n a≢b a≢c b≢c i>0 i<m m<n = (
  informed-after a b i n a≢b i>0,
  alone-after b c m n b≢c (omega arith) m<n,
  alone-after-informed a b c i m n a≢b a≢c b≢c i>0 i<m,
)
