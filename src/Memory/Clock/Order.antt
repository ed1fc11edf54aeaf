-- ===== src/Memory/Clock/Order.antt =====
-- clock.go: what After decides.
use oniworks.Prelude.{
  ℕ, ◌≤◌, ◌<◌, ◌≡◌, refl, sym, ap, ◌∙◌, ◌≢◌, ◌↔◌, ◌⊎◌, inl, inr, Bool, true, false, not, ◌&&◌, List,
  [], ◌∷◌, ◌++◌, map, arith, ltb, Bool-cases, Bool-ext, Bool-false, Option-cases,
}
use mathlib.Core.List.{Memᴰ}
use oniworks.Prelude.Text.{Text, text_eq, text_lt-asymm, text_lt_irrefl, text_lt-total}
use oniworks.Prelude.Dict
use oniworks.Prelude.Dict.{Dict}
use oniworks.Memory.Clock.{ClockValue, at, keys, compare_at, after, equal}

-- Each component of `w` is at most that of `v`.
abbrev pub Covers : ClockValue → ClockValue → Type 0
Covers v w = (n : Text) → at w.vector n ≤ at v.vector n

-- Some component of `v` is greater than that of `w`.
abbrev pub Exceeds : ClockValue → ClockValue → Type 0
Exceeds v w = (n : Text) × (at w.vector n < at v.vector n)

Memᴰ-append_left {ℓ} :
    {A : Type ℓ} {a : A} {xs : List A} (ys : List A) → Memᴰ a xs → Memᴰ a (xs ++ ys)
Memᴰ-append_left ys (Memᴰ.head p) = Memᴰ.head p
Memᴰ-append_left ys (Memᴰ.tail h) = Memᴰ.tail (Memᴰ-append_left ys h)

Memᴰ-append_right {ℓ} :
    {A : Type ℓ} {a : A} (xs : List A) {ys : List A} → Memᴰ a ys → Memᴰ a (xs ++ ys)
Memᴰ-append_right [] h = h
Memᴰ-append_right (x ∷ xs) h = Memᴰ.tail (Memᴰ-append_right xs h)

Memᴰ-map {ℓ κ} :
    {A : Type ℓ} {B : Type κ} (f : A → B) {a : A} {xs : List A} → Memᴰ a xs → Memᴰ (f a) (map f xs)
Memᴰ-map f (Memᴰ.head p) = Memᴰ.head (ap f p)
Memᴰ-map f (Memᴰ.tail h) = Memᴰ.tail (Memᴰ-map f h)

mem-keys : (v : Dict Text ℕ) (n : Text) → 0 < at v n → Memᴰ n (keys v)
mem-keys v n h = elim (Option-cases (Dict.get v n)) [
  | inl gone ↦ absurd (ground arith)
  | inr (t, found) ↦ Memᴰ-map (λ (p : Text × ℕ). p.0) ((Dict.mem-entries v n t).1 found)
]

module _ (v w : Dict Text ℕ) where
  compare_at_complete :
      (seen : List Text) (n : Text)
      → Memᴰ n seen
      → (at w n < at v n → (compare_at v w seen).0 ≡ true)
        × (at v n < at w n → (compare_at v w seen).1 ≡ true)
  unfolding compare_at
  compare_at_complete [] n h = elim h [ ]
  compare_at_complete (m ∷ seen) n (Memᴰ.head p) = rw p (ground arith)
  compare_at_complete (m ∷ seen) n (Memᴰ.tail h) = ground (arith, compare_at_complete seen n h)

  compare_at_sound :
      (seen : List Text)
      → ((compare_at v w seen).0 ≡ true → (n : Text) × (at w n < at v n))
        × ((compare_at v w seen).1 ≡ true → (n : Text) × (at v n < at w n))
  unfolding compare_at
  compare_at_sound [] = (λ h. cc, λ h. cc)
  compare_at_sound (m ∷ seen) =
      let (ih, ih') = compare_at_sound seen in
      (
        λ h. elim (Bool-cases (ltb (at w m) (at v m))) [
          | inl here ↦ (m, ground arith)
          | inr rest ↦ ih (ground arith)
        ],
        λ h. elim (Bool-cases (ltb (at v m) (at w m))) [
          | inl here ↦ (m, ground arith)
          | inr rest ↦ ih' (ground arith)
        ],
      )

-- What the loop over the union of the keys finds: a greater component of `v`, one of `w`.
abbrev doms : ClockValue → ClockValue → Bool × Bool
doms v w = compare_at v.vector w.vector (keys v.vector ++ keys w.vector)

mem-union :
    (v w : ClockValue) (n : Text)
    → (0 < at v.vector n) ⊎ (0 < at w.vector n)
    → Memᴰ n (keys v.vector ++ keys w.vector)
mem-union v w n (inl h) = Memᴰ-append_left _ (mem-keys v.vector n h)
mem-union v w n (inr h) = Memᴰ-append_right _ (mem-keys w.vector n h)

doms_iff :
    (v w : ClockValue) → ((doms v w).0 ≡ true ↔ Exceeds v w) × ((doms v w).1 ≡ true ↔ Exceeds w v)
doms_iff v w = (
  (
    (compare_at_sound v.vector w.vector _).0,
    λ (n, h). (compare_at_complete v.vector w.vector _ n (mem-union v w n (inl (omega arith)))).0 h,
  ),
  (
    (compare_at_sound v.vector w.vector _).1,
    λ (n, h). (compare_at_complete v.vector w.vector _ n (mem-union v w n (inr (omega arith)))).1 h,
  ),
)

doms-swap : (v w : ClockValue) → ((doms w v).0 ≡ (doms v w).1) × ((doms w v).1 ≡ (doms v w).0)
doms-swap v w =
    let (a, b) = doms_iff v w in
    let (c, d) = doms_iff w v in
    (
      Bool-ext _ _ (λ h. b.1 (c.0 h), λ h. c.1 (b.0 h)),
      Bool-ext _ _ (λ h. a.1 (d.0 h), λ h. d.1 (a.0 h)),
    )

-- A clock that covers another and exceeds it somewhere wins, and the other loses.
pub after-of_dominates :
    (v w : ClockValue) → Covers v w → Exceeds v w → (after v w ≡ true) × (after w v ≡ false)
unfolding after
after-of_dominates v w covers exceeds =
    let (a, b) = doms_iff v w in
    let first = a.1 exceeds in
    let second : (doms v w).1 ≡ false =
      Bool-false (doms v w).1 (λ h. let (n, lt) = b.0 h in absurd (omega (arith, covers n))) in
    ground (arith, doms-swap v w)

-- No two clocks are each after the other.
pub after-asymm : (v w : ClockValue) → after v w ≡ true → after w v ≡ false
unfolding after
after-asymm v w h = ground (arith, doms-swap v w, text_lt-asymm w.node_id v.node_id)

-- `equal` by the loop's result.
equal-by_doms :
    (v w : ClockValue)
    → (equal v w ≡ true) ↔ ((v.ts ≡ w.ts) × (v.node_id ≡ w.node_id) × ((doms v w).0 ≡ (doms v w).1))
unfolding equal after
equal-by_doms v w = (
  λ h. (
    ground (arith, doms-swap v w),
    text_lt-total v.node_id w.node_id (ground (arith, doms-swap v w))
        (ground (arith, doms-swap v w)),
    ground (arith, doms-swap v w),
  ),
  λ (ts, id, same). ground (arith, doms-swap v w, text_lt_irrefl v.node_id),
)

-- The two of an equivalence with an equation of tests in place of its sides.
Exceeds-iff : (v w : ClockValue) → ((doms v w).0 ≡ (doms v w).1) ↔ (Exceeds v w ↔ Exceeds w v)
Exceeds-iff v w =
    let (a, b) = doms_iff v w in
    (
      λ same. (λ x. b.0 (sym same ∙ a.1 x), λ x. a.0 (same ∙ b.1 x)),
      λ (x, y). Bool-ext _ _ (λ h. b.1 (x (a.0 h)), λ h. a.1 (y (b.0 h))),
    )

-- Neither of two clocks is after the other exactly when their nodes and times agree and neither
-- vector strictly dominates.
pub equal_iff :
    (v w : ClockValue)
    → (equal v w ≡ true) ↔ ((v.ts ≡ w.ts) × (v.node_id ≡ w.node_id) × (Exceeds v w ↔ Exceeds w v))
equal_iff v w =
    let (to, from) = equal-by_doms v w in
    let (out, back) = Exceeds-iff v w in
    (
      λ h. let (ts, id, same) = to h in (ts, id, out same),
      λ (ts, id, same). from (ts, id, back same),
    )

-- Concurrent writes are ordered by their times, if those differ.
pub after-of_concurrent :
    (v w : ClockValue) → Exceeds v w → Exceeds w v → v.ts ≢ w.ts → after v w ≡ ltb w.ts v.ts
unfolding after
after-of_concurrent v w x y h =
    let (a, b) = doms_iff v w in let first = a.1 x in let second = b.1 y in ground arith

-- `Equal` in terms of After.
pub equal_lem : (v w : ClockValue) → equal v w ≡ (not (after v w) && not (after w v))
unfolding equal
equal_lem v w = refl
