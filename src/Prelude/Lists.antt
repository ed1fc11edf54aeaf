-- ===== src/Prelude/Lists.antt =====
-- Lists measured and indexed by native numbers, under the library's names, and membership.
use Prim.Native.Nat.{ℕ, zero, suc, ◌+◌, ◌≤◌}
use mathlib.Core.Path.{◌≡◌, refl, ap, ◌∙◌}
use mathlib.Core.Bool.{Bool, true, false, ◌&&◌, ◌||◌}
use mathlib.Core.Logic.{◌↔◌, inl, inr}
use mathlib.Core.List.{List, [], ◌∷◌, ◌++◌, Memᴰ}
use native.Mathlib.Omega.{arith}
use oniworks.Prelude.Tests.{if◌then◌else◌, Bool-cases}

module _ {ℓ} {A : Type ℓ} where
  abbrev pub length : List A → ℕ
  length [] = 0
  length (x ∷ xs) = suc (length xs)

  abbrev pub take : ℕ → List A → List A
  take zero xs = []
  take (suc n) [] = []
  take (suc n) (x ∷ xs) = x ∷ take n xs

  abbrev pub drop : ℕ → List A → List A
  drop zero xs = xs
  drop (suc n) [] = []
  drop (suc n) (x ∷ xs) = drop n xs

  -- `append(kept, x)` for each `x` that passes the test.
  abbrev pub select : (A → Bool) → List A → List A
  select p [] = []
  select p (x ∷ xs) = let rest = select p xs in if p x then x ∷ rest else rest

  abbrev any : (A → Bool) → List A → Bool
  any p [] = false
  any p (x ∷ xs) = p x || any p xs

  abbrev all : (A → Bool) → List A → Bool
  all p [] = true
  all p (x ∷ xs) = p x && all p xs

  pub length-append : (xs ys : List A) → length (xs ++ ys) ≡ length xs + length ys
  length-append [] ys = omega arith
  length-append (x ∷ xs) ys = omega (arith, length-append xs ys)

  pub take-append-drop : (n : ℕ) (xs : List A) → take n xs ++ drop n xs ≡ xs
  take-append-drop zero xs = refl
  take-append-drop (suc n) [] = refl
  take-append-drop (suc n) (x ∷ xs) = rw (take-append-drop n xs)

  length-select : (p : A → Bool) (xs : List A) → length (select p xs) ≤ length xs
  length-select p [] = omega arith
  length-select p (x ∷ xs) = ground (arith, length-select p xs)

  -- The predicate holds of each member.
  abbrev pub Every {κ} : (A → Type κ) → List A → Type κ
  Every P [] = Unit
  Every P (x ∷ xs) = P x × Every P xs

  pub Every-append {κ} :
      (P : A → Type κ) (xs ys : List A) → Every P (xs ++ ys) ↔ (Every P xs × Every P ys)
  Every-append P [] ys = (λ h. (tt, h), λ h. h.1)
  Every-append P (x ∷ xs) ys =
      let (to, from) = Every-append P xs ys in
      (λ h. ((h.0, (to h.1).0), (to h.1).1), λ h. (h.0.0, from (h.0.1, h.1)))

  -- What `select` keeps.
  pub mem-select :
      (p : A → Bool) (a : A) (xs : List A) → Memᴰ a (select p xs) ↔ (Memᴰ a xs × (p a ≡ true))
  mem-select p a [] = (λ m. elim m [ ], λ m. elim m.0 [ ])
  mem-select p a (x ∷ xs) =
      let (to, from) = mem-select p a xs in
      elim (Bool-cases (p x)) [
        | inl kept ↦ rw kept (
          λ m. elim m [
            | Memᴰ.head e ↦ (Memᴰ.head e, ap p e ∙ kept)
            | Memᴰ.tail t ↦ (Memᴰ.tail (to t).0, (to t).1)
          ],
          λ (m, h). elim m [ Memᴰ.head e ↦ Memᴰ.head e | Memᴰ.tail t ↦ Memᴰ.tail (from (t, h)) ],
        )
        | inr left ↦ rw left (
          λ m. (Memᴰ.tail (to m).0, (to m).1),
          λ (m, h). elim m [
            | Memᴰ.head e ↦ absurd (ground (arith, ap p e))
            | Memᴰ.tail t ↦ from (t, h)
          ],
        )
      ]

  pub select-nil :
      (p : A → Bool) (xs : List A) → ((x : A) → Memᴰ x xs → p x ≡ false) → select p xs ≡ []
  select-nil p [] h = refl
  select-nil p (x ∷ xs) h = rw (h x (Memᴰ.head refl)) (select-nil p xs (λ y m. h y (Memᴰ.tail m)))
