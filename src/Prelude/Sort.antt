-- ===== src/Prelude/Sort.antt =====
-- Go's sort by a text of each member: which ascends, and what a second sort leaves.
use mathlib.Core.Path.{◌≡◌, refl, sym, ap, ◌∙◌}
use mathlib.Core.Logic.{◌↔◌, ◌≢◌, inl, inr}
use mathlib.Core.Bool.{Bool, false}
use mathlib.Core.List.{List, [], ◌∷◌, Memᴰ}
use oniworks.Prelude.Tests.{if◌then◌else◌, Bool-cases}
use oniworks.Prelude.Lists.{select, mem-select}
use oniworks.Prelude.Text.{Text, text_eq, text_lt, text_lt-asymm, text_lt_trans}

module _ {ℓ} {A : Type ℓ} (key : A → Text) where
  insert_by : A → List A → List A
  insert_by x [] = x ∷ []
  insert_by x (y ∷ ys) =
      let rest = insert_by x ys in if text_lt (key y) (key x) then y ∷ rest else x ∷ y ∷ ys

  unfoldable pub sort_by : List A → List A
  unfolding insert_by
  sort_by [] = []
  sort_by (x ∷ xs) = insert_by x (sort_by xs)

  -- The text is at most that of each member.
  abbrev pub IsLeast : Text → List A → Type 0
  IsLeast k [] = Unit
  IsLeast k (x ∷ xs) = (text_lt (key x) k ≡ false) × IsLeast k xs

  -- Each member's text is at most that of the later ones.
  abbrev pub IsAscending : List A → Type 0
  IsAscending [] = Unit
  IsAscending (x ∷ xs) = IsLeast (key x) xs × IsAscending xs

  insert_by-IsLeast :
      (k : Text) (x : A) (xs : List A)
      → text_lt (key x) k ≡ false
      → IsLeast k xs
      → IsLeast k (insert_by x xs)
  unfolding insert_by
  insert_by-IsLeast k x [] h l = (h, tt)
  insert_by-IsLeast k x (y ∷ ys) h l = elim (Bool-cases (text_lt (key y) (key x))) [
    | inl before ↦ rw before (l.0, insert_by-IsLeast k x ys h l.1)
    | inr after ↦ rw after (h, l)
  ]

  IsLeast-below : (j k : Text) (xs : List A) → text_lt j k ≡ false → IsLeast j xs → IsLeast k xs
  IsLeast-below j k [] h l = tt
  IsLeast-below j k (x ∷ xs) h l = (text_lt_trans k j (key x) h l.0, IsLeast-below j k xs h l.1)

  insert_by-IsAscending : (x : A) (xs : List A) → IsAscending xs → IsAscending (insert_by x xs)
  unfolding insert_by
  insert_by-IsAscending x [] h = (tt, tt)
  insert_by-IsAscending x (y ∷ ys) h = elim (Bool-cases (text_lt (key y) (key x))) [
    | inl before ↦ rw before (
      insert_by-IsLeast (key y) x ys (text_lt-asymm (key y) (key x) before) h.0,
      insert_by-IsAscending x ys h.1,
    )
    | inr after ↦ rw after ((after, IsLeast-below (key y) (key x) ys after h.0), h)
  ]

  pub sort_by-IsAscending : (xs : List A) → IsAscending (sort_by xs)
  unfolding sort_by
  sort_by-IsAscending [] = tt
  sort_by-IsAscending (x ∷ xs) = insert_by-IsAscending x (sort_by xs) (sort_by-IsAscending xs)

  insert_by-ascending : (x : A) (xs : List A) → IsLeast (key x) xs → insert_by x xs ≡ x ∷ xs
  unfolding insert_by
  insert_by-ascending x [] h = refl
  insert_by-ascending x (y ∷ ys) h = rw (h.0) refl

  -- What ascends is left as it is.
  pub sort_by-ascending : (xs : List A) → IsAscending xs → sort_by xs ≡ xs
  unfolding sort_by
  sort_by-ascending [] h = refl
  sort_by-ascending (x ∷ xs) h =
      ap (insert_by x) (sort_by-ascending xs h.1) ∙ insert_by-ascending x xs h.0

  mem-insert_by : (a x : A) (xs : List A) → Memᴰ a (insert_by x xs) ↔ Memᴰ a (x ∷ xs)
  unfolding insert_by
  mem-insert_by a x [] = (λ m. m, λ m. m)
  mem-insert_by a x (y ∷ ys) = elim (Bool-cases (text_lt (key y) (key x))) [
    | inl before ↦ rw before (
      λ m. elim m [
        | Memᴰ.head p ↦ Memᴰ.tail (Memᴰ.head p)
        | Memᴰ.tail t ↦ elim ((mem-insert_by a x ys).0 t) [
          | Memᴰ.head p ↦ Memᴰ.head p
          | Memᴰ.tail u ↦ Memᴰ.tail (Memᴰ.tail u)
        ]
      ],
      λ m. elim m [
        | Memᴰ.head p ↦ Memᴰ.tail ((mem-insert_by a x ys).1 (Memᴰ.head p))
        | Memᴰ.tail t ↦ elim t [
          | Memᴰ.head p ↦ Memᴰ.head p
          | Memᴰ.tail u ↦ Memᴰ.tail ((mem-insert_by a x ys).1 (Memᴰ.tail u))
        ]
      ],
    )
    | inr after ↦ rw after (λ m. m, λ m. m)
  ]

  -- The members stay.
  pub mem-sort_by : (a : A) (xs : List A) → Memᴰ a (sort_by xs) ↔ Memᴰ a xs
  unfolding sort_by
  mem-sort_by a [] = (λ m. m, λ m. m)
  mem-sort_by a (x ∷ xs) =
      let step = mem-insert_by a x (sort_by xs) in
      let (to, from) = mem-sort_by a xs in
      (
        λ m. elim (step.0 m) [ Memᴰ.head p ↦ Memᴰ.head p | Memᴰ.tail t ↦ Memᴰ.tail (to t) ],
        λ m. step.1 (elim m [ Memᴰ.head p ↦ Memᴰ.head p | Memᴰ.tail t ↦ Memᴰ.tail (from t) ]),
      )

  select-IsLeast : (p : A → Bool) (k : Text) (xs : List A) → IsLeast k xs → IsLeast k (select p xs)
  select-IsLeast p k [] h = tt
  select-IsLeast p k (x ∷ xs) h = elim (Bool-cases (p x)) [
    | inl kept ↦ rw kept (h.0, select-IsLeast p k xs h.1)
    | inr left ↦ rw left (select-IsLeast p k xs h.1)
  ]

  pub select-IsAscending : (p : A → Bool) (xs : List A) → IsAscending xs → IsAscending (select p xs)
  select-IsAscending p [] h = tt
  select-IsAscending p (x ∷ xs) h = elim (Bool-cases (p x)) [
    | inl kept ↦ rw kept (select-IsLeast p (key x) xs h.0, select-IsAscending p xs h.1)
    | inr left ↦ rw left (select-IsAscending p xs h.1)
  ]

  -- No two members have the same text.
  abbrev pub IsUnique : List A → Type ℓ
  IsUnique [] = Unit
  IsUnique (x ∷ xs) = ((y : A) → Memᴰ y xs → key y ≢ key x) × IsUnique xs

  insert_by-IsUnique :
      (x : A) (xs : List A)
      → ((y : A) → Memᴰ y xs → key y ≢ key x)
      → IsUnique xs
      → IsUnique (insert_by x xs)
  unfolding insert_by
  insert_by-IsUnique x [] h u = (h, tt)
  insert_by-IsUnique x (y ∷ ys) h u = elim (Bool-cases (text_lt (key y) (key x))) [
    | inl before ↦ rw before (
      λ z m. elim ((mem-insert_by z x ys).0 m) [
        | Memᴰ.head p ↦ λ e. h y (Memᴰ.head refl) (sym e ∙ ap key p)
        | Memᴰ.tail t ↦ u.0 z t
      ],
      insert_by-IsUnique x ys (λ z m. h z (Memᴰ.tail m)) u.1,
    )
    | inr after ↦ rw after (h, u)
  ]

  pub sort_by-IsUnique : (xs : List A) → IsUnique xs → IsUnique (sort_by xs)
  unfolding sort_by
  sort_by-IsUnique [] u = tt
  sort_by-IsUnique (x ∷ xs) u =
      insert_by-IsUnique x (sort_by xs) (λ y m. u.0 y ((mem-sort_by y xs).0 m))
        (sort_by-IsUnique xs u.1)

  pub select-IsUnique : (p : A → Bool) (xs : List A) → IsUnique xs → IsUnique (select p xs)
  select-IsUnique p [] u = tt
  select-IsUnique p (x ∷ xs) u = elim (Bool-cases (p x)) [
    | inl kept ↦ rw kept (λ y m. u.0 y ((mem-select p y xs).0 m).0, select-IsUnique p xs u.1)
    | inr left ↦ rw left (select-IsUnique p xs u.1)
  ]
