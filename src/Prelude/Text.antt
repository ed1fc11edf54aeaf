-- ===== src/Prelude/Text.antt =====
-- Go strings as lists of bytes, with what the program uses of package strings.
pub mod Search
pub mod Ascii
pub mod Decimal
use Prim.Native.Nat.{ℕ, zero, suc, ◌+◌, ◌-◌, ◌≤◌, ◌<◌, min}
use Prim.Native.Char.{Char, code}
use Prim.Native.String
use Prim.Native.String.{String}
use mathlib.Core.Path.{◌≡◌, refl, sym, ap}
use mathlib.Core.Logic.{◌↔◌, ◌⊎◌, ◌≢◌, inl, inr}
use mathlib.Core.Bool.{Bool, true, false, not, ◌&&◌, ◌||◌}
use mathlib.Core.Option.{Option, none, some}
use mathlib.Core.List.{List, [], ◌∷◌, ◌++◌}
use native.Mathlib.Omega.{arith}
use oniworks.Prelude.Tests.{
  if◌then◌else◌, nat_beq, ltb, list_beq, list_beq_iff, Eq, nat_eq, list_eq, ◌==◌, Bool-cases,
  Option-cases,
}
use oniworks.Prelude.Lists.{length, take, drop}

abbrev pub Text : Type 0
Text = List ℕ

instance abbrev pub text_eq : Eq Text
text_eq = record { test = list_beq; test_iff = list_beq_iff }

-- The bytes of an ASCII literal.
abbrev pub codes : String → Text
codes String.[] = []
codes (String.◌∷◌ c s) = code c ∷ codes s

-- a < b, bytewise
abbrev pub text_lt : Text → Text → Bool
text_lt [] [] = false
text_lt [] (y ∷ ys) = true
text_lt (x ∷ xs) [] = false
text_lt (x ∷ xs) (y ∷ ys) = ltb x y || (nat_beq x y && text_lt xs ys)

-- strings.HasPrefix(s, p), with the prefix first
abbrev pub has_prefix : Text → Text → Bool
has_prefix [] s = true
has_prefix (c ∷ p) [] = false
has_prefix (c ∷ p) (x ∷ s) = nat_beq c x && has_prefix p s

-- strings.Contains(s, string(c))
abbrev pub contains_byte : ℕ → Text → Bool
contains_byte c [] = false
contains_byte c (x ∷ s) = nat_beq x c || contains_byte c s

abbrev pub cons_head : ℕ → List Text → List Text
cons_head x [] = (x ∷ []) ∷ []
cons_head x (p ∷ ps) = (x ∷ p) ∷ ps

-- strings.Split(s, string(c))
unfoldable pub split : ℕ → Text → List Text
split c [] = [] ∷ []
split c (x ∷ s) = let rest = split c s in if nat_beq x c then [] ∷ rest else cons_head x rest

-- strings.Join(parts, string(c))
abbrev pub join : ℕ → List Text → Text
join c [] = []
join c (p ∷ []) = p
join c (p ∷ q ∷ ps) = p ++ c ∷ join c (q ∷ ps)

pub split-ne-nil : (c : ℕ) (s : Text) → split c s ≢ []
unfolding split
split-ne-nil c [] = ground arith
split-ne-nil c (x ∷ s) = ground arith

cons_head-append :
    (x : ℕ) (ps qs : List Text) → ps ≢ [] → cons_head x (ps ++ qs) ≡ cons_head x ps ++ qs
cons_head-append x [] qs h = absurd (h refl)
cons_head-append x (p ∷ ps) qs h = refl

join-cons_head : (c x : ℕ) (ps : List Text) → ps ≢ [] → join c (cons_head x ps) ≡ x ∷ join c ps
join-cons_head c x [] h = absurd (h refl)
join-cons_head c x (p ∷ []) h = refl
join-cons_head c x (p ∷ q ∷ ps) h = refl

join-nil_cons : (c : ℕ) (ps : List Text) → ps ≢ [] → join c ([] ∷ ps) ≡ c ∷ join c ps
join-nil_cons c [] h = absurd (h refl)
join-nil_cons c (p ∷ ps) h = refl

-- Joining what was split gives the text back.
join-split : (c : ℕ) (s : Text) → join c (split c s) ≡ s
unfolding split
join-split c [] = refl
join-split c (x ∷ s) = ground (
  arith,
  join-split c s,
  join-cons_head c x (split c s),
  join-nil_cons c (split c s),
  split-ne-nil c s,
)

-- Two texts that split alike are equal.
split-injective : (c : ℕ) (s t : Text) → split c s ≡ split c t → s ≡ t
split-injective c s t h = rw (← join-split c s, ← join-split c t) (ap (join c) h)

pub text_lt-asymm : (s t : Text) → text_lt s t ≡ true → text_lt t s ≡ false
text_lt-asymm [] [] h = ground arith
text_lt-asymm [] (y ∷ t) h = refl
text_lt-asymm (x ∷ s) [] h = ground arith
text_lt-asymm (x ∷ s) (y ∷ t) h = ground (arith, text_lt-asymm s t)

pub text_lt_irrefl : (s : Text) → text_lt s s ≡ false
text_lt_irrefl [] = refl
text_lt_irrefl (x ∷ s) = ground (arith, text_lt_irrefl s)

pub text_lt-total : (s t : Text) → text_lt s t ≡ false → text_lt t s ≡ false → s ≡ t
text_lt-total [] [] h k = refl
text_lt-total [] (y ∷ t) h k = ground arith
text_lt-total (x ∷ s) [] h k = ground arith
text_lt-total (x ∷ s) (y ∷ t) h k = ground (arith, text_lt-total s t)

pub text_lt_trans : (r s t : Text) → text_lt s r ≡ false → text_lt t s ≡ false → text_lt t r ≡ false
text_lt_trans [] [] [] h k = refl
text_lt_trans [] [] (z ∷ t) h k = refl
text_lt_trans [] (y ∷ s) [] h k = ground arith
text_lt_trans [] (y ∷ s) (z ∷ t) h k = refl
text_lt_trans (x ∷ r) [] t h k = ground arith
text_lt_trans (x ∷ r) (y ∷ s) [] h k = ground arith
text_lt_trans (x ∷ r) (y ∷ s) (z ∷ t) h k = ground (arith, text_lt_trans r s t)

pub has_prefix_lem : (p s : Text) → has_prefix p s ≡ true → p ++ drop (length p) s ≡ s
has_prefix_lem [] s h = refl
has_prefix_lem (c ∷ p) [] h = ground arith
has_prefix_lem (c ∷ p) (x ∷ s) h = ground (arith, has_prefix_lem p s)

pub has_prefix-append : (p s : Text) → has_prefix p (p ++ s) ≡ true
has_prefix-append [] s = refl
has_prefix-append (c ∷ p) s = ground (arith, has_prefix-append p s)

pub drop-append : (p s : Text) → drop (length p) (p ++ s) ≡ s
drop-append [] s = refl
drop-append (c ∷ p) s = drop-append p s

list_cons {ℓ} : {A : Type ℓ} (xs : List A) → xs ≢ [] → (y : A) × (ys : List A) × (xs ≡ y ∷ ys)
list_cons [] h = absurd (h refl)
list_cons (x ∷ xs) h = (x, xs, refl)

-- A text without the separator is not split, and any other is.
pub split-none : (c : ℕ) (s : Text) → contains_byte c s ≡ false → split c s ≡ s ∷ []
unfolding split
split-none c [] h = refl
split-none c (x ∷ s) h = ground (arith, split-none c s)

pub split-some :
    (c : ℕ) (s : Text)
    → contains_byte c s ≡ true
    → (p q : Text) × (ps : List Text) × (split c s ≡ p ∷ q ∷ ps)
unfolding split
split-some c [] h = cc
split-some c (x ∷ s) h = elim (Bool-cases (nat_beq x c)) [
  | inl here ↦
      let (p, ps, e) = list_cons (split c s) (split-ne-nil c s) in ([], p, ps, ground arith)
  | inr later ↦ let (p, q, ps, e) = split-some c s (ground arith) in (x ∷ p, q, ps, ground arith)
]

pub split-append : (c : ℕ) (s t : Text) → split c (s ++ c ∷ t) ≡ split c s ++ split c t
unfolding split
split-append c [] t = ground arith
split-append c (x ∷ s) t =
    ground (arith, split-append c s t, split-ne-nil c s, cons_head-append x (split c s) (split c t))
