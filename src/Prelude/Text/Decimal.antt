-- ===== src/Prelude/Text/Decimal.antt =====
-- The decimal digits of a number, as fmt.Sprintf("%d") writes it.
use Prim.Native.Nat.{ℕ, zero, suc, ◌+◌, ◌-◌, ◌*◌, ◌/◌, ◌%◌, ◌<◌, ◌≤◌}
use mathlib.Core.Path.{◌≡◌, ap, ◌∙◌}
use mathlib.Core.Logic.{inl, inr}
use mathlib.Core.List.{[], ◌∷◌}
use native.Mathlib.Omega.{arith}
use oniworks.Prelude.Tests.{if◌then◌else◌, ◌==◌, nat_eq, Bool-cases}
use oniworks.Prelude.Lists.{Every}
use oniworks.Prelude.Text.{Text}

digits : ℕ → ℕ → Text → Text
digits zero n s = s
digits (suc fuel) n s =
    let rest = digits fuel (n / 10) ((48 + n % 10) ∷ s) in
    if n / 10 == 0 then (48 + n % 10) ∷ s else rest

-- A number has fewer digits than its successor counts.
unfoldable pub decimal : ℕ → Text
unfolding digits
decimal n = digits (suc n) n []

-- The number that the digits read as, behind what has been read.
abbrev pub read_from : ℕ → Text → ℕ
read_from v [] = v
read_from v (c ∷ s) = read_from (v * 10 + (c - 48)) s

read_from-digits :
    (fuel n : ℕ) (s : Text) → n < fuel → read_from 0 (digits fuel n s) ≡ read_from n s
unfolding digits
read_from-digits zero n s h = absurd (omega arith)
read_from-digits (suc fuel) n s h = elim (Bool-cases (n / 10 == 0)) [
  | inl last ↦ rw last (ap (λ (v : ℕ). read_from v s) (ground arith))
  | inr more ↦ rw more (
      read_from-digits fuel (n / 10) ((48 + n % 10) ∷ s) (ground arith)
      ∙ ap (λ (v : ℕ). read_from v s) (omega arith))
]

pub read_from-decimal : (n : ℕ) → read_from 0 (decimal n) ≡ n
unfolding decimal
read_from-decimal n = read_from-digits (suc n) n [] (omega arith)

abbrev pub IsDigit : ℕ → Type 0
IsDigit c = (48 ≤ c) × (c ≤ 57)

digits-Every : (fuel n : ℕ) (s : Text) → Every IsDigit s → Every IsDigit (digits fuel n s)
unfolding digits
digits-Every zero n s h = h
digits-Every (suc fuel) n s h =
    let one : IsDigit (48 + n % 10) = (omega arith, omega arith) in
    elim (Bool-cases (n / 10 == 0)) [
      | inl last ↦ rw last (one, h)
      | inr more ↦ rw more (digits-Every fuel (n / 10) ((48 + n % 10) ∷ s) (one, h))
    ]

pub decimal-Every : (n : ℕ) → Every IsDigit (decimal n)
unfolding decimal
decimal-Every n = digits-Every (suc n) n [] tt
