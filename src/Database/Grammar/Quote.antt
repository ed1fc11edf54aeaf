-- ===== src/Database/Grammar/Quote.antt =====
-- framework/database/grammar.go: what QuoteIdent writes is one identifier, whatever it is given.
use oniworks.Prelude.{
  ℕ, ◌≡◌, ◌≢◌, refl, ap, ◌∙◌, true, false, Option, none, some, [], ◌∷◌, ◌++◌, arith, if◌then◌else◌,
  ◌==◌, ==-refl, nat_eq, inl, inr, Bool-cases,
}
use mathlib.Core.List.{append_assoc}
use oniworks.Prelude.Text.{Text, text_eq}
use oniworks.Database.Grammar.{Dialect, quote_byte, double_byte, quote_ident}

abbrev put_byte : ℕ → Option (Text × Text) → Option (Text × Text)
put_byte c none = none
put_byte c (some (name, s)) = some (c ∷ name, s)

-- How a database reads a quoted identifier behind its first quote: a doubled quote stands for one,
-- and any other quote ends it. The result is the identifier and the text behind it.
pub read_ident : ℕ → Text → Option (Text × Text)
read_ident q [] = none
read_ident q (c ∷ []) = if c == q then some ([], []) else none
read_ident q (c ∷ d ∷ s) =
    let plain = read_ident q (d ∷ s) in
    let doubled = read_ident q s in
    if c == q then (if d == q then put_byte c doubled else some ([], d ∷ s)) else put_byte c plain

abbrev pub IsEnd : ℕ → Text → Type 0
IsEnd q [] = Unit
IsEnd q (c ∷ s) = (c == q) ≡ false

read_ident-plain :
    (q c : ℕ) (s : Text)
    → s ≢ []
    → (c == q) ≡ false
    → read_ident q (c ∷ s) ≡ put_byte c (read_ident q s)
unfolding read_ident
read_ident-plain q c [] filled h = absurd (filled refl)
read_ident-plain q c (d ∷ s) filled h = rw h refl

read_ident-doubled :
    (q c : ℕ) (s : Text) → (c == q) ≡ true → read_ident q (c ∷ c ∷ s) ≡ put_byte c (read_ident q s)
unfolding read_ident
read_ident-doubled q c s h = ground arith

append-ne-nil : (s : Text) (c : ℕ) (rest : Text) → s ++ c ∷ rest ≢ []
append-ne-nil [] c rest h = cc
append-ne-nil (x ∷ s) c rest h = cc

read_ident-double_byte :
    (q : ℕ) (s rest : Text)
    → IsEnd q rest
    → read_ident q (double_byte q s ++ q ∷ rest) ≡ some (s, rest)
unfolding read_ident double_byte
read_ident-double_byte q [] [] h = rw (==-refl q) refl
read_ident-double_byte q [] (d ∷ rest) h = rw (==-refl q, h) refl
read_ident-double_byte q (c ∷ s) rest h = elim (Bool-cases (c == q)) [
  | inl same ↦ rw same (
      read_ident-doubled q c (double_byte q s ++ q ∷ rest) same
      ∙ ap (put_byte c) (read_ident-double_byte q s rest h))
  | inr other ↦ rw other (
      read_ident-plain q c (double_byte q s ++ q ∷ rest) (append-ne-nil (double_byte q s) q rest)
        other
      ∙ ap (put_byte c) (read_ident-double_byte q s rest h))
]

-- No name leaves its quotes: in front of any text that does not begin with a quote, what QuoteIdent
-- writes is read back as that name, and the text behind it is left.
pub read_ident-quote_ident :
    (d : Dialect) (s rest : Text)
    → IsEnd (quote_byte d) rest
    → (t : Text) × (quote_ident d s ++ rest ≡ quote_byte d ∷ t)
      × (read_ident (quote_byte d) t ≡ some (s, rest))
unfolding quote_ident
read_ident-quote_ident d s rest h =
    let q = quote_byte d in
    (
      double_byte q s ++ q ∷ rest,
      ap (λ (u : Text). q ∷ u) (append_assoc (double_byte q s) (q ∷ []) rest),
      read_ident-double_byte q s rest h,
    )
