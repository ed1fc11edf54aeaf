-- ===== src/Database/Builder/Marks.antt =====
-- framework/database/builder.go: how many placeholders the parts of a statement have.
use oniworks.Prelude.{
  ℕ, suc, ◌+◌, ◌≡◌, refl, ◌∙◌, Bool, List, [], ◌∷◌, ◌++◌, arith, if◌then◌else◌, ◌==◌, nat_eq, Every,
}
use oniworks.Prelude.Text.{Text, text_eq, codes}
use oniworks.Prelude.Text.Decimal.{decimal, IsDigit, decimal-Every}
use oniworks.Database.Grammar.{Dialect, quote_byte, double_byte, quote_ident, join_with, when}
use oniworks.Database.Builder.Sql.{listed, spaced, combined}

-- How many placeholders a text has.
abbrev pub marks : Text → ℕ
marks [] = 0
marks (c ∷ s) = let rest = marks s in if c == b'?' then suc rest else rest

abbrev pub total_marks : List Text → ℕ
total_marks [] = 0
total_marks (t ∷ ts) = marks t + total_marks ts

pub marks-append : (s t : Text) → marks (s ++ t) ≡ marks s + marks t
marks-append [] t = omega arith
marks-append (c ∷ s) t = ground (arith, marks-append s t)

marks-double_byte : (d : Dialect) (s : Text) → marks (double_byte (quote_byte d) s) ≡ marks s
unfolding double_byte
marks-double_byte d [] = refl
marks-double_byte d (c ∷ s) = ground (arith, marks-double_byte d s)

pub marks-quote_ident : (d : Dialect) (s : Text) → marks (quote_ident d s) ≡ marks s
unfolding quote_ident
marks-quote_ident d s =
    ground (
      arith,
      marks-append (double_byte (quote_byte d) s) (quote_byte d ∷ []),
      marks-double_byte d s,
    )

marks-digits : (s : Text) → Every IsDigit s → marks s ≡ 0
marks-digits [] h = refl
marks-digits (c ∷ s) h = ground (arith, marks-digits s h.1, h.0)

pub marks-decimal : (n : ℕ) → marks (decimal n) ≡ 0
marks-decimal n = marks-digits (decimal n) (decimal-Every n)

pub marks-join_with :
    (sep : Text) (ts : List Text) → marks sep ≡ 0 → marks (join_with sep ts) ≡ total_marks ts
marks-join_with sep [] h = refl
marks-join_with sep (t ∷ []) h = omega arith
marks-join_with sep (t ∷ u ∷ ts) h = ground (
  arith,
  marks-append (t ++ sep) (join_with sep (u ∷ ts)),
  marks-append t sep,
  marks-join_with sep (u ∷ ts) h,
)

pub marks-listed :
    (word : Text) (ts : List Text) → marks word ≡ 0 → marks (listed word ts) ≡ total_marks ts
marks-listed word [] h = refl
marks-listed word (t ∷ ts) h = ground (
  arith,
  marks-append word (join_with (codes ", ") (t ∷ ts)),
  marks-join_with (codes ", ") (t ∷ ts) refl,
)

pub marks-spaced : (js : List Text) → marks (spaced js) ≡ total_marks js
marks-spaced [] = refl
marks-spaced (j ∷ js) = ground (arith, marks-append (codes " " ++ j) (spaced js), marks-spaced js)

pub marks-when : (b : Bool) (s : Text) → marks s ≡ 0 → marks (when b s) ≡ 0
marks-when b s h = ground arith

pub marks-combined : (sd w : Text) → marks (combined sd w) ≡ marks sd + marks w
unfolding combined
marks-combined [] [] = refl
marks-combined [] (c ∷ w) = omega arith
marks-combined (c ∷ sd) [] = omega arith
marks-combined (c ∷ sd) (e ∷ w) =
    let start = codes " WHERE " ++ (c ∷ sd) in
    marks-append (start ++ codes " AND (" ++ (e ∷ w)) (codes ")")
    ∙ omega
        (arith, marks-append (start ++ codes " AND (") (e ∷ w), marks-append start (codes " AND ("))
