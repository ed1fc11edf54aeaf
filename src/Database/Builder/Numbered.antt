-- ===== src/Database/Builder/Numbered.antt =====
-- framework/database/builder.go: how the placeholders are numbered for PostgreSQL.
use oniworks.Prelude.{
  ℕ, ◌+◌, ◌≡◌, ◌≢◌, refl, sym, ap, ◌∙◌, List, [], ◌∷◌, ◌++◌, arith, ◌==◌, nat_eq, inl, inr,
  Bool-cases,
}
use oniworks.Prelude.Text.{Text, codes, split, split-ne-nil, cons_head}
use oniworks.Prelude.Text.Decimal.{decimal}
use oniworks.Database.Grammar.{postgres, mysql}
use oniworks.Database.Builder.Marks.{marks, marks-append, marks-decimal}
use oniworks.Database.Builder.Sql.{normalize_from, normalize_placeholders}

-- The parts with $n, $n+1 and so on between them.
pub number_parts : ℕ → List Text → Text
number_parts n [] = []
number_parts n (p ∷ []) = p
number_parts n (p ∷ q ∷ ps) = p ++ codes "$" ++ decimal n ++ number_parts (n + 1) (q ∷ ps)

marks-normalize_from : (n : ℕ) (s : Text) → marks (normalize_from n s) ≡ 0
unfolding normalize_from
marks-normalize_from n [] = refl
marks-normalize_from n (c ∷ s) = ground (
  arith,
  marks-append (decimal (n + 1)) (normalize_from (n + 1) s),
  marks-decimal (n + 1),
  marks-normalize_from (n + 1) s,
  marks-normalize_from n s,
)

number_parts-nil :
    (n : ℕ) (ps : List Text)
    → ps ≢ []
    → number_parts n ([] ∷ ps) ≡ b'$' ∷ decimal n ++ number_parts (n + 1) ps
unfolding number_parts
number_parts-nil n [] h = absurd (h refl)
number_parts-nil n (p ∷ ps) h = refl

number_parts-cons_head :
    (n c : ℕ) (ps : List Text) → ps ≢ [] → number_parts n (cons_head c ps) ≡ c ∷ number_parts n ps
unfolding number_parts
number_parts-cons_head n c [] h = absurd (h refl)
number_parts-cons_head n c (p ∷ []) h = refl
number_parts-cons_head n c (p ∷ q ∷ ps) h = refl

normalize_from_lem : (n : ℕ) (s : Text) → normalize_from n s ≡ number_parts (n + 1) (split b'?' s)
unfolding normalize_from split number_parts
normalize_from_lem n [] = refl
normalize_from_lem n (c ∷ s) = elim (Bool-cases (c == b'?')) [
  | inl same ↦ rw same (
      ap (λ (t : Text). b'$' ∷ decimal (n + 1) ++ t) (normalize_from_lem (n + 1) s)
      ∙ sym (number_parts-nil (n + 1) (split b'?' s) (split-ne-nil b'?' s)))
  | inr other ↦ rw other (
      ap (λ (t : Text). c ∷ t) (normalize_from_lem n s)
      ∙ sym (number_parts-cons_head (n + 1) c (split b'?' s) (split-ne-nil b'?' s)))
]

-- For PostgreSQL the nth question mark of a query becomes $n, the text between them stays, and no
-- question mark is left; for MySQL the query stays.
pub normalize_placeholders_lem :
    (query : Text)
    → (normalize_placeholders postgres query ≡ number_parts 1 (split b'?' query))
      × (marks (normalize_placeholders postgres query) ≡ 0)
      × (normalize_placeholders mysql query ≡ query)
unfolding normalize_placeholders
normalize_placeholders_lem query = (normalize_from_lem 0 query, marks-normalize_from 0 query, refl)
