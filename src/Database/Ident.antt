-- ===== src/Database/Ident.antt =====
-- framework/database/builder.go: how column references are checked and quoted.
-- The strings are ASCII: white space and the case of letters are those of ASCII.
pub mod Plain
pub mod Safe
use oniworks.Prelude.{
  ℕ, zero, suc, Bool, true, false, ◌&&◌, ◌||◌, Option, none, some, List, [], ◌∷◌, ◌++◌,
  if◌then◌else◌, leb, ltb, length, ◌==◌, nat_eq,
}
use oniworks.Prelude.Text.{Text, text_eq, codes, split, join}
use oniworks.Prelude.Text.Ascii.{to_upper, equal_fold, fields, trim_space}
use oniworks.Database.Grammar.{Dialect, quote_ident, join_with}

abbrev pub is_letter : ℕ → Bool
is_letter c = (c == b'_') || (leb b'a' c && leb c b'z') || (leb b'A' c && leb c b'Z')

abbrev pub is_digit : ℕ → Bool
is_digit c = leb b'0' c && leb c b'9'

pub all_word_bytes : Text → Bool
all_word_bytes [] = true
all_word_bytes (c ∷ s) = (is_letter c || is_digit c) && all_word_bytes s

pub is_safe_ident_segment : Text → Bool
unfolding all_word_bytes
is_safe_ident_segment [] = false
is_safe_ident_segment (c ∷ s) = is_letter c && all_word_bytes s

abbrev pub bind : {A B : Type 0} → Option A → (A → Option B) → Option B
bind none k = none
bind (some a) k = k a

quote_segment : Dialect → Text → Option Text
unfolding is_safe_ident_segment quote_ident
quote_segment d p = if is_safe_ident_segment p then some (quote_ident d p) else none

-- The parts of a reference, each trimmed; only the last may be a star.
quote_parts : Dialect → List Text → Option (List Text)
unfolding quote_segment trim_space
quote_parts d [] = some []
quote_parts d (p ∷ []) =
    let part = trim_space p in
    if part == codes "*"
    then some (codes "*" ∷ [])
    else bind (quote_segment d part) (λ q. some (q ∷ []))
quote_parts d (p ∷ r ∷ ps) =
    bind (quote_segment d (trim_space p)) (λ q. bind (quote_parts d (r ∷ ps)) (λ qs. some (q ∷ qs)))

join_parts : Option (List Text) → Option Text
join_parts none = none
join_parts (some parts) = some (join b'.' parts)

unfoldable pub quote_column_ref : Dialect → Text → Option Text
unfolding quote_parts join_parts split trim_space
quote_column_ref d s =
    let trimmed = trim_space s in
    if trimmed == codes "*"
    then some (codes "*")
    else let parts = split b'.' trimmed in
      if ltb 2 (length parts) then none else join_parts (quote_parts d parts)

with_alias : Dialect → Text → Text → Option Text
unfolding quote_column_ref is_safe_ident_segment quote_ident
with_alias d col alias = bind (quote_column_ref d col) (λ q.
    if is_safe_ident_segment alias then some (q ++ codes " AS " ++ quote_ident d alias) else none)

select_tokens : Dialect → List Text → Option Text
unfolding with_alias
select_tokens d [] = none
select_tokens d (col ∷ []) = quote_column_ref d col
select_tokens d (col ∷ alias ∷ []) = with_alias d col alias
select_tokens d (col ∷ as_word ∷ alias ∷ []) =
    if equal_fold as_word (codes "AS") then with_alias d col alias else none
select_tokens d (a ∷ b ∷ c ∷ e ∷ toks) = none

unfoldable pub quote_select_expr : Dialect → Text → Option Text
unfolding select_tokens fields trim_space
quote_select_expr d s = select_tokens d (fields (trim_space s))

-- The optional NULLS FIRST or NULLS LAST, and nothing behind it.
with_nulls : Text → List Text → Option Text
with_nulls seg [] = some seg
with_nulls seg (n ∷ []) = none
with_nulls seg (n ∷ l ∷ []) =
    if equal_fold n (codes "NULLS")
      && ((to_upper l == codes "FIRST") || (to_upper l == codes "LAST"))
    then some (seg ++ codes " NULLS " ++ to_upper l)
    else none
with_nulls seg (n ∷ l ∷ t ∷ toks) = none

with_direction : Text → List Text → Option Text
unfolding with_nulls
with_direction seg [] = some seg
with_direction seg (t ∷ toks) =
    if (to_upper t == codes "ASC") || (to_upper t == codes "DESC")
    then with_nulls (seg ++ codes " " ++ to_upper t) toks
    else none

order_term : Dialect → List Text → Option Text
unfolding quote_column_ref with_direction
order_term d [] = none
order_term d (col ∷ toks) = bind (quote_column_ref d col) (λ q. with_direction q toks)

order_terms : Dialect → List Text → Option (List Text)
unfolding order_term fields
order_terms d [] = some []
order_terms d (part ∷ parts) =
    bind (order_term d (fields part)) (λ q. bind (order_terms d parts) (λ qs. some (q ∷ qs)))

unfoldable pub sanitize_order_by : Dialect → Text → Option Text
unfolding order_terms split
sanitize_order_by d clause =
    bind (order_terms d (split b',' clause)) (λ terms. some (join_with (codes ", ") terms))
