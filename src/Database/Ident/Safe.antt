-- ===== src/Database/Ident/Safe.antt =====
-- framework/database/builder.go: no column reference, select expression or order clause that is
-- accepted carries other SQL.
use oniworks.Prelude.{
  ◌≡◌, refl, sym, subst, true, ◌&&◌, ◌||◌, none, some, List, [], ◌∷◌, ◌++◌, arith, if◌then◌else◌,
  ◌==◌, ==_iff, nat_eq, inl, inr, Bool-cases, Every,
}
use oniworks.Prelude.Text.{Text, text_eq, codes, split}
use oniworks.Prelude.Text.Ascii.{to_upper, equal_fold, fields, trim_space}
use oniworks.Database.Grammar.{Dialect, quote_ident, join_with}
use oniworks.Database.Ident.{
  all_word_bytes, is_safe_ident_segment, bind, quote_column_ref, with_alias, select_tokens,
  quote_select_expr, with_nulls, with_direction, order_term, order_terms, sanitize_order_by,
}
use oniworks.Database.Ident.Plain.{
  IsPlain, all_word_bytes-IsPlain, is_safe_ident_segment-IsPlain, append-IsPlain,
  quote_ident-IsPlain, bind-some, some-injective, guard-some, join_with-IsPlain,
  quote_column_ref-IsPlain,
}

with_alias-IsPlain :
    (d : Dialect) (col alias q : Text) → with_alias d col alias ≡ some q → IsPlain d q
unfolding with_alias
with_alias-IsPlain d col alias q h =
    let (c, e, more) =
      bind-some (quote_column_ref d col)
        (λ c.
          if is_safe_ident_segment alias
          then some (c ++ codes " AS " ++ quote_ident d alias)
          else none)
        q h in
    let (safe, same) =
      guard-some (is_safe_ident_segment alias) (c ++ codes " AS " ++ quote_ident d alias) q more in
    subst (IsPlain d) same (
      append-IsPlain d (c ++ codes " AS ") (quote_ident d alias)
        (append-IsPlain d c (codes " AS ") (quote_column_ref-IsPlain d col c e)
          (ground arith, (ground arith, (ground arith, (ground arith, tt)))))
        (quote_ident-IsPlain d alias (is_safe_ident_segment-IsPlain d alias safe)))

select_tokens-IsPlain :
    (d : Dialect) (toks : List Text) (q : Text) → select_tokens d toks ≡ some q → IsPlain d q
unfolding select_tokens
select_tokens-IsPlain d [] q h = absurd (cc)
select_tokens-IsPlain d (col ∷ []) q h = quote_column_ref-IsPlain d col q h
select_tokens-IsPlain d (col ∷ alias ∷ []) q h = with_alias-IsPlain d col alias q h
select_tokens-IsPlain d (col ∷ as_word ∷ alias ∷ []) q h =
    elim (Bool-cases (equal_fold as_word (codes "AS"))) [
      | inl same ↦ with_alias-IsPlain d col alias q (rw same at h)
      | inr other ↦ let never : none ≡ some q = rw other at h in cc
    ]
select_tokens-IsPlain d (a ∷ b ∷ c ∷ e ∷ toks) q h = absurd (cc)

-- Of a select expression that is accepted, every byte is plain.
pub quote_select_expr-IsPlain :
    (d : Dialect) (s q : Text) → quote_select_expr d s ≡ some q → IsPlain d q
unfolding quote_select_expr
quote_select_expr-IsPlain d s q h = select_tokens-IsPlain d (fields (trim_space s)) q h

word_asc : all_word_bytes (codes "ASC") ≡ true
unfolding all_word_bytes
word_asc = refl

word_desc : all_word_bytes (codes "DESC") ≡ true
unfolding all_word_bytes
word_desc = refl

word_nulls : all_word_bytes (codes "NULLS") ≡ true
unfolding all_word_bytes
word_nulls = refl

nulls-IsPlain : (d : Dialect) → IsPlain d (codes " NULLS ")
nulls-IsPlain d = (
  ground arith,
  append-IsPlain d (codes "NULLS") (codes " ") (all_word_bytes-IsPlain d (codes "NULLS") word_nulls)
      (ground arith, tt),
)

first_last-IsPlain :
    (d : Dialect) (w : Text) → ((w == codes "FIRST") || (w == codes "LAST")) ≡ true → IsPlain d w
unfolding all_word_bytes
first_last-IsPlain d w k = elim (Bool-cases (w == codes "FIRST")) [
  | inl one ↦
      subst (IsPlain d) (sym ((==_iff w (codes "FIRST")).0 one))
        (all_word_bytes-IsPlain d (codes "FIRST") refl)
  | inr two ↦
      subst (IsPlain d) (sym ((==_iff w (codes "LAST")).0 (ground arith)))
        (all_word_bytes-IsPlain d (codes "LAST") refl)
]

-- A keyword of the allow-list, behind a space.
ascending-IsPlain :
    (d : Dialect) (seg w : Text)
    → IsPlain d seg
    → ((w == codes "ASC") || (w == codes "DESC")) ≡ true
    → IsPlain d (seg ++ codes " " ++ w)
ascending-IsPlain d seg w h k =
    append-IsPlain d (seg ++ codes " ") w (append-IsPlain d seg (codes " ") h (ground arith, tt))
      (elim (Bool-cases (w == codes "ASC")) [
        | inl asc ↦
            subst (IsPlain d) (sym ((==_iff w (codes "ASC")).0 asc))
              (all_word_bytes-IsPlain d (codes "ASC") (word_asc))
        | inr desc ↦
            subst (IsPlain d) (sym ((==_iff w (codes "DESC")).0 (ground arith)))
              (all_word_bytes-IsPlain d (codes "DESC") (word_desc))
      ])

with_nulls-IsPlain :
    (d : Dialect) (seg q : Text) (toks : List Text)
    → IsPlain d seg
    → with_nulls seg toks ≡ some q
    → IsPlain d q
unfolding with_nulls
with_nulls-IsPlain d seg q [] h e = subst (IsPlain d) (some-injective seg q e) h
with_nulls-IsPlain d seg q (n ∷ []) h e = absurd (cc)
with_nulls-IsPlain d seg q (n ∷ l ∷ []) h e =
    let first = to_upper l == codes "FIRST" in
    let last = to_upper l == codes "LAST" in
    let (test, same) =
      guard-some (equal_fold n (codes "NULLS") && (first || last))
        (seg ++ codes " NULLS " ++ to_upper l) q e in
    subst (IsPlain d) same (
      append-IsPlain d (seg ++ codes " NULLS ") (to_upper l)
        (append-IsPlain d seg (codes " NULLS ") h (nulls-IsPlain d))
        (first_last-IsPlain d (to_upper l) (ground arith)))
with_nulls-IsPlain d seg q (n ∷ l ∷ t ∷ toks) h e = absurd (cc)

with_direction-IsPlain :
    (d : Dialect) (seg q : Text) (toks : List Text)
    → IsPlain d seg
    → with_direction seg toks ≡ some q
    → IsPlain d q
unfolding with_direction
with_direction-IsPlain d seg q [] h e = subst (IsPlain d) (some-injective seg q e) h
with_direction-IsPlain d seg q (t ∷ toks) h e =
    elim (Bool-cases ((to_upper t == codes "ASC") || (to_upper t == codes "DESC"))) [
      | inl known ↦
          with_nulls-IsPlain d (seg ++ codes " " ++ to_upper t) q toks
            (ascending-IsPlain d seg (to_upper t) h known) (rw known at e)
      | inr other ↦ let never : none ≡ some q = rw other at e in cc
    ]

order_term-IsPlain :
    (d : Dialect) (toks : List Text) (q : Text) → order_term d toks ≡ some q → IsPlain d q
unfolding order_term
order_term-IsPlain d [] q h = absurd (cc)
order_term-IsPlain d (col ∷ toks) q h =
    let (c, e, more) = bind-some (quote_column_ref d col) (λ c. with_direction c toks) q h in
    with_direction-IsPlain d c q toks (quote_column_ref-IsPlain d col c e) more

order_terms-IsPlain :
    (d : Dialect) (parts qs : List Text) → order_terms d parts ≡ some qs → Every (IsPlain d) qs
unfolding order_terms
order_terms-IsPlain d [] qs h = subst (Every (IsPlain d)) (some-injective [] qs h) tt
order_terms-IsPlain d (part ∷ parts) qs h =
    let (q, e, more) =
      bind-some (order_term d (fields part)) (λ q. bind (order_terms d parts) (λ qs. some (q ∷ qs)))
        qs h in
    let (rest, e', same) = bind-some (order_terms d parts) (λ qs. some (q ∷ qs)) qs more in
    subst (Every (IsPlain d)) (some-injective (q ∷ rest) qs same)
      (order_term-IsPlain d (fields part) q e, order_terms-IsPlain d parts rest e')

-- Of an order clause that is accepted, every byte is a letter, a digit, an underscore, the dialect's
-- quote, a point, a star, a comma or a space.
pub sanitize_order_by-IsPlain :
    (d : Dialect) (clause q : Text) → sanitize_order_by d clause ≡ some q → IsPlain d q
unfolding sanitize_order_by
sanitize_order_by-IsPlain d clause q h =
    let terms = order_terms d (split b',' clause) in
    let (ts, e, same) = bind-some terms (λ ts. some (join_with (codes ", ") ts)) q h in
    subst (IsPlain d) (some-injective (join_with (codes ", ") ts) q same) (
      join_with-IsPlain d (codes ", ") ts (ground arith, (ground arith, tt))
        (order_terms-IsPlain d (split b',' clause) ts e))
