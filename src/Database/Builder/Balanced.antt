-- ===== src/Database/Builder/Balanced.antt =====
-- framework/database/builder.go: every "?" of a statement has its argument.
use oniworks.Prelude.{
  ℕ, ◌≡◌, refl, ◌∙◌, Bool, true, false, not, List, [], ◌∷◌, ◌++◌, arith, if◌then◌else◌, length,
  length-append, ◌==◌, nat_eq, inl, inr, Bool-cases, Every,
}
use oniworks.Prelude.Text.{Text, text_eq, codes}
use oniworks.Prelude.Text.Decimal.{decimal}
use oniworks.Database.Grammar.{Dialect, quote_ident, join_with, when}
use oniworks.Database.Builder.{WhereClause, Builder, is_positive}
use oniworks.Database.Builder.Sql.{
  is_nil, listed, spaced, where_word, where_parts, where_args, build_where, deleted_clause,
  combined, from_text, from_args, select_text, paging_text, build_select, grouped_count,
  build_count, set_clauses, where_text, build_update,
}
use oniworks.Database.Builder.Marks.{
  marks, total_marks, marks-append, marks-quote_ident, marks-decimal, marks-join_with, marks-listed,
  marks-spaced, marks-when, marks-combined,
}

-- A clause has an argument for each placeholder.
abbrev pub IsBalancedClause : {V : Type 0} → WhereClause V → Type 0
IsBalancedClause w = marks w.clause ≡ length w.args

marks-where_word : (first or : Bool) → marks (where_word first or) ≡ 0
unfolding where_word
marks-where_word true or = refl
marks-where_word false true = refl
marks-where_word false false = refl

marks-having :
    {V : Type 0} (having : Text) (args : List V)
    → marks having ≡ length args
    → marks (when (not (having == [])) (codes " HAVING " ++ having))
      ≡ length (if having == [] then [] else args)
marks-having [] args h = refl
marks-having (c ∷ s) args h = marks-append (codes " HAVING ") (c ∷ s) ∙ omega (arith, h)

marks-select_text : (ss : List Text) → total_marks ss ≡ 0 → marks (select_text ss) ≡ 0
unfolding select_text
marks-select_text [] h = refl
marks-select_text (s ∷ ss) h = marks-join_with (codes ", ") (s ∷ ss) refl ∙ h

marks-where_text : (w : Text) → marks (where_text w) ≡ marks w
unfolding where_text
marks-where_text [] = refl
marks-where_text (c ∷ w) = marks-append (codes " WHERE ") (c ∷ w) ∙ omega arith

total-set_clauses :
    (d : Dialect) (cols : List Text)
    → total_marks cols ≡ 0
    → total_marks (set_clauses d cols) ≡ length cols
unfolding set_clauses
total-set_clauses d [] h = refl
total-set_clauses d (c ∷ cols) h = omega (
  arith,
  marks-append (quote_ident d c) (codes " = ?"),
  marks-quote_ident d c,
  total-set_clauses d cols (omega (arith, h)),
  h,
)

module _ {V : Type 0} where
  total-where_parts :
      (first : Bool) (ws : List (WhereClause V))
      → Every IsBalancedClause ws
      → total_marks (where_parts first ws) ≡ length (where_args ws)
  unfolding where_parts where_args
  total-where_parts first [] h = refl
  total-where_parts first (w ∷ ws) h = ground (
    arith,
    marks-append (where_word first w.or ++ codes "(" ++ w.clause) (codes ")"),
    marks-append (where_word first w.or ++ codes "(") w.clause,
    marks-append (where_word first w.or) (codes "("),
    marks-where_word first w.or,
    length-append w.args (where_args ws),
    total-where_parts false ws h.1,
    h.0,
  )

  pub marks-build_where :
      (ws : List (WhereClause V))
      → Every IsBalancedClause ws
      → marks (build_where ws).0 ≡ length (build_where ws).1
  unfolding build_where
  marks-build_where ws h =
      marks-join_with (codes " ") (where_parts true ws) refl ∙ total-where_parts true ws h

  marks-deleted_clause : (b : Builder V) → marks (deleted_clause b) ≡ 0
  unfolding deleted_clause
  marks-deleted_clause b =
      let name = quote_ident b.dialect (codes "deleted_at") in
      ground (
        arith,
        marks-append name (codes " IS NULL"),
        marks-quote_ident b.dialect (codes "deleted_at"),
      )

  -- The parts of the builder that are written as they are have no placeholders, and its clauses have
  -- an argument for each placeholder.
  pub record IsBalanced (b : Builder V) : Type 0 where
    pub table : marks b.table ≡ 0
    pub selects : total_marks b.selects ≡ 0
    pub joins : total_marks b.joins ≡ 0
    pub wheres : Every IsBalancedClause b.wheres
    pub group_bys : total_marks b.group_bys ≡ 0
    pub having : marks b.having ≡ length b.having_args
    pub order_bys : total_marks b.order_bys ≡ 0
    pub raw_sql : marks b.raw_sql ≡ length b.raw_args

  marks-from_text : (b : Builder V) → IsBalanced b → marks (from_text b) ≡ length (from_args b)
  unfolding from_text from_args
  marks-from_text b h =
      let d = b.dialect in
      let from = codes " FROM " in
      let table = quote_ident d b.table in
      let joins = spaced b.joins in
      let filter = combined (deleted_clause b) (build_where b.wheres).0 in
      let groups = listed (codes " GROUP BY ") b.group_bys in
      let having = when (not (b.having == [])) (codes " HAVING " ++ b.having) in
      let args = if b.having == [] then [] else b.having_args in
      let t₁ = from ++ table in
      let t₂ = t₁ ++ joins in
      let t₃ = t₂ ++ filter in
      let t₄ = t₃ ++ groups in
      marks-append t₄ having
      ∙ omega (
        arith,
        marks-append t₃ groups,
        marks-append t₂ filter,
        marks-append t₁ joins,
        marks-append from table,
        marks-quote_ident d b.table,
        h.table,
        marks-spaced b.joins,
        h.joins,
        marks-combined (deleted_clause b) (build_where b.wheres).0,
        marks-deleted_clause b,
        marks-build_where b.wheres h.wheres,
        marks-listed (codes " GROUP BY ") b.group_bys refl,
        h.group_bys,
        marks-having b.having b.having_args h.having,
        length-append (build_where b.wheres).1 args,
      )

  marks-paging_text : (b : Builder V) → total_marks b.order_bys ≡ 0 → marks (paging_text b) ≡ 0
  unfolding paging_text
  marks-paging_text b h =
      let order = listed (codes " ORDER BY ") b.order_bys in
      let limit = when (is_positive b.limit) (codes " LIMIT " ++ decimal b.limit) in
      let offset = when (is_positive b.offset) (codes " OFFSET " ++ decimal b.offset) in
      let limit_marks : marks limit ≡ 0 =
        marks-when (is_positive b.limit) (codes " LIMIT " ++ decimal b.limit) (
          marks-append (codes " LIMIT ") (decimal b.limit)
          ∙ omega (arith, marks-decimal b.limit)) in
      let offset_marks : marks offset ≡ 0 =
        marks-when (is_positive b.offset) (codes " OFFSET " ++ decimal b.offset) (
          marks-append (codes " OFFSET ") (decimal b.offset)
          ∙ omega (arith, marks-decimal b.offset)) in
      let order_marks : marks order ≡ 0 = marks-listed (codes " ORDER BY ") b.order_bys refl ∙ h in
      marks-append (order ++ limit) offset
      ∙ omega (arith, marks-append order limit, limit_marks, offset_marks, order_marks)

  -- A select has as many placeholders as arguments: each clause that a caller gives has its own, and
  -- the joins, the grouping, the order and the columns have none.
  pub marks-build_select :
      (b : Builder V) → IsBalanced b → marks (build_select b).0 ≡ length (build_select b).1
  unfolding build_select
  marks-build_select b h = elim (Bool-cases (b.raw_sql == [])) [
    | inl built ↦ rw built (
        let start = codes "SELECT " ++ select_text b.selects in
        marks-append (start ++ from_text b) (paging_text b)
        ∙ omega (
          arith,
          marks-append start (from_text b),
          marks-append (codes "SELECT ") (select_text b.selects),
          marks-select_text b.selects h.selects,
          marks-from_text b h,
          marks-paging_text b h.order_bys,
        ))
    | inr own ↦ rw own h.raw_sql
  ]

  count-IsBalanced :
      (b : Builder V) (columns orders : List Text) (limit offset : ℕ)
      → IsBalanced b
      → total_marks columns ≡ 0
      → total_marks orders ≡ 0
      → IsBalanced
          (record b { selects = columns; order_bys = orders; limit = limit; offset = offset })
  count-IsBalanced b columns orders limit offset h s o = record {
    table = h.table;
    selects = s;
    joins = h.joins;
    wheres = h.wheres;
    group_bys = h.group_bys;
    having = h.having;
    order_bys = o;
    raw_sql = h.raw_sql;
  }

  -- A count has as many placeholders as arguments, under the same conditions.
  pub marks-build_count :
      (b : Builder V) → IsBalanced b → marks (build_count b).0 ≡ length (build_count b).1
  unfolding build_count grouped_count
  marks-build_count b h = elim (Bool-cases (is_nil b.group_bys)) [
    | inl all ↦ rw all (
        marks-build_select (record b { selects = codes "COUNT(*)" ∷ [] })
          (count-IsBalanced b (codes "COUNT(*)" ∷ []) b.order_bys b.limit b.offset h refl
            h.order_bys))
    | inr grouped ↦
        let inner : Builder V = record b {
          selects = codes "1" ∷ [];
          order_bys = [];
          limit = 0;
          offset = 0;
        } in
        rw grouped (
          marks-append (codes "SELECT COUNT(*) FROM (" ++ (build_select inner).0)
            (codes ") AS _oni_count")
          ∙ omega (
            arith,
            marks-append (codes "SELECT COUNT(*) FROM (") (build_select inner).0,
            marks-build_select inner (count-IsBalanced b (codes "1" ∷ []) [] 0 0 h refl refl),
          ))
  ]

  -- An update has as many placeholders as arguments, where no name has a question mark and each
  -- column has a value; first those of the columns and then those of the clauses.
  pub marks-build_update :
      (d : Dialect) (table : Text) (ws : List (WhereClause V)) (cols : List Text) (vals : List V)
      → marks table ≡ 0
      → total_marks cols ≡ 0
      → length cols ≡ length vals
      → Every IsBalancedClause ws
      → let (query, args) = build_update d table ws cols vals in
        (marks query ≡ length args) × (args ≡ vals ++ (build_where ws).1)
  unfolding build_update
  marks-build_update d table ws cols vals plain names same h =
      let set = join_with (codes ", ") (set_clauses d cols) in
      let t₁ = codes "UPDATE " ++ quote_ident d table in
      let t₂ = t₁ ++ codes " SET " in
      let t₃ = t₂ ++ set in
      (
        marks-append t₃ (where_text (build_where ws).0)
            ∙ omega (
              arith,
              marks-append t₂ set,
              marks-append t₁ (codes " SET "),
              marks-append (codes "UPDATE ") (quote_ident d table),
              marks-quote_ident d table,
              plain,
              marks-join_with (codes ", ") (set_clauses d cols) refl,
              total-set_clauses d cols names,
              same,
              marks-where_text (build_where ws).0,
              marks-build_where ws h,
              length-append vals (build_where ws).1,
            ),
        refl,
      )
