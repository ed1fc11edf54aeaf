-- ===== src/Database/Builder/Sql.antt =====
-- framework/database/builder.go: the assembly of the statements, each with its arguments in the
-- order of their placeholders.
use oniworks.Prelude.{
  ℕ, ◌+◌, Bool, true, false, not, ◌&&◌, List, [], ◌∷◌, ◌++◌, map, if◌then◌else◌, ◌==◌, nat_eq,
}
use oniworks.Prelude.Text.{Text, text_eq, codes}
use oniworks.Prelude.Text.Decimal.{decimal}
use oniworks.Database.Grammar.{Dialect, postgres, mysql, quote_ident, join_with, when}
use oniworks.Database.Builder.{WhereClause, Builder, is_positive, question_marks}

abbrev pub is_nil {ℓ} : {A : Type ℓ} → List A → Bool
is_nil [] = true
is_nil (x ∷ xs) = false

-- " WORD a, b, c", or nothing for no terms
abbrev pub listed : Text → List Text → Text
listed word [] = []
listed word (t ∷ ts) = word ++ join_with (codes ", ") (t ∷ ts)

abbrev pub spaced : List Text → Text
spaced [] = []
spaced (j ∷ js) = codes " " ++ j ++ spaced js

unfoldable pub normalize_from : ℕ → Text → Text
unfolding decimal
normalize_from n [] = []
normalize_from n (c ∷ s) =
    let rest = normalize_from n s in
    let numbered = normalize_from (n + 1) s in
    if c == b'?' then b'$' ∷ decimal (n + 1) ++ numbered else c ∷ rest

unfoldable pub normalize_placeholders : Dialect → Text → Text
unfolding normalize_from
normalize_placeholders postgres query = normalize_from 0 query
normalize_placeholders mysql query = query

unfoldable pub where_word : Bool → Bool → Text
where_word true or = []
where_word false true = codes "OR "
where_word false false = codes "AND "

unfoldable pub combined : Text → Text → Text
combined [] [] = []
combined [] (c ∷ w) = codes " WHERE " ++ c ∷ w
combined (c ∷ sd) [] = codes " WHERE " ++ c ∷ sd
combined (c ∷ sd) (e ∷ w) = codes " WHERE " ++ (c ∷ sd) ++ codes " AND (" ++ (e ∷ w) ++ codes ")"

unfoldable pub select_text : List Text → Text
select_text [] = codes "*"
select_text (s ∷ ss) = join_with (codes ", ") (s ∷ ss)

unfoldable pub set_clauses : Dialect → List Text → List Text
unfolding quote_ident
set_clauses d [] = []
set_clauses d (c ∷ cols) = (quote_ident d c ++ codes " = ?") ∷ set_clauses d cols

unfoldable pub where_text : Text → Text
where_text [] = []
where_text (c ∷ w) = codes " WHERE " ++ c ∷ w

module _ {V : Type 0} where
  unfoldable pub where_parts : Bool → List (WhereClause V) → List Text
  unfolding where_word
  where_parts first [] = []
  where_parts first (w ∷ ws) =
      (where_word first w.or ++ codes "(" ++ w.clause ++ codes ")") ∷ where_parts false ws

  unfoldable pub where_args : List (WhereClause V) → List V
  where_args [] = []
  where_args (w ∷ ws) = w.args ++ where_args ws

  unfoldable pub build_where : List (WhereClause V) → Text × List V
  unfolding where_parts where_args
  build_where ws = (join_with (codes " ") (where_parts true ws), where_args ws)

  unfoldable pub deleted_clause : Builder V → Text
  unfolding quote_ident
  deleted_clause b =
      if b.soft_delete && not b.with_trashed
      then quote_ident b.dialect (codes "deleted_at") ++ codes " IS NULL"
      else []

  -- The part from FROM to HAVING.
  unfoldable pub from_text : Builder V → Text
  unfolding combined deleted_clause build_where quote_ident
  from_text b =
      codes " FROM "
      ++ quote_ident b.dialect b.table
      ++ spaced b.joins
      ++ combined (deleted_clause b) (build_where b.wheres).0
      ++ listed (codes " GROUP BY ") b.group_bys
      ++ when (not (b.having == [])) (codes " HAVING " ++ b.having)

  unfoldable pub from_args : Builder V → List V
  unfolding build_where
  from_args b = (build_where b.wheres).1 ++ (if b.having == [] then [] else b.having_args)

  -- The part behind HAVING.
  unfoldable pub paging_text : Builder V → Text
  unfolding decimal
  paging_text b =
      listed (codes " ORDER BY ") b.order_bys
      ++ when (is_positive b.limit) (codes " LIMIT " ++ decimal b.limit)
      ++ when (is_positive b.offset) (codes " OFFSET " ++ decimal b.offset)

  unfoldable pub build_select : Builder V → Text × List V
  unfolding from_text from_args select_text paging_text
  build_select b =
      if b.raw_sql == []
      then (codes "SELECT " ++ select_text b.selects ++ from_text b ++ paging_text b, from_args b)
      else (b.raw_sql, b.raw_args)

  unfoldable pub grouped_count : Text × List V → Text × List V
  grouped_count (inner, args) =
      (codes "SELECT COUNT(*) FROM (" ++ inner ++ codes ") AS _oni_count", args)

  unfoldable pub build_count : Builder V → Text × List V
  unfolding build_select grouped_count
  build_count b =
      if is_nil b.group_bys
      then build_select (record b { selects = codes "COUNT(*)" ∷ [] })
      else grouped_count (
          build_select
            (record b { selects = codes "1" ∷ []; order_bys = []; limit = 0; offset = 0 }))

  unfoldable pub build_insert : Dialect → Text → List Text → List V → Text × List V
  unfolding quote_ident
  build_insert d table cols vals = (
    codes "INSERT INTO "
        ++ quote_ident d table
        ++ codes " ("
        ++ join_with (codes ", ") (map (quote_ident d) cols)
        ++ codes ") VALUES ("
        ++ join_with (codes ", ") (question_marks cols)
        ++ codes ")",
    vals,
  )

  unfoldable pub build_update :
      Dialect → Text → List (WhereClause V) → List Text → List V → Text × List V
  unfolding set_clauses build_where where_text quote_ident
  build_update d table ws cols vals = (
    codes "UPDATE "
        ++ quote_ident d table
        ++ codes " SET "
        ++ join_with (codes ", ") (set_clauses d cols)
        ++ where_text (build_where ws).0,
    vals ++ (build_where ws).1,
  )

  unfoldable pub build_delete : Dialect → Text → List (WhereClause V) → Text × List V
  unfolding build_where where_text quote_ident
  build_delete d table ws = (
    codes "DELETE FROM " ++ quote_ident d table ++ where_text (build_where ws).0,
    (build_where ws).1,
  )
