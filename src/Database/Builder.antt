-- ===== src/Database/Builder.antt =====
-- framework/database/builder.go: the query builder, from the calls that collect clauses to the
-- statement and the arguments that reach database/sql. `V` is the type of the arguments. Scanning of
-- rows, hooks and relations are not part of the model. An int is its two's-complement pattern below
-- 2 ^ 64, and the strings are UTF-8.
pub mod Sql
pub mod Terminal
pub mod Marks
pub mod Balanced
pub mod Numbered
pub mod Pages
pub mod Guards
use oniworks.Prelude.{
  ℕ, zero, suc, ◌+◌, ◌^◌, Bool, true, false, not, ◌&&◌, ◌||◌, Option, none, some, List, [], ◌∷◌,
  ◌++◌, map, if◌then◌else◌, ltb, ◌==◌, nat_eq,
}
use oniworks.Prelude.Text.{Text, text_eq, codes}
use oniworks.Prelude.Text.Decimal.{decimal}
use oniworks.Database.Grammar.{Dialect, postgres, mysql, quote_ident, join_with, when}
use oniworks.Database.Ident.{quote_column_ref, quote_select_expr, sanitize_order_by}

pub record WhereClause (V : Type 0) : Type 0 where
  pub clause : Text
  pub args : List V
  pub or : Bool

pub data BuildError : Type 0 where
  unsafe_select : Text → BuildError
  unsafe_order_by : Text → BuildError
  unsafe_group_by : Text → BuildError
  unsafe_pluck : Text → BuildError

pub record Builder (V : Type 0) : Type 0 where
  pub dialect : Dialect
  pub table : Text
  pub wheres : List (WhereClause V)
  pub selects : List Text
  pub order_bys : List Text
  pub limit : ℕ
  pub offset : ℕ
  pub joins : List Text
  pub group_bys : List Text
  pub having : Text
  pub having_args : List V
  pub raw_sql : Text
  pub raw_args : List V
  pub with_trashed : Bool
  pub soft_delete : Bool
  pub err : Option BuildError

-- n > 0, for an int
abbrev pub is_positive : ℕ → Bool
is_positive n = ltb 0 n && ltb n (2 ^ 63)

-- n times "?"
abbrev pub question_marks : {V : Type 0} → List V → List Text
question_marks [] = []
question_marks (v ∷ vs) = codes "?" ∷ question_marks vs

unfoldable pub first_error : Option BuildError → BuildError → Option BuildError
first_error none e = some e
first_error (some old) e = some old

module _ {V : Type 0} where
  -- What DB.Table makes of a builder that reset has cleared, and DB.Raw.
  unfoldable pub new_builder : Dialect → Text → Builder V
  new_builder d table = record {
    dialect = d;
    table = table;
    wheres = [];
    selects = [];
    order_bys = [];
    limit = 0;
    offset = 0;
    joins = [];
    group_bys = [];
    having = [];
    having_args = [];
    raw_sql = [];
    raw_args = [];
    with_trashed = false;
    soft_delete = false;
    err = none;
  }

  raw : Dialect → Text → List V → Builder V
  unfolding new_builder
  raw d sql args = record (new_builder d []) { raw_sql = sql; raw_args = args }

  unfoldable pub set_err : BuildError → Builder V → Builder V
  unfolding first_error
  set_err e b = record b { err = first_error b.err e }

  add_select : Text → Option Text → Builder V → Builder V
  unfolding set_err
  add_select c none b = set_err (unsafe_select c) b
  add_select c (some q) b = record b { selects = b.selects ++ q ∷ [] }

  pub select_columns : List Text → Builder V → Builder V
  unfolding add_select quote_select_expr
  select_columns [] b = b
  select_columns (c ∷ cols) b = select_columns cols (add_select c (quote_select_expr b.dialect c) b)

  select_raw : Text → Builder V → Builder V
  select_raw expr b = record b { selects = b.selects ++ expr ∷ [] }

  pub where_clause : Text → List V → Builder V → Builder V
  where_clause clause args b = record b {
    wheres = b.wheres ++ record { clause = clause; args = args; or = false } ∷ [];
  }

  pub or_where : Text → List V → Builder V → Builder V
  or_where clause args b = record b {
    wheres = b.wheres ++ record { clause = clause; args = args; or = true } ∷ [];
  }

  in_list : Dialect → Text → Text → List V → Text
  unfolding quote_ident
  in_list d col word values =
      quote_ident d col
      ++ word
      ++ codes "("
      ++ join_with (codes ",") (question_marks values)
      ++ codes ")"

  pub where_in : Text → List V → Builder V → Builder V
  unfolding where_clause in_list
  where_in col [] b = where_clause (codes "1=0") [] b
  where_in col (v ∷ values) b =
      where_clause (in_list b.dialect col (codes " IN ") (v ∷ values)) (v ∷ values) b

  pub where_not_in : Text → List V → Builder V → Builder V
  unfolding where_clause in_list
  where_not_in col [] b = b
  where_not_in col (v ∷ values) b =
      where_clause (in_list b.dialect col (codes " NOT IN ") (v ∷ values)) (v ∷ values) b

  pub where_null : Text → Builder V → Builder V
  unfolding where_clause quote_ident
  where_null col b = where_clause (quote_ident b.dialect col ++ codes " IS NULL") [] b

  pub where_not_null : Text → Builder V → Builder V
  unfolding where_clause quote_ident
  where_not_null col b = where_clause (quote_ident b.dialect col ++ codes " IS NOT NULL") [] b

  unfoldable pub add_order_by : Text → Option Text → Builder V → Builder V
  unfolding set_err
  add_order_by clause none b = set_err (unsafe_order_by clause) b
  add_order_by clause (some q) b = record b { order_bys = b.order_bys ++ q ∷ [] }

  unfoldable pub order_by : Text → Builder V → Builder V
  unfolding add_order_by sanitize_order_by
  order_by clause b = add_order_by clause (sanitize_order_by b.dialect clause) b

  order_by_raw : Text → Builder V → Builder V
  order_by_raw clause b = record b { order_bys = b.order_bys ++ clause ∷ [] }

  set_limit : ℕ → Builder V → Builder V
  set_limit n b = record b { limit = n }

  set_offset : ℕ → Builder V → Builder V
  set_offset n b = record b { offset = n }

  join_table : Text → Builder V → Builder V
  join_table clause b = record b { joins = b.joins ++ (codes "JOIN " ++ clause) ∷ [] }

  left_join : Text → Builder V → Builder V
  left_join clause b = record b { joins = b.joins ++ (codes "LEFT JOIN " ++ clause) ∷ [] }

  add_group_by : Text → Option Text → Builder V → Builder V
  unfolding set_err
  add_group_by c none b = set_err (unsafe_group_by c) b
  add_group_by c (some q) b = record b { group_bys = b.group_bys ++ q ∷ [] }

  pub group_by : List Text → Builder V → Builder V
  unfolding add_group_by quote_column_ref
  group_by [] b = b
  group_by (c ∷ cols) b = group_by cols (add_group_by c (quote_column_ref b.dialect c) b)

  group_by_raw : Text → Builder V → Builder V
  group_by_raw expr b = record b { group_bys = b.group_bys ++ expr ∷ [] }

  set_having : Text → List V → Builder V → Builder V
  set_having clause args b = record b { having = clause; having_args = args }

  set_with_trashed : Builder V → Builder V
  set_with_trashed b = record b { with_trashed = true }

  set_soft_delete : Builder V → Builder V
  set_soft_delete b = record b { soft_delete = true }
