-- ===== src/Migrations/Schema/Ddl.antt =====
-- framework/migrations/table.go and framework/migrations/schema.go against
-- framework/database/grammar.go, which writes the same statements a second time.
use oniworks.Prelude.{◌≡◌, refl, ap, ◌∙◌, true, Bool, List, [], ◌∷◌, ◌++◌, map}
use mathlib.Core.List.{append_assoc}
use oniworks.Prelude.Text.{Text, codes}
use oniworks.Database.Grammar.{
  Dialect, postgres, mysql, ColumnDef, quoted, join_with, varchar, pg_type, my_type, foreign_key,
  pg_column_def, my_column_def, column_def, primary_keys, key_line, table_lines, table_options,
  create_table_sql, add_column_sql, drop_column_sql, drop_table_sql, index_exists, add_index_sql,
}
use oniworks.Migrations.Table.{
  Column, TableIndex, Table, varchar_type, pg_col_type, my_col_type, references, to_postgres_sql,
  to_mysql_sql, to_sql, col_lines, pks, pk_line, options_of, create_sql, index_clause,
  index_statement, table_index_sql,
}
use oniworks.Migrations.Schema.{
  join_rest, join_cols, modifier_index_sql, schema_create, drop_sql, add_col_sql, drop_col_sql,
}

-- A column of a migration as the grammar describes it.
abbrev pub to_def : Column → ColumnDef
to_def c = record {
  name = c.name;
  type = c.kind;
  primary_key = c.pk;
  auto_incr = c.auto_incr;
  nullable = c.nullable;
  unique = c.unique;
  default = c.def;
  length = c.length;
  fk_table = c.fk_table;
  fk_col = c.fk_col;
  fk_on_delete = c.fk_on_delete;
}

to_sql_lem : (d : Dialect) (c : Column) → to_sql d c ≡ column_def d (to_def c)
unfolding to_sql to_postgres_sql to_mysql_sql pg_col_type my_col_type varchar_type references
    column_def pg_column_def my_column_def pg_type my_type varchar foreign_key
to_sql_lem postgres c = refl
to_sql_lem mysql c = refl

pks_lem : (d : Dialect) (cs : List Column) → pks d cs ≡ primary_keys d (map to_def cs)
unfolding pks primary_keys
pks_lem d [] = refl
pks_lem d (c ∷ cs) = rw (pks_lem d cs) refl

pk_line_lem : (ks : List Text) → pk_line ks ≡ key_line ks
unfolding pk_line key_line
pk_line_lem [] = refl
pk_line_lem (k ∷ ks) = refl

col_lines_lem :
    (d : Dialect) (cs : List Column)
    → col_lines d cs ≡ map (λ (c : ColumnDef). codes "  " ++ column_def d c) (map to_def cs)
unfolding col_lines
col_lines_lem d [] = refl
col_lines_lem d (c ∷ cs) = rw (to_sql_lem d c, col_lines_lem d cs) refl

options_of_lem : (d : Dialect) → options_of d ≡ table_options d
unfolding options_of table_options
options_of_lem postgres = refl
options_of_lem mysql = refl

create_sql_lem : (t : Table) → create_sql t ≡ create_table_sql t.dialect t.name (map to_def t.cols)
unfolding create_sql create_table_sql table_lines
create_sql_lem t =
    rw
      (
        col_lines_lem t.dialect t.cols,
        pks_lem t.dialect t.cols,
        pk_line_lem (primary_keys t.dialect (map to_def t.cols)),
        options_of_lem t.dialect,
      )
      refl

index_clause_lem : (d : Dialect) → index_clause d ≡ index_exists d
unfolding index_clause index_exists
index_clause_lem postgres = refl
index_clause_lem mysql = refl

table_index_sql_lem :
    (d : Dialect) (table : Text) (idx : TableIndex)
    → table_index_sql d table idx ≡ add_index_sql d table idx.cols idx.unique
unfolding table_index_sql index_statement add_index_sql
table_index_sql_lem d table idx = rw (index_clause_lem d) refl

join_with-head :
    (sep a c : Text) (cols : List Text)
    → join_with sep ((a ++ c) ∷ cols) ≡ a ++ join_with sep (c ∷ cols)
join_with-head sep a c [] = refl
join_with-head sep a c (d ∷ cols) =
    let rest = join_with sep (d ∷ cols) in
    ap (λ (s : Text). s ++ rest) (append_assoc a c sep) ∙ append_assoc a (c ++ sep) rest

join_rest_lem :
    (joined sep : Text) (cols : List Text)
    → join_rest joined sep cols ≡ join_with sep (joined ∷ cols)
unfolding join_rest
join_rest_lem joined sep [] = refl
join_rest_lem joined sep (c ∷ cols) =
    join_rest_lem (joined ++ sep ++ c) sep cols ∙ join_with-head sep (joined ++ sep) c cols

join_cols_lem : (cols : List Text) (sep : Text) → join_cols cols sep ≡ join_with sep cols
unfolding join_cols
join_cols_lem [] sep = refl
join_cols_lem (c ∷ cols) sep = join_rest_lem c sep cols

modifier_index_sql_lem :
    (d : Dialect) (table : Text) (cols : List Text) (unique : Bool)
    → modifier_index_sql d table cols unique ≡ add_index_sql d table cols unique
unfolding modifier_index_sql index_statement add_index_sql
modifier_index_sql_lem d table cols unique =
    rw
      (
        index_clause_lem d,
        join_cols_lem cols (codes "_"),
        join_cols_lem (map (quoted d) cols) (codes ", "),
      )
      refl

drop_col_sql_lem :
    (d : Dialect) (table name : Text) → drop_col_sql d table name ≡ drop_column_sql d table name
unfolding drop_col_sql drop_column_sql
drop_col_sql_lem postgres table name = refl
drop_col_sql_lem mysql table name = refl

drop_sql_lem : (d : Dialect) (table : Text) → drop_sql d table true ≡ drop_table_sql d table
unfolding drop_sql drop_table_sql
drop_sql_lem postgres table = refl
drop_sql_lem mysql table = refl

add_col_sql_lem :
    (d : Dialect) (table : Text) (c : Column)
    → add_col_sql d table c ≡ add_column_sql d table (to_def c)
unfolding add_col_sql add_column_sql
add_col_sql_lem d table c = rw (to_sql_lem d c) refl

table_indexes_lem :
    (d : Dialect) (table : Text) (indexes : List TableIndex)
    → map (table_index_sql d table) indexes
      ≡ map (λ (idx : TableIndex). add_index_sql d table idx.cols idx.unique) indexes
table_indexes_lem d table [] = refl
table_indexes_lem d table (idx ∷ indexes) =
    rw (table_index_sql_lem d table idx, table_indexes_lem d table indexes) refl

-- The two writers of DDL agree, on every table, column and list of names and for both databases. What
-- Schema.Create queues is the grammar's CREATE TABLE for the same columns and then its CREATE INDEX
-- for each index; and AddColumn, DropColumn, AddIndex or AddUniqueIndex and DropIfExists queue the
-- grammar's statements.
pub ddl_lem :
    (t : Table) (c : Column) (name : Text) (cols : List Text) (unique : Bool)
    → (schema_create t
        ≡ create_table_sql t.dialect t.name (map to_def t.cols)
          ∷ map
              (λ (idx : TableIndex). add_index_sql t.dialect t.name idx.cols idx.unique)
              t.indexes)
      × (add_col_sql t.dialect t.name c ≡ add_column_sql t.dialect t.name (to_def c))
      × (drop_col_sql t.dialect t.name name ≡ drop_column_sql t.dialect t.name name)
      × (modifier_index_sql t.dialect t.name cols unique
          ≡ add_index_sql t.dialect t.name cols unique)
      × (drop_sql t.dialect t.name true ≡ drop_table_sql t.dialect t.name)
unfolding schema_create
ddl_lem t c name cols unique = (
  rw (create_sql_lem t, table_indexes_lem t.dialect t.name t.indexes) refl,
  add_col_sql_lem t.dialect t.name c,
  drop_col_sql_lem t.dialect t.name name,
  modifier_index_sql_lem t.dialect t.name cols unique,
  drop_sql_lem t.dialect t.name,
)
