-- ===== src/Migrations/Table.antt =====
-- framework/migrations/table.go: the table of a CREATE TABLE and the text of its statements.
-- A column stands in its table as it is when its chain of calls is over. Kinds of columns are ASCII,
-- and a length is 0 where the int is negative.
pub mod Columns
use oniworks.Prelude.{
  ℕ, Bool, true, false, not, ◌||◌, Option, none, some, List, [], ◌∷◌, ◌++◌, map, if◌then◌else◌,
  ◌==◌, nat_eq,
}
use oniworks.Prelude.Text.{Text, text_eq, codes}
use oniworks.Prelude.Text.Ascii.{to_upper}
use oniworks.Prelude.Text.Decimal.{decimal}
use oniworks.Database.Grammar.{Dialect, postgres, mysql, quoted, join_with, when}

pub record Column : Type 0 where
  pub name : Text
  pub kind : Text
  pub pk : Bool
  pub auto_incr : Bool
  pub nullable : Bool
  pub unique : Bool
  pub def : Text
  pub length : ℕ
  pub fk_table : Text
  pub fk_col : Text
  pub fk_on_delete : Text

pub record TableIndex : Type 0 where
  pub cols : List Text
  pub unique : Bool

pub record Table : Type 0 where
  pub name : Text
  pub dialect : Dialect
  pub cols : List Column
  pub indexes : List TableIndex

unfoldable pub varchar_type : ℕ → Text
varchar_type length = codes "VARCHAR(" ++ decimal (if length == 0 then 255 else length) ++ codes ")"

unfoldable pub pg_col_type : Column → Text
unfolding varchar_type
pg_col_type c =
    if c.kind == codes "string"
    then varchar_type c.length
    else if c.kind == codes "text"
    then codes "TEXT"
    else if c.kind == codes "int"
    then codes "INTEGER"
    else if c.kind == codes "bigint"
    then codes "BIGINT"
    else if c.kind == codes "bool"
    then codes "BOOLEAN"
    else if c.kind == codes "float"
    then codes "DOUBLE PRECISION"
    else if c.kind == codes "decimal"
    then codes "DECIMAL(10,2)"
    else if (c.kind == codes "json") || (c.kind == codes "jsonb")
    then codes "JSONB"
    else if (c.kind == codes "time") || (c.kind == codes "timestamp")
    then codes "TIMESTAMPTZ"
    else if c.kind == codes "date"
    then codes "DATE"
    else if c.kind == codes "uuid"
    then codes "UUID"
    else if (c.kind == codes "binary") || (c.kind == codes "blob")
    then codes "BYTEA"
    else to_upper c.kind

unfoldable pub my_col_type : Column → Text
unfolding varchar_type
my_col_type c =
    if c.kind == codes "string"
    then varchar_type c.length
    else if c.kind == codes "text"
    then codes "TEXT"
    else if c.kind == codes "int"
    then codes "INT"
    else if c.kind == codes "bigint"
    then codes "BIGINT"
    else if c.kind == codes "bool"
    then codes "TINYINT(1)"
    else if c.kind == codes "float"
    then codes "DOUBLE"
    else if c.kind == codes "decimal"
    then codes "DECIMAL(10,2)"
    else if (c.kind == codes "json") || (c.kind == codes "jsonb")
    then codes "JSON"
    else if (c.kind == codes "time") || (c.kind == codes "timestamp")
    then codes "DATETIME"
    else if c.kind == codes "date"
    then codes "DATE"
    else if c.kind == codes "uuid"
    then codes "VARCHAR(36)"
    else if (c.kind == codes "binary") || (c.kind == codes "blob")
    then codes "BLOB"
    else to_upper c.kind

-- The foreign key that toPostgresSQL writes.
unfoldable pub references : Column → Text
references c = when (not (c.fk_table == [])) (
    codes " REFERENCES "
    ++ quoted postgres c.fk_table
    ++ codes "("
    ++ quoted postgres c.fk_col
    ++ codes ")"
    ++ when (not (c.fk_on_delete == [])) (codes " ON DELETE " ++ c.fk_on_delete))

unfoldable pub to_postgres_sql : Column → Text
unfolding pg_col_type references
to_postgres_sql c =
    quoted postgres c.name
    ++ codes " "
    ++ (if c.auto_incr then codes "BIGSERIAL" else pg_col_type c)
    ++ when (not c.nullable) (codes " NOT NULL")
    ++ when c.unique (codes " UNIQUE")
    ++ when (not (c.def == [])) (codes " DEFAULT " ++ c.def)
    ++ references c

unfoldable pub to_mysql_sql : Column → Text
unfolding my_col_type
to_mysql_sql c =
    quoted mysql c.name
    ++ codes " "
    ++ my_col_type c
    ++ when c.auto_incr (codes " AUTO_INCREMENT")
    ++ when (not c.nullable) (codes " NOT NULL")
    ++ when c.unique (codes " UNIQUE")
    ++ when (not (c.def == [])) (codes " DEFAULT " ++ c.def)

unfoldable pub to_sql : Dialect → Column → Text
unfolding to_postgres_sql to_mysql_sql
to_sql postgres = to_postgres_sql
to_sql mysql = to_mysql_sql

unfoldable pub col_lines : Dialect → List Column → List Text
unfolding to_sql
col_lines d [] = []
col_lines d (c ∷ cs) = (codes "  " ++ to_sql d c) ∷ col_lines d cs

unfoldable pub pks : Dialect → List Column → List Text
pks d [] = []
pks d (c ∷ cs) = let rest = pks d cs in if c.pk then quoted d c.name ∷ rest else rest

unfoldable pub pk_line : List Text → List Text
pk_line [] = []
pk_line (k ∷ ks) = (codes "  PRIMARY KEY (" ++ join_with (codes ", ") (k ∷ ks) ++ codes ")") ∷ []

unfoldable pub options_of : Dialect → Text
options_of postgres = []
options_of mysql = codes " ENGINE=InnoDB DEFAULT CHARSET=utf8mb4 COLLATE=utf8mb4_unicode_ci"

unfoldable pub create_sql : Table → Text
unfolding col_lines pks pk_line options_of
create_sql t =
    let lines = col_lines t.dialect t.cols ++ pk_line (pks t.dialect t.cols) in
    codes "CREATE TABLE IF NOT EXISTS "
    ++ quoted t.dialect t.name
    ++ codes " ("
    ++ b'\n' ∷ join_with (codes "," ++ b'\n' ∷ []) lines
    ++ b'\n' ∷ codes ")"
    ++ options_of t.dialect

unfoldable pub index_clause : Dialect → Text
index_clause postgres = codes "IF NOT EXISTS "
index_clause mysql = []

-- The statement of an index, with the names joined as Table and as TableModifier do.
unfoldable pub index_statement : Dialect → Text → Bool → Text → Text → Text
unfolding index_clause
index_statement d table unique joined listed =
    codes "CREATE "
    ++ when unique (codes "UNIQUE ")
    ++ codes "INDEX "
    ++ index_clause d
    ++ quoted d (codes "idx_" ++ table ++ codes "_" ++ joined)
    ++ codes " ON "
    ++ quoted d table
    ++ codes " ("
    ++ listed
    ++ codes ")"

unfoldable pub table_index_sql : Dialect → Text → TableIndex → Text
unfolding index_statement
table_index_sql d table idx =
    index_statement d table idx.unique (join_with (codes "_") idx.cols)
      (join_with (codes ", ") (map (quoted d) idx.cols))
