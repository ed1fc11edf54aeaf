-- ===== src/Database/Grammar.antt =====
-- framework/database/grammar.go: the SQL that differs between PostgreSQL and MySQL.
-- Strings that the code takes to upper case are ASCII. A Length is a number that is 0 where the
-- int is negative.
pub mod Quote
use oniworks.Prelude.{
  ℕ, zero, suc, Bool, true, false, not, ◌&&◌, ◌||◌, List, [], ◌∷◌, ◌++◌, map, if◌then◌else◌, ◌==◌,
  nat_eq,
}
use oniworks.Prelude.Text.{Text, text_eq, codes}
use oniworks.Prelude.Text.Ascii.{to_upper}
use oniworks.Prelude.Text.Decimal.{decimal}

pub data Dialect : Type 0 where
  postgres : Dialect
  mysql : Dialect

pub record ColumnDef : Type 0 where
  pub name : Text
  pub type : Text
  pub primary_key : Bool
  pub auto_incr : Bool
  pub nullable : Bool
  pub unique : Bool
  pub default : Text
  pub length : ℕ
  pub fk_table : Text
  pub fk_col : Text
  pub fk_on_delete : Text

-- The double quote and the backquote.
abbrev pub quote_byte : Dialect → ℕ
quote_byte postgres = 34
quote_byte mysql = 96

-- strings.ReplaceAll(s, q, qq), for a byte q
unfoldable pub double_byte : ℕ → Text → Text
double_byte q [] = []
double_byte q (c ∷ s) = let rest = double_byte q s in if c == q then c ∷ c ∷ rest else c ∷ rest

unfoldable pub quote_ident : Dialect → Text → Text
unfolding double_byte
quote_ident d s = quote_byte d ∷ double_byte (quote_byte d) s ++ quote_byte d ∷ []

-- The name between quotes, as the DDL writes it.
abbrev pub quoted : Dialect → Text → Text
quoted d s = quote_byte d ∷ s ++ quote_byte d ∷ []

pub placeholder : Dialect → ℕ → Text
placeholder postgres zero = codes "?"
placeholder postgres (suc n) = codes "$" ++ decimal (suc n)
placeholder mysql n = codes "?"

-- strings.Join
abbrev pub join_with : Text → List Text → Text
join_with sep [] = []
join_with sep (p ∷ []) = p
join_with sep (p ∷ q ∷ ps) = p ++ sep ++ join_with sep (q ∷ ps)

abbrev pub when : Bool → Text → Text
when b s = if b then s else []

unfoldable pub varchar : ℕ → Text
varchar length = codes "VARCHAR(" ++ decimal (if length == 0 then 255 else length) ++ codes ")"

unfoldable pub pg_type : ColumnDef → Text
unfolding varchar
pg_type c =
    if c.type == codes "string"
    then varchar c.length
    else if c.type == codes "text"
    then codes "TEXT"
    else if c.type == codes "int"
    then codes "INTEGER"
    else if c.type == codes "bigint"
    then codes "BIGINT"
    else if c.type == codes "bool"
    then codes "BOOLEAN"
    else if c.type == codes "float"
    then codes "DOUBLE PRECISION"
    else if c.type == codes "decimal"
    then codes "DECIMAL(10,2)"
    else if (c.type == codes "json") || (c.type == codes "jsonb")
    then codes "JSONB"
    else if (c.type == codes "time") || (c.type == codes "timestamp")
    then codes "TIMESTAMPTZ"
    else if c.type == codes "date"
    then codes "DATE"
    else if c.type == codes "uuid"
    then codes "UUID"
    else if (c.type == codes "binary") || (c.type == codes "blob")
    then codes "BYTEA"
    else to_upper c.type

unfoldable pub my_type : ColumnDef → Text
unfolding varchar
my_type c =
    if c.type == codes "string"
    then varchar c.length
    else if c.type == codes "text"
    then codes "TEXT"
    else if c.type == codes "int"
    then codes "INT"
    else if c.type == codes "bigint"
    then codes "BIGINT"
    else if c.type == codes "bool"
    then codes "TINYINT(1)"
    else if c.type == codes "float"
    then codes "DOUBLE"
    else if c.type == codes "decimal"
    then codes "DECIMAL(10,2)"
    else if (c.type == codes "json") || (c.type == codes "jsonb")
    then codes "JSON"
    else if (c.type == codes "time") || (c.type == codes "timestamp")
    then codes "DATETIME"
    else if c.type == codes "date"
    then codes "DATE"
    else if c.type == codes "uuid"
    then codes "VARCHAR(36)"
    else if (c.type == codes "binary") || (c.type == codes "blob")
    then codes "BLOB"
    else to_upper c.type

unfoldable pub foreign_key : ColumnDef → Text
foreign_key c = when (not (c.fk_table == [])) (
    codes " REFERENCES "
    ++ quoted postgres c.fk_table
    ++ codes "("
    ++ quoted postgres c.fk_col
    ++ codes ")"
    ++ when (not (c.fk_on_delete == [])) (codes " ON DELETE " ++ c.fk_on_delete))

unfoldable pub pg_column_def : ColumnDef → Text
unfolding pg_type foreign_key
pg_column_def c =
    quoted postgres c.name
    ++ codes " "
    ++ (if c.auto_incr then codes "BIGSERIAL" else pg_type c)
    ++ when (not c.nullable) (codes " NOT NULL")
    ++ when c.unique (codes " UNIQUE")
    ++ when (not (c.default == [])) (codes " DEFAULT " ++ c.default)
    ++ foreign_key c

unfoldable pub my_column_def : ColumnDef → Text
unfolding my_type
my_column_def c =
    quoted mysql c.name
    ++ codes " "
    ++ my_type c
    ++ when c.auto_incr (codes " AUTO_INCREMENT")
    ++ when (not c.nullable) (codes " NOT NULL")
    ++ when c.unique (codes " UNIQUE")
    ++ when (not (c.default == [])) (codes " DEFAULT " ++ c.default)

unfoldable pub column_def : Dialect → ColumnDef → Text
unfolding pg_column_def my_column_def
column_def postgres = pg_column_def
column_def mysql = my_column_def

unfoldable pub primary_keys : Dialect → List ColumnDef → List Text
primary_keys d [] = []
primary_keys d (c ∷ cols) =
    let rest = primary_keys d cols in if c.primary_key then quoted d c.name ∷ rest else rest

unfoldable pub key_line : List Text → List Text
key_line [] = []
key_line (k ∷ ks) = (codes "  PRIMARY KEY (" ++ join_with (codes ", ") (k ∷ ks) ++ codes ")") ∷ []

unfoldable pub table_lines : Dialect → List ColumnDef → List Text
unfolding column_def key_line primary_keys
table_lines d cols =
    map (λ (c : ColumnDef). codes "  " ++ column_def d c) cols ++ key_line (primary_keys d cols)

unfoldable pub table_options : Dialect → Text
table_options postgres = []
table_options mysql = codes " ENGINE=InnoDB DEFAULT CHARSET=utf8mb4 COLLATE=utf8mb4_unicode_ci"

unfoldable pub create_table_sql : Dialect → Text → List ColumnDef → Text
unfolding table_lines table_options
create_table_sql d table cols =
    codes "CREATE TABLE IF NOT EXISTS "
    ++ quoted d table
    ++ codes " ("
    ++ b'\n' ∷ join_with (codes "," ++ b'\n' ∷ []) (table_lines d cols)
    ++ b'\n' ∷ codes ")"
    ++ table_options d

unfoldable pub drop_table_sql : Dialect → Text → Text
drop_table_sql postgres table =
    codes "DROP TABLE IF EXISTS " ++ quoted postgres table ++ codes " CASCADE"
drop_table_sql mysql table = codes "DROP TABLE IF EXISTS " ++ quoted mysql table

unfoldable pub add_column_sql : Dialect → Text → ColumnDef → Text
unfolding column_def
add_column_sql d table col =
    codes "ALTER TABLE " ++ quoted d table ++ codes " ADD COLUMN " ++ column_def d col

unfoldable pub drop_column_sql : Dialect → Text → Text → Text
drop_column_sql postgres table col =
    codes "ALTER TABLE "
    ++ quoted postgres table
    ++ codes " DROP COLUMN IF EXISTS "
    ++ quoted postgres col
drop_column_sql mysql table col =
    codes "ALTER TABLE " ++ quoted mysql table ++ codes " DROP COLUMN " ++ quoted mysql col

unfoldable pub index_exists : Dialect → Text
index_exists postgres = codes "IF NOT EXISTS "
index_exists mysql = []

unfoldable pub add_index_sql : Dialect → Text → List Text → Bool → Text
unfolding index_exists
add_index_sql d table cols unique =
    codes "CREATE "
    ++ when unique (codes "UNIQUE ")
    ++ codes "INDEX "
    ++ index_exists d
    ++ quoted d (codes "idx_" ++ table ++ codes "_" ++ join_with (codes "_") cols)
    ++ codes " ON "
    ++ quoted d table
    ++ codes " ("
    ++ join_with (codes ", ") (map (quoted d) cols)
    ++ codes ")"
