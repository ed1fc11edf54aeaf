-- ===== src/Migrations/Table/Columns.antt =====
-- framework/migrations/table.go: what a migration calls to describe a table.
use oniworks.Prelude.{ℕ, Bool, true, false, Option, none, some, List, [], ◌∷◌, ◌++◌, if◌then◌else◌}
use oniworks.Prelude.Text.{Text, codes}
use oniworks.Database.Grammar.{Dialect}
use oniworks.Migrations.Table.{Column, Table}

unfoldable pub new_table : Text → Dialect → Table
new_table name d = record { name = name; dialect = d; cols = []; indexes = [] }

pub col : Text → Text → Column
col name kind = record {
  name = name;
  kind = kind;
  pk = false;
  auto_incr = false;
  nullable = false;
  unique = false;
  def = [];
  length = 0;
  fk_table = [];
  fk_col = [];
  fk_on_delete = [];
}

set_pk : Column → Column
set_pk c = record c { pk = true }

auto_inc : Column → Column
auto_inc c = record c { auto_incr = true }

set_nullable : Column → Column
set_nullable c = record c { nullable = true }

not_nullable : Column → Column
not_nullable c = record c { nullable = false }

set_unique : Column → Column
set_unique c = record c { unique = true }

-- Default, for a string, a bool, and what %v makes of any other value.
data DefaultValue : Type 0 where
  text_value : Text → DefaultValue
  bool_value : Bool → DefaultValue
  other_value : Text → DefaultValue

default_text : DefaultValue → Text
default_text (text_value s) = codes "'" ++ s ++ codes "'"
default_text (bool_value b) = if b then codes "TRUE" else codes "FALSE"
default_text (other_value s) = s

set_default : DefaultValue → Column → Column
unfolding default_text
set_default v c = record c { def = default_text v }

set_len : ℕ → Column → Column
set_len n c = record c { length = n }

on_delete : Text → Column → Column
on_delete action c = record c { fk_on_delete = action }

-- ID, UUID, String and ForeignKey, and the columns of Timestamps and SoftDeletes
pub id_column : Column
unfolding col set_pk auto_inc
id_column = auto_inc (set_pk (col (codes "id") (codes "bigint")))

uuid_column : Column
unfolding col set_pk
uuid_column = set_pk (col (codes "id") (codes "uuid"))

pub string_column : Text → Option ℕ → Column
unfolding col set_len
string_column name none = set_len 255 (col name (codes "string"))
string_column name (some n) = set_len n (col name (codes "string"))

text_column : Text → Column
unfolding col
text_column name = col name (codes "text")

integer_column : Text → Column
unfolding col
integer_column name = col name (codes "int")

big_integer_column : Text → Column
unfolding col
big_integer_column name = col name (codes "bigint")

boolean_column : Text → Column
unfolding col
boolean_column name = col name (codes "bool")

float_column : Text → Column
unfolding col
float_column name = col name (codes "float")

decimal_column : Text → Column
unfolding col
decimal_column name = col name (codes "decimal")

json_column : Text → Column
unfolding col
json_column name = col name (codes "json")

timestamp_column : Text → Column
unfolding col
timestamp_column name = col name (codes "time")

date_column : Text → Column
unfolding col
date_column name = col name (codes "date")

binary_column : Text → Column
unfolding col
binary_column name = col name (codes "binary")

foreign_key_column : Text → Text → Text → Column
unfolding col
foreign_key_column name ref_table ref_col = record (col name (codes "bigint")) {
  fk_table = ref_table;
  fk_col = ref_col;
}

timestamps : List Column
unfolding col not_nullable
timestamps =
    not_nullable (col (codes "created_at") (codes "time"))
    ∷ not_nullable (col (codes "updated_at") (codes "time"))
    ∷ []

soft_deletes : Column
unfolding col set_nullable
soft_deletes = set_nullable (col (codes "deleted_at") (codes "time"))

pub add_col : Column → Table → Table
add_col c t = record t { cols = t.cols ++ c ∷ [] }

-- Index and UniqueIndex
pub add_index : List Text → Bool → Table → Table
add_index names unique t = record t {
  indexes = t.indexes ++ record { cols = names; unique = unique } ∷ [];
}
