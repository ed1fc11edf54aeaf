-- ===== src/Migrations/Schema.antt =====
-- framework/migrations/schema.go: the statements that the Up and the Down of a migration queue.
pub mod Ddl
use oniworks.Prelude.{
  ℕ, Bool, true, false, not, ◌||◌, Option, none, some, List, [], ◌∷◌, ◌++◌, map, if◌then◌else◌,
  ◌==◌, nat_eq,
}
use oniworks.Prelude.Text.{Text, text_eq, codes}
use oniworks.Prelude.Text.Ascii.{to_upper}
use oniworks.Prelude.Text.Decimal.{decimal}
use oniworks.Database.Grammar.{Dialect, postgres, mysql, quoted, join_with, when}
use oniworks.Migrations.Table.{
  Column, TableIndex, Table, to_sql, create_sql, index_statement, table_index_sql,
}

-- joinCols, from what has been joined
unfoldable pub join_rest : Text → Text → List Text → Text
join_rest joined sep [] = joined
join_rest joined sep (c ∷ cols) = join_rest (joined ++ sep ++ c) sep cols

unfoldable pub join_cols : List Text → Text → Text
unfolding join_rest
join_cols [] sep = []
join_cols (c ∷ cols) sep = join_rest c sep cols

unfoldable pub modifier_index_sql : Dialect → Text → List Text → Bool → Text
unfolding index_statement join_cols
modifier_index_sql d table cols unique =
    index_statement d table unique (join_cols cols (codes "_"))
      (join_cols (map (quoted d) cols) (codes ", "))

-- The statements of Schema.Create, for the table that its function builds.
unfoldable pub schema_create : Table → List Text
unfolding create_sql table_index_sql
schema_create t = create_sql t ∷ map (table_index_sql t.dialect t.name) t.indexes

unfoldable pub drop_sql : Dialect → Text → Bool → Text
drop_sql postgres table if_exists =
    codes "DROP TABLE "
    ++ when if_exists (codes "IF EXISTS ")
    ++ quoted postgres table
    ++ codes " CASCADE"
drop_sql mysql table if_exists =
    codes "DROP TABLE " ++ when if_exists (codes "IF EXISTS ") ++ quoted mysql table

rename_table : Dialect → Text → Text → Text
rename_table postgres from to =
    codes "ALTER TABLE " ++ quoted postgres from ++ codes " RENAME TO " ++ quoted postgres to
rename_table mysql from to =
    codes "RENAME TABLE " ++ quoted mysql from ++ codes " TO " ++ quoted mysql to

unfoldable pub add_col_sql : Dialect → Text → Column → Text
unfolding to_sql
add_col_sql d table c = codes "ALTER TABLE " ++ quoted d table ++ codes " ADD COLUMN " ++ to_sql d c

unfoldable pub drop_col_sql : Dialect → Text → Text → Text
drop_col_sql postgres table name =
    codes "ALTER TABLE "
    ++ quoted postgres table
    ++ codes " DROP COLUMN IF EXISTS "
    ++ quoted postgres name
drop_col_sql mysql table name =
    codes "ALTER TABLE " ++ quoted mysql table ++ codes " DROP COLUMN " ++ quoted mysql name
