-- ===== src/Migrations/Examples.antt =====
-- framework/migrations: a schema that is the number of its tables, and two migrations.
use oniworks.Prelude.{
  ℕ, zero, suc, ◌+◌, ◌≡◌, ◌≢◌, refl, sym, subst, ap, ◌∙◌, ◌↔◌, true, false, Option, none, some,
  List, [], ◌∷◌, ◌++◌, map, arith, if◌then◌else◌, ◌==◌,
}
use oniworks.Prelude.Text.{Text, text_eq, codes}
use oniworks.Prelude.Sort.{IsAscending, IsUnique}
use oniworks.Migrations.{
  Migration, Row, Database, failed, done, Engine, has_ran, pending, ensure_table, find_by_name,
  max_batch, last_batch, migrate, rollback, statement_failed,
}
use oniworks.Migrations.Pending.{row_of, pending_lem}
use oniworks.Migrations.Run.{exec_all, statements, filled, migrate-failed, migrate-done}
use oniworks.Migrations.Rollback.{IsReversible}
use oniworks.Migrations.Batch.{rollback-migrate}
use oniworks.Migrations.Stuck.{rollback_stuck}
use oniworks.Database.Grammar.{
  postgres, create_table_sql, add_index_sql, add_column_sql, drop_column_sql, drop_table_sql,
}
use oniworks.Migrations.Table.{
  Column, TableIndex, Table, create_sql, col_lines, pks, pk_line, options_of,
}
use oniworks.Migrations.Table.Columns.{new_table, add_col, add_index, id_column, string_column}
use oniworks.Migrations.Schema.{
  schema_create, drop_sql, add_col_sql, drop_col_sql, modifier_index_sql,
}
use oniworks.Migrations.Schema.Ddl.{to_def, ddl_lem}
use mathlib.Core.List.{Memᴰ}

drop_one : ℕ → Option ℕ
drop_one zero = none
drop_one (suc n) = some n

-- "+" makes a table and "-" drops one; any other statement fails.
exec : Text → ℕ → Option ℕ
unfolding drop_one
exec stmt n =
    if stmt == codes "+" then some (suc n) else if stmt == codes "-" then drop_one n else none

abbrev engine : Engine ℕ
engine = record {
  exec = exec;
  inserts = λ name. true;
  deletes = λ name. true;
  commits = true;
  undo = λ before now. before;
  drop_all = λ db. done (record { schema = 0; rows = none });
}

abbrev first : Migration
first = record { name = codes "1"; up = codes "+" ∷ []; down = codes "-" ∷ [] }

abbrev second : Migration
second = record { name = codes "2"; up = [] ∷ codes "+" ∷ []; down = codes "-" ∷ [] }

abbrev broken : Migration
broken = record { name = codes "3"; up = codes "+" ∷ codes "x" ∷ []; down = [] }

abbrev new_database : Database ℕ
new_database = record { schema = 0; rows = none }

abbrev both_rows : List Row
both_rows = row_of 1 first ∷ row_of 1 second ∷ []

abbrev migrated : Database ℕ
migrated = record { schema = 2; rows = some both_rows }

migrate-both : migrate engine (second ∷ first ∷ []) new_database ≡ done migrated
unfolding migrate exec
migrate-both = refl

migrate-broken :
    migrate engine (broken ∷ first ∷ []) new_database
    ≡ failed (statement_failed (codes "3") (codes "x")) (ensure_table new_database)
unfolding migrate exec ensure_table
migrate-broken = refl

pending_first : pending (second ∷ first ∷ []) [] ≡ first ∷ second ∷ []
unfolding pending
pending_first = refl

migrate-failed_example : ensure_table new_database ≡ ensure_table new_database
migrate-failed_example =
    migrate-failed engine (broken ∷ first ∷ []) new_database (ensure_table new_database)
      (statement_failed (codes "3") (codes "x")) (λ before now. refl) migrate-broken

migrate-done_example :
    (exec_all exec (statements (pending (second ∷ first ∷ []) [])) 0 ≡ some 2)
    × (both_rows ≡ [] ++ map (row_of (max_batch [] + 1)) (pending (second ∷ first ∷ []) []))
migrate-done_example = migrate-done engine (second ∷ first ∷ []) new_database migrated migrate-both

pending_lem_example :
    IsAscending (λ nm. nm.name) (pending (second ∷ first ∷ []) both_rows)
    × ((nm : Migration)
        → Memᴰ nm (pending (second ∷ first ∷ []) both_rows)
          ↔ (Memᴰ nm (second ∷ first ∷ []) × (has_ran nm.name both_rows ≡ false)))
pending_lem_example = pending_lem (second ∷ first ∷ []) both_rows

-- A "-" takes back one "+".
up_down : (s s' : ℕ) → some (suc s) ≡ some s' → exec_all exec (codes "-" ∷ []) s' ≡ some s
unfolding exec exec_all
up_down s s' h =
    let same : suc s ≡ s' = cc in
    subst (λ (n : ℕ). exec_all exec (codes "-" ∷ []) n ≡ some s) same refl

-- Its Down takes back its Up.
abbrev IsUndone : Migration → Type 0
IsUndone nm =
    (s s' : ℕ)
    → exec_all exec (filled nm.up) s ≡ some s'
    → exec_all exec (filled nm.down) s' ≡ some s

first-IsUndone : IsUndone first
unfolding exec exec_all filled
first-IsUndone s s' h = up_down s s' h

second-IsUndone : IsUndone second
unfolding exec exec_all filled
second-IsUndone s s' h = up_down s s' h

IsReversible-both : IsReversible engine (second ∷ first ∷ [])
IsReversible-both nm s s' (Memᴰ.head e) = subst IsUndone (sym e) second-IsUndone s s'
IsReversible-both nm s s' (Memᴰ.tail (Memᴰ.head e)) = subst IsUndone (sym e) first-IsUndone s s'
IsReversible-both nm s s' (Memᴰ.tail (Memᴰ.tail m)) = elim m [ ]

both-IsUnique : IsUnique (λ (nm : Migration). nm.name) (second ∷ first ∷ [])
both-IsUnique = (
  λ y m e. elim m [
    | Memᴰ.head p ↦ no_such (sym (ap (λ (nm : Migration). nm.name) p) ∙ e)
    | Memᴰ.tail t ↦ elim t [ ]
  ],
  (λ y m e. elim m [ ], tt),
)
  where
    no_such : codes "1" ≢ codes "2"
    no_such e = ground arith

some_pending : pending (second ∷ first ∷ []) [] ≢ []
some_pending e = let never : first ∷ second ∷ [] ≡ [] = sym pending_first ∙ e in cc

rollback-migrate_example :
    rollback engine (second ∷ first ∷ []) migrated ≡ done (ensure_table new_database)
rollback-migrate_example =
    rollback-migrate engine (second ∷ first ∷ []) new_database migrated IsReversible-both
      both-IsUnique (λ name. refl) some_pending migrate-both

abbrev half : Database ℕ
half = record { schema = 1; rows = some (row_of 1 second ∷ []) }

rollback_without : rollback engine (first ∷ []) migrated ≡ done half
unfolding rollback exec
rollback_without = refl

last_one : 1 ≡ last_batch migrated
unfolding last_batch
last_one = refl

not_found : find_by_name (codes "2") (first ∷ []) ≡ none
unfolding find_by_name
not_found = refl

rollback_stuck_example :
    Memᴰ (row_of 1 second) (row_of 1 second ∷ []) × (last_batch half ≡ last_batch migrated)
rollback_stuck_example =
    rollback_stuck engine (first ∷ []) (row_of 1 second) migrated half (Memᴰ.tail (Memᴰ.head refl))
      last_one not_found rollback_without

abbrev users : Table
users = add_index (codes "email" ∷ []) true (
    add_col (string_column (codes "email") none)
      (add_col id_column (new_table (codes "users") postgres)))

abbrev name_column : Column
name_column = string_column (codes "name") (some 80)

ddl_lem_example :
    (schema_create users
      ≡ create_table_sql users.dialect users.name (map to_def users.cols)
        ∷ map
            (λ (idx : TableIndex). add_index_sql users.dialect users.name idx.cols idx.unique)
            users.indexes)
    × (add_col_sql users.dialect users.name name_column
        ≡ add_column_sql users.dialect users.name (to_def name_column))
    × (drop_col_sql users.dialect users.name (codes "age")
        ≡ drop_column_sql users.dialect users.name (codes "age"))
    × (modifier_index_sql users.dialect users.name (codes "a" ∷ codes "b" ∷ []) false
        ≡ add_index_sql users.dialect users.name (codes "a" ∷ codes "b" ∷ []) false)
    × (drop_sql users.dialect users.name true ≡ drop_table_sql users.dialect users.name)
ddl_lem_example = ddl_lem users name_column (codes "age") (codes "a" ∷ codes "b" ∷ []) false

create_users :
    schema_create (new_table (codes "t") postgres)
    ≡ codes "CREATE TABLE IF NOT EXISTS \"t\" (\n\n)" ∷ []
unfolding schema_create create_sql col_lines pks pk_line options_of new_table
create_users = refl
