-- ===== src/Migrations.antt =====
-- framework/migrations/migrator.go, with Schema.execute of framework/migrations/schema.go.
-- A migration is the statements that its Up and its Down queue. The database is a parameter: what a
-- statement does to the schema, whether the rows of the table of migrations can be written, and what
-- a transaction leaves that is rolled back. The queries on that table succeed. The table is `none`
-- before it is made; of its columns, the id and the time are left out. Names are unique in practice,
-- so that sort.Slice has one result; where they are not, the model keeps their order.
pub mod Schema
pub mod Table
pub mod Pending
pub mod Run
pub mod Rollback
pub mod Batch
pub mod Stuck
mod Examples
use oniworks.Prelude.{
  ℕ, zero, suc, ◌+◌, ◌≡◌, Bool, true, false, not, Option, none, some, List, [], ◌∷◌, ◌++◌, map,
  if◌then◌else◌, ltb, ◌==◌, nat_eq, select,
}
use oniworks.Prelude.Text.{Text, text_eq}
use oniworks.Prelude.Sort.{sort_by}

pub record Migration : Type 0 where
  pub name : Text
  pub up : List Text
  pub down : List Text

pub record Row : Type 0 where
  pub migration : Text
  pub batch : ℕ

pub record Database (S : Type 0) : Type 0 where
  pub schema : S
  pub rows : Option (List Row)

pub data Error : Type 0 where
  statement_failed : Text → Text → Error
  record_failed : Text → Error
  delete_failed : Text → Error
  commit_failed : Error
  drop_failed : Error

-- What a method returns, an error or nil, and the database that it leaves.
pub data Outcome (S : Type 0) : Type 0 where
  failed : Error → Database S → Outcome S
  done : Database S → Outcome S

pub record Engine (S : Type 0) : Type 0 where
  pub exec : Text → S → Option S
  -- Whether the row of a migration can be inserted, and deleted.
  pub inserts : Text → Bool
  pub deletes : Text → Bool
  pub commits : Bool
  -- What is left of a transaction that began at the first and is rolled back at the second.
  pub undo : Database S → Database S → Database S
  -- dropAll
  pub drop_all : Database S → Outcome S

-- Register and LoadRegistry
pub register : Migration → List Migration → List Migration
register nm migrations = migrations ++ nm ∷ []

load_registry : List Migration → List Migration → List Migration
load_registry registry migrations = migrations ++ registry

pub sort_migrations : List Migration → List Migration
unfolding sort_by
sort_migrations = sort_by (λ nm. nm.name)

pub find_by_name : Text → List Migration → Option Migration
find_by_name name [] = none
find_by_name name (nm ∷ nms) =
    let rest = find_by_name name nms in if nm.name == name then some nm else rest

abbrev pub or_nil : Option (List Row) → List Row
or_nil none = []
or_nil (some rows) = rows

-- COALESCE(MAX(batch),0)
pub max_batch : List Row → ℕ
max_batch [] = 0
max_batch (r ∷ rows) = let rest = max_batch rows in if ltb rest r.batch then r.batch else rest

pub has_ran : Text → List Row → Bool
has_ran name [] = false
has_ran name (r ∷ rows) = let rest = has_ran name rows in if r.migration == name then true else rest

-- WHERE batch = ?, and what a DELETE of a name keeps
pub in_batch : ℕ → Row → Bool
in_batch batch r = r.batch == batch

pub other_than : Text → Row → Bool
other_than name r = not (r.migration == name)

-- The names of a batch, in ascending order.
pub get_batch : ℕ → List Row → List Text
unfolding in_batch sort_by
get_batch batch rows =
    sort_by (λ name. name) (map (λ (r : Row). r.migration) (select (in_batch batch) rows))

pub pending : List Migration → List Row → List Migration
unfolding sort_migrations has_ran
pending migrations rows = select (λ nm. not (has_ran nm.name rows)) (sort_migrations migrations)

abbrev pub reverse {ℓ} : {A : Type ℓ} → List A → List A
reverse [] = []
reverse (x ∷ xs) = reverse xs ++ x ∷ []

module _ {S : Type 0} where
  pub ensure_table : Database S → Database S
  ensure_table db = record db { rows = some (or_nil db.rows) }

  pub last_batch : Database S → ℕ
  unfolding max_batch
  last_batch db = max_batch (or_nil db.rows)

  pub next_batch : Database S → ℕ
  unfolding last_batch
  next_batch db = last_batch db + 1

  abbrev pub and_then : Outcome S → (Database S → Outcome S) → Outcome S
  and_then (failed e db) k = failed e db
  and_then (done db) k = k db

module _ {S : Type 0} (engine : Engine S) where
  executed : Text → Text → Database S → Option S → Outcome S
  executed name stmt db none = failed (statement_failed name stmt) db
  executed name stmt db (some schema) = done (record db { schema = schema })

  -- The loop over the statements, where the empty ones are left out.
  pub run_statements : Text → List Text → Database S → Outcome S
  unfolding executed
  run_statements name [] db = done db
  run_statements name (stmt ∷ stmts) db =
      if stmt == []
      then run_statements name stmts db
      else and_then (executed name stmt db (engine.exec stmt db.schema)) (run_statements name stmts)

  pub record_ran : Text → ℕ → Database S → Outcome S
  record_ran name batch db =
      if engine.inserts name
      then done (record db {
        rows = some (or_nil db.rows ++ record { migration = name; batch = batch } ∷ []);
      })
      else failed (record_failed name) db

  pub delete_ran : Text → Database S → Outcome S
  unfolding other_than
  delete_ran name db =
      if engine.deletes name
      then done (record db { rows = some (select (other_than name) (or_nil db.rows)) })
      else failed (delete_failed name) db

  -- Begin, and Rollback or Commit, around what stands between them.
  pub in_transaction : Database S → Outcome S → Outcome S
  in_transaction before (failed e db) = failed e (engine.undo before db)
  in_transaction before (done db) =
      if engine.commits then done db else failed commit_failed (engine.undo before db)

  pub run_pending : ℕ → List Migration → Database S → Outcome S
  unfolding run_statements record_ran
  run_pending batch [] db = done db
  run_pending batch (nm ∷ nms) db =
      and_then (run_statements nm.name nm.up db)
        (λ db₁. and_then (record_ran nm.name batch db₁) (run_pending batch nms))

  pub run_batch : List Migration → Database S → Outcome S
  unfolding in_transaction run_pending next_batch
  run_batch [] db = done db
  run_batch (nm ∷ nms) db = in_transaction db (run_pending (next_batch db) (nm ∷ nms) db)

  pub migrate : List Migration → Database S → Outcome S
  unfolding run_batch ensure_table pending
  migrate migrations db = run_batch (pending migrations (or_nil db.rows)) (ensure_table db)

  -- Schema.execute
  pub execute : Text → List Text → Database S → Outcome S
  unfolding in_transaction run_statements
  execute name stmts db = in_transaction db (run_statements name stmts db)

  pub roll_back_one : Option Migration → Text → Database S → Outcome S
  unfolding execute delete_ran
  roll_back_one none name db = done db
  roll_back_one (some nm) name db = and_then (execute name nm.down db) (delete_ran name)

  pub roll_back_names : List Migration → List Text → Database S → Outcome S
  unfolding roll_back_one find_by_name
  roll_back_names migrations [] db = done db
  roll_back_names migrations (name ∷ names) db =
      and_then (roll_back_one (find_by_name name migrations) name db)
        (roll_back_names migrations names)

  pub rollback : List Migration → Database S → Outcome S
  unfolding roll_back_names ensure_table last_batch get_batch
  rollback migrations db =
      let db₁ = ensure_table db in
      let batch = last_batch db₁ in
      if batch == 0
      then done db₁
      else roll_back_names migrations (reverse (get_batch batch (or_nil db₁.rows))) db₁

  fresh : List Migration → Database S → Outcome S
  unfolding migrate
  fresh migrations db = and_then (engine.drop_all db) (migrate migrations)

pub record MigrationStatus : Type 0 where
  pub name : Text
  pub ran : Bool
  pub batch : ℕ

-- The later of two rows of a name stands in the map.
ran_batch : Text → ℕ → List Row → ℕ
ran_batch name default [] = default
ran_batch name default (r ∷ rows) =
    ran_batch name (if r.migration == name then r.batch else default) rows

pub status : List Migration → List Row → List MigrationStatus
unfolding sort_migrations has_ran ran_batch
status migrations rows =
    map
      (λ (nm : Migration). record {
        name = nm.name;
        ran = has_ran nm.name rows;
        batch = ran_batch nm.name 0 rows;
      })
      (sort_migrations migrations)
