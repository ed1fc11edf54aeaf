-- ===== src/Migrations/Batch.antt =====
-- framework/migrations/migrator.go: batches. Rollback after Migrate, and a batch that cannot go.
use oniworks.Prelude.{
  ℕ, ◌+◌, ◌≤◌, ◌<◌, ◌≡◌, ◌≢◌, refl, sym, ap, ◌∙◌, true, false, not, Option, List, [], ◌∷◌, ◌++◌,
  map, arith, if◌then◌else◌, ltb, ◌==◌, nat_eq, select,
}
use oniworks.Prelude.Text.{Text, text_eq}
use oniworks.Prelude.Sort.{
  IsLeast, IsAscending, IsUnique, sort_by-ascending, sort_by-IsUnique, select-IsUnique,
}
use oniworks.Migrations.{
  Migration, Row, Database, done, Engine, sort_migrations, or_nil, has_ran, pending, ensure_table,
  max_batch, last_batch, next_batch, run_pending, run_batch, migrate, in_batch, get_batch, reverse,
  roll_back_names, rollback,
}
use oniworks.Migrations.Pending.{row_of, pending_lem}
use oniworks.Migrations.Run.{
  run_batch-done, in_transaction-done, IsMade, run_pending-IsMade, migrate-done,
}
use oniworks.Migrations.Rollback.{IsReversible, roll_back-run_pending, select-append}

max_batch-append :
    (xs ys : List Row)
    → max_batch (xs ++ ys)
      ≡ (if ltb (max_batch ys) (max_batch xs) then max_batch xs else max_batch ys)
unfolding max_batch
max_batch-append [] ys = ground arith
max_batch-append (r ∷ xs) ys = ground (arith, max_batch-append xs ys)

max_batch-map : (b : ℕ) (nms : List Migration) → max_batch (map (row_of b) nms) ≤ b
unfolding max_batch
max_batch-map b [] = omega arith
max_batch-map b (nm ∷ nms) = ground (arith, max_batch-map b nms)

max_batch-cons :
    (b : ℕ) (nm : Migration) (nms : List Migration) → max_batch (map (row_of b) (nm ∷ nms)) ≡ b
unfolding max_batch
max_batch-cons b nm nms = ground (arith, max_batch-map b nms)

-- The batch of what has just run is the last one.
max_batch-new :
    (rows : List Row) (nm : Migration) (nms : List Migration)
    → max_batch (rows ++ map (row_of (max_batch rows + 1)) (nm ∷ nms)) ≡ max_batch rows + 1
max_batch-new rows nm nms =
    let b = max_batch rows + 1 in
    let full : max_batch (map (row_of b) (nm ∷ nms)) ≡ b = max_batch-cons b nm nms in
    ground (arith, max_batch-append rows (map (row_of b) (nm ∷ nms)))

max_batch-nonempty :
    (rows : List Row) (nms : List Migration)
    → nms ≢ []
    → max_batch (rows ++ map (row_of (max_batch rows + 1)) nms) ≡ max_batch rows + 1
max_batch-nonempty rows [] h = absurd (h refl)
max_batch-nonempty rows (nm ∷ nms) h = max_batch-new rows nm nms

select-in_batch_old : (b : ℕ) (rows : List Row) → max_batch rows < b → select (in_batch b) rows ≡ []
unfolding max_batch in_batch
select-in_batch_old b [] h = refl
select-in_batch_old b (r ∷ rows) h = ground (arith, select-in_batch_old b rows)

select-in_batch_new :
    (b : ℕ) (nms : List Migration) → select (in_batch b) (map (row_of b) nms) ≡ map (row_of b) nms
unfolding in_batch
select-in_batch_new b [] = refl
select-in_batch_new b (nm ∷ nms) = ground (arith, select-in_batch_new b nms)

names-row_of :
    (b : ℕ) (nms : List Migration)
    → map (λ (r : Row). r.migration) (map (row_of b) nms) ≡ map (λ (nm : Migration). nm.name) nms
names-row_of b [] = refl
names-row_of b (nm ∷ nms) = ap (λ (l : List Text). nm.name ∷ l) (names-row_of b nms)

map-IsLeast :
    (k : Text) (nms : List Migration)
    → IsLeast (λ (nm : Migration). nm.name) k nms
    → IsLeast (λ (n : Text). n) k (map (λ (nm : Migration). nm.name) nms)
map-IsLeast k [] h = tt
map-IsLeast k (nm ∷ nms) h = (h.0, map-IsLeast k nms h.1)

map-IsAscending :
    (nms : List Migration)
    → IsAscending (λ (nm : Migration). nm.name) nms
    → IsAscending (λ (n : Text). n) (map (λ (nm : Migration). nm.name) nms)
map-IsAscending [] h = tt
map-IsAscending (nm ∷ nms) h = (map-IsLeast nm.name nms h.0, map-IsAscending nms h.1)

-- The names of the batch that has just run.
get_batch-new :
    (rows : List Row) (nms : List Migration)
    → IsAscending (λ (nm : Migration). nm.name) nms
    → let b = max_batch rows + 1 in
      get_batch b (rows ++ map (row_of b) nms) ≡ map (λ (nm : Migration). nm.name) nms
unfolding get_batch
get_batch-new rows nms h =
    let b = max_batch rows + 1 in
    rw
      (
        select-append (in_batch b) rows (map (row_of b) nms),
        select-in_batch_old b rows (omega arith),
        select-in_batch_new b nms,
        names-row_of b nms,
      )
      (sort_by-ascending (λ (n : Text). n) (map (λ (nm : Migration). nm.name) nms)
        (map-IsAscending nms h))

module _ {S : Type 0} (engine : Engine S) where
  run_batch-commits :
      (nms : List Migration) (db db' : Database S)
      → nms ≢ []
      → run_batch engine nms db ≡ done db'
      → engine.commits ≡ true
  unfolding run_batch
  run_batch-commits [] db db' some_left h = absurd (some_left refl)
  run_batch-commits (nm ∷ nms) db db' some_left h =
      (in_transaction-done engine db db' (run_pending engine (next_batch db) (nm ∷ nms) db) h).1

  -- A Rollback takes a Migrate back that has succeeded and had something to do: the schema and the
  -- rows are those from before, and the table of migrations is there. The names of the migrations
  -- are unique, each Down takes back its Up, and rows can be deleted.
  pub rollback-migrate :
      (migrations : List Migration) (db db' : Database S)
      → IsReversible engine migrations
      → IsUnique (λ nm. nm.name) migrations
      → ((name : Text) → engine.deletes name ≡ true)
      → pending migrations (or_nil db.rows) ≢ []
      → migrate engine migrations db ≡ done db'
      → rollback engine migrations db' ≡ done (ensure_table db)
  unfolding migrate rollback ensure_table last_batch next_batch pending sort_migrations
  rollback-migrate migrations db db' back unique deletes some_left h =
      let rows = or_nil db.rows in
      let nms = pending migrations rows in
      let b = max_batch rows + 1 in
      let run = run_batch-done engine nms (ensure_table db) db' h in
      let made : IsMade engine db' =
        run_pending-IsMade engine b nms (ensure_table db) db' refl run in
      let held : or_nil db'.rows ≡ rows ++ map (row_of b) nms =
        (migrate-done engine migrations db db' h).1 in
      let sorted = pending_lem migrations rows in
      let last : max_batch (or_nil db'.rows) ≡ b =
        ap max_batch held ∙ max_batch-nonempty rows nms some_left in
      let names : get_batch (max_batch (or_nil db'.rows)) (or_nil db'.rows)
          ≡ map (λ (nm : Migration). nm.name) nms =
        ap (λ (i : ℕ). get_batch i (or_nil db'.rows)) last
        ∙ ap (get_batch b) held
        ∙ get_batch-new rows nms sorted.0 in
      let positive : (max_batch (or_nil db'.rows) == 0) ≡ false = ground arith in
      let distinct : IsUnique (λ nm. nm.name) nms =
        select-IsUnique (λ (nm : Migration). nm.name)
          (λ (nm : Migration). not (has_ran nm.name rows)) (sort_migrations migrations)
          (sort_by-IsUnique (λ (nm : Migration). nm.name) migrations unique) in
      rw positive (
        ap (λ (l : List Text). roll_back_names engine migrations (reverse l) (ensure_table db'))
          names
        ∙ ap
            (λ (o : Option (List Row)).
              roll_back_names engine migrations (reverse (map (λ (nm : Migration). nm.name) nms))
                (record db' { rows = o }))
            (sym made)
        ∙ roll_back-run_pending engine migrations nms b (ensure_table db) db'
            (run_batch-commits nms (ensure_table db) db' some_left h) deletes back unique
            (λ nm m. (sorted.1 nm).0 m) distinct refl run)
