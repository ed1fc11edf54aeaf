-- ===== src/Migrations/Stuck.antt =====
-- framework/migrations/migrator.go: a batch with a name that is no longer registered.
use oniworks.Prelude.{
  ◌≤◌, ◌≡◌, ◌≢◌, refl, sym, ap, ◌∙◌, subst, inl, inr, Bool, true, Option, none, some, List, [], ◌∷◌,
  arith, ◌==◌, ==_iff, nat_eq, select, Bool-cases, mem-select,
}
use oniworks.Prelude.Text.{Text, text_eq}
use oniworks.Migrations.{
  Migration, Row, Database, failed, done, delete_failed, Engine, or_nil, ensure_table, find_by_name,
  max_batch, last_batch, run_statements, other_than, get_batch, reverse, execute, delete_ran,
  roll_back_one, roll_back_names, rollback,
}
use oniworks.Migrations.Run.{
  and_then-done, run_statements-done, in_transaction-done, done-injective,
}
use mathlib.Core.List.{Memᴰ}

max_batch-mem : (r : Row) (rows : List Row) → Memᴰ r rows → r.batch ≤ max_batch rows
unfolding max_batch
max_batch-mem r [] m = elim m [ ]
max_batch-mem r (x ∷ rows) (Memᴰ.head e) = ground (arith, ap (λ (q : Row). q.batch) e)
max_batch-mem r (x ∷ rows) (Memᴰ.tail m) = ground (arith, max_batch-mem r rows m)

max_batch-select : (p : Row → Bool) (rows : List Row) → max_batch (select p rows) ≤ max_batch rows
unfolding max_batch
max_batch-select p [] = omega arith
max_batch-select p (r ∷ rows) = ground (arith, max_batch-select p rows)

-- The row stays, and no row is new.
record IsLeft (r : Row) (rows rows' : List Row) : Type 0 where
  there : Memᴰ r rows'
  fewer : max_batch rows' ≤ max_batch rows

other_than-different : (name : Text) (r : Row) → r.migration ≢ name → other_than name r ≡ true
unfolding other_than
other_than-different name r h = ground (arith, ==_iff r.migration name)

module _ {S : Type 0} (engine : Engine S) where
  execute-rows :
      (name : Text) (stmts : List Text) (db db' : Database S)
      → execute engine name stmts db ≡ done db'
      → db'.rows ≡ db.rows
  unfolding execute
  execute-rows name stmts db db' h =
      (run_statements-done engine name stmts db db'
        (in_transaction-done engine db db' (run_statements engine name stmts db) h).0).1

  delete_ran-done :
      (name : Text) (db db' : Database S)
      → delete_ran engine name db ≡ done db'
      → or_nil db'.rows ≡ select (other_than name) (or_nil db.rows)
  unfolding delete_ran
  delete_ran-done name db db' h = elim (Bool-cases (engine.deletes name)) [
    | inl yes_it_does ↦
        let same : done (record db { rows = some (select (other_than name) (or_nil db.rows)) })
            ≡ done db' =
          rw yes_it_does at h in
        ap (λ (d : Database S). or_nil d.rows)
          (sym (
            done-injective engine
              (record db { rows = some (select (other_than name) (or_nil db.rows)) }) db' same))
    | inr no_it_fails ↦
        let never : failed (delete_failed name) db ≡ done db' = rw no_it_fails at h in cc
  ]

  roll_back_one-IsLeft :
      (r : Row) (o : Option Migration) (name : Text) (db db' : Database S)
      → Memᴰ r (or_nil db.rows)
      → ((nm : Migration) → o ≡ some nm → r.migration ≢ name)
      → roll_back_one engine o name db ≡ done db'
      → IsLeft r (or_nil db.rows) (or_nil db'.rows)
  unfolding roll_back_one delete_ran
  roll_back_one-IsLeft r none name db db' m other h =
      let same = ap (λ (d : Database S). or_nil d.rows) (done-injective engine db db' h) in
      record { there = subst (Memᴰ r) same m; fewer = ground arith }
  roll_back_one-IsLeft r (some nm) name db db' m other h =
      let (d, ran, deleted) =
        and_then-done engine (execute engine name nm.down db) (delete_ran engine name) db' h in
      let kept : or_nil d.rows ≡ or_nil db.rows = ap or_nil (execute-rows name nm.down db d ran) in
      let left : or_nil db'.rows ≡ select (other_than name) (or_nil db.rows) =
        delete_ran-done name d db' deleted ∙ ap (select (other_than name)) kept in
      record {
        there = subst (Memᴰ r) (sym left) (
            (mem-select (other_than name) r (or_nil db.rows)).1
              (m, other_than-different name r (other nm refl)));
        fewer =
            ground (arith, max_batch-select (other_than name) (or_nil db.rows), ap max_batch left);
      }

  roll_back_names-IsLeft :
      (migrations : List Migration) (r : Row) (names : List Text) (db db' : Database S)
      → find_by_name r.migration migrations ≡ none
      → Memᴰ r (or_nil db.rows)
      → roll_back_names engine migrations names db ≡ done db'
      → IsLeft r (or_nil db.rows) (or_nil db'.rows)
  unfolding roll_back_names
  roll_back_names-IsLeft migrations r [] db db' gone m h =
      let same = ap (λ (d : Database S). or_nil d.rows) (done-injective engine db db' h) in
      record { there = subst (Memᴰ r) same m; fewer = ground arith }
  roll_back_names-IsLeft migrations r (name ∷ names) db db' gone m h =
      let (d, one, others) =
        and_then-done engine (roll_back_one engine (find_by_name name migrations) name db)
          (roll_back_names engine migrations names) db' h in
      let first : IsLeft r (or_nil db.rows) (or_nil d.rows) =
        roll_back_one-IsLeft r (find_by_name name migrations) name db d m
          (λ nm found same.
            (let never : none ≡ some nm =
                sym gone ∙ ap (λ (n : Text). find_by_name n migrations) same ∙ found in
              cc))
          one in
      let rest : IsLeft r (or_nil d.rows) (or_nil db'.rows) =
        roll_back_names-IsLeft migrations r names d db' gone first.there others in
      record { there = rest.there; fewer = ground (arith, first.fewer, rest.fewer) }

  -- A row of the last batch whose migration is not registered stays there: after a Rollback that
  -- succeeds the row is still there, and the last batch is the same, so that no Rollback reaches the
  -- batches before it.
  pub rollback_stuck :
      (migrations : List Migration) (r : Row) (db db' : Database S)
      → Memᴰ r (or_nil db.rows)
      → r.batch ≡ last_batch db
      → find_by_name r.migration migrations ≡ none
      → rollback engine migrations db ≡ done db'
      → Memᴰ r (or_nil db'.rows) × (last_batch db' ≡ last_batch db)
  unfolding rollback ensure_table last_batch
  rollback_stuck migrations r db db' m top gone h =
      elim (Bool-cases (max_batch (or_nil db.rows) == 0)) [
        | inl zero_batch ↦
            let same : done (ensure_table db) ≡ done db' = rw zero_batch at h in
            let kept : or_nil db.rows ≡ or_nil db'.rows =
              ap (λ (d : Database S). or_nil d.rows)
                (done-injective engine (ensure_table db) db' same) in
            (subst (Memᴰ r) kept m, ap max_batch (sym kept))
        | inr some_batch ↦
            let names = reverse (get_batch (max_batch (or_nil db.rows)) (or_nil db.rows)) in
            let run : roll_back_names engine migrations names (ensure_table db) ≡ done db' =
              rw some_batch at h in
            let left : IsLeft r (or_nil db.rows) (or_nil db'.rows) =
              roll_back_names-IsLeft migrations r names (ensure_table db) db' gone m run in
            (left.there, ground (arith, left.fewer, max_batch-mem r (or_nil db'.rows) left.there))
      ]
