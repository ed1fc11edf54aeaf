-- ===== src/Migrations/Run.antt =====
-- framework/migrations/migrator.go: what Migrate does, and what it leaves where it fails.
use oniworks.Prelude.{
  ℕ, ◌+◌, ◌≡◌, refl, sym, ap, ◌∙◌, subst, inl, inr, true, not, Option, none, some, List, [], ◌∷◌,
  ◌++◌, map, arith, ◌==◌, nat_eq, select, Option-cases,
}
use oniworks.Prelude.Text.{Text, text_eq}
use oniworks.Migrations.{
  Migration, Row, Database, Error, Outcome, failed, done, Engine, or_nil, pending, ensure_table,
  max_batch, last_batch, next_batch, and_then, executed, run_statements, record_ran, in_transaction,
  run_pending, run_batch, migrate,
}
use oniworks.Migrations.Pending.{row_of, pending-map}
use mathlib.Core.List.{append-nil, append_assoc}

-- A rollback leaves what the transaction found.
abbrev pub IsTransactional : {S : Type 0} → Engine S → Type 0
IsTransactional {S} engine = (before now : Database S) → engine.undo before now ≡ before

-- What statements do to a schema, one after the other, where none of them fails.
unfoldable pub exec_all : {S : Type 0} → (Text → S → Option S) → List Text → S → Option S
exec_all exec [] schema = some schema
exec_all exec (stmt ∷ stmts) schema = elim (exec stmt schema) [
  | none ↦ none
  | some schema' ↦ exec_all exec stmts schema'
]

exec_all-append :
    {S : Type 0} (exec : Text → S → Option S) (first others : List Text) (s s' : S)
    → exec_all exec first s ≡ some s'
    → exec_all exec (first ++ others) s ≡ exec_all exec others s'
unfolding exec_all
exec_all-append {S} exec [] others s s' h =
    ap (λ (o : Option S). elim o [ none ↦ none | some t ↦ exec_all exec others t ]) h
exec_all-append exec (stmt ∷ first) others s s' h = elim (Option-cases (exec stmt s)) [
  | inl n ↦ (let never : none ≡ some s' = rw (n, exec_all) at h in cc)
  | inr (s₁, e) ↦
      let more : exec_all exec first s₁ ≡ some s' = rw (e, exec_all) at h in
      rw (e, exec_all) (exec_all-append exec first others s₁ s' more)
]

-- The statements that are not empty.
unfoldable pub filled : List Text → List Text
filled = select (λ stmt. not (stmt == []))

abbrev pub statements : List Migration → List Text
statements [] = []
statements (nm ∷ nms) = filled nm.up ++ statements nms

module _ {S : Type 0} (engine : Engine S) where
  in_transaction-failed :
      (before db : Database S) (r : Outcome S) (e : Error)
      → IsTransactional engine
      → in_transaction engine before r ≡ failed e db
      → db ≡ before
  unfolding in_transaction
  in_transaction-failed before db (failed e' now) e h same = ground (arith, h before now)
  in_transaction-failed before db (done now) e h same = ground (arith, h before now)

  pub in_transaction-done :
      (before db : Database S) (r : Outcome S)
      → in_transaction engine before r ≡ done db
      → (r ≡ done db) × (engine.commits ≡ true)
  unfolding in_transaction
  in_transaction-done before db (failed e now) same = cc
  in_transaction-done before db (done now) same = ground arith

  run_batch-failed :
      (nms : List Migration) (before now : Database S) (e : Error)
      → IsTransactional engine
      → run_batch engine nms before ≡ failed e now
      → now ≡ before
  unfolding run_batch
  run_batch-failed [] before now e h same = cc
  run_batch-failed (nm ∷ nms) before now e h same =
      in_transaction-failed before now (run_pending engine (next_batch before) (nm ∷ nms) before) e
        h same

  -- On a database whose transactions can be rolled back, a Migrate that fails leaves everything as
  -- it was, except that the table of migrations is there.
  pub migrate-failed :
      (migrations : List Migration) (db db' : Database S) (e : Error)
      → IsTransactional engine
      → migrate engine migrations db ≡ failed e db'
      → db' ≡ ensure_table db
  unfolding migrate
  migrate-failed migrations db db' e h same =
      run_batch-failed (pending migrations (or_nil db.rows)) (ensure_table db) db' e h same

  pub and_then-done :
      (r : Outcome S) (k : Database S → Outcome S) (db' : Database S)
      → and_then r k ≡ done db'
      → (db : Database S) × (r ≡ done db) × (k db ≡ done db')
  and_then-done (failed e db) k db' h = absurd (cc)
  and_then-done (done db) k db' h = (db, refl, h)

  pub done-injective : (db db' : Database S) → done db ≡ done db' → db ≡ db'
  done-injective db db' h = cc

  executed-done :
      (name stmt : Text) (db db' : Database S) (o : Option S)
      → executed engine name stmt db o ≡ done db'
      → (o ≡ some db'.schema) × (db'.rows ≡ db.rows)
  unfolding executed
  executed-done name stmt db db' none h = absurd (cc)
  executed-done name stmt db db' (some schema) h =
      let e = done-injective (record db { schema = schema }) db' h in
      (ap (λ (d : Database S). some d.schema) e, sym (ap (λ (d : Database S). d.rows) e))

  pub run_statements-done :
      (name : Text) (stmts : List Text) (db db' : Database S)
      → run_statements engine name stmts db ≡ done db'
      → (exec_all engine.exec (filled stmts) db.schema ≡ some db'.schema) × (db'.rows ≡ db.rows)
  unfolding run_statements exec_all filled
  run_statements-done name [] db db' h =
      let e = done-injective db db' h in
      (ap (λ (d : Database S). some d.schema) e, sym (ap (λ (d : Database S). d.rows) e))
  run_statements-done name ([] ∷ stmts) db db' h = run_statements-done name stmts db db' h
  run_statements-done name ((c ∷ s) ∷ stmts) db db' h =
      let (d, first, rest) =
        and_then-done (executed engine name (c ∷ s) db (engine.exec (c ∷ s) db.schema))
          (run_statements engine name stmts) db' h in
      let (ran, kept) = executed-done name (c ∷ s) db d (engine.exec (c ∷ s) db.schema) first in
      let (others, same) = run_statements-done name stmts d db' rest in
      (rw (ran, exec_all) others, same ∙ kept)

  pub run_statements-exec_all :
      (name : Text) (stmts : List Text) (db : Database S) (s : S)
      → exec_all engine.exec (filled stmts) db.schema ≡ some s
      → run_statements engine name stmts db ≡ done (record db { schema = s })
  unfolding run_statements exec_all filled executed
  run_statements-exec_all name [] db s h = ground arith
  run_statements-exec_all name ([] ∷ stmts) db s h = run_statements-exec_all name stmts db s h
  run_statements-exec_all name ((c ∷ t) ∷ stmts) db s h =
      elim (Option-cases (engine.exec (c ∷ t) db.schema)) [
        | inl n ↦ absurd (let never : none ≡ some s = rw (n, exec_all) at h in cc)
        | inr (s₁, e) ↦
            let more : exec_all engine.exec (filled stmts) s₁ ≡ some s = rw (e, exec_all) at h in
            rw (e, executed) (run_statements-exec_all name stmts (record db { schema = s₁ }) s more)
      ]

  pub record_ran-done :
      (name : Text) (batch : ℕ) (db db' : Database S)
      → record_ran engine name batch db ≡ done db'
      → db' ≡ record db {
        rows = some (or_nil db.rows ++ record { migration = name; batch = batch } ∷ []);
      }
  unfolding record_ran
  record_ran-done name batch db db' h = ground arith

  -- What a run of pending migrations does to the schema and to the rows.
  pub run_pending-done :
      (batch : ℕ) (nms : List Migration) (db db' : Database S)
      → run_pending engine batch nms db ≡ done db'
      → (exec_all engine.exec (statements nms) db.schema ≡ some db'.schema)
        × (or_nil db'.rows ≡ or_nil db.rows ++ map (row_of batch) nms)
  unfolding run_pending exec_all
  run_pending-done batch [] db db' h =
      let e = done-injective db db' h in
      (
        ap (λ (d : Database S). some d.schema) e,
        ap (λ (d : Database S). or_nil d.rows) (sym e) ∙ sym (append-nil (or_nil db.rows)),
      )
  run_pending-done batch (nm ∷ nms) db db' h =
      let (d₁, ups, more) =
        and_then-done (run_statements engine nm.name nm.up db)
          (λ d. and_then (record_ran engine nm.name batch d) (run_pending engine batch nms)) db'
          h in
      let (d₂, recorded, rest) =
        and_then-done (record_ran engine nm.name batch d₁) (run_pending engine batch nms) db'
          more in
      let (ran, kept) = run_statements-done nm.name nm.up db d₁ ups in
      let new = record_ran-done nm.name batch d₁ d₂ recorded in
      let (others, rows) = run_pending-done batch nms d₂ db' rest in
      let held : or_nil d₂.rows ≡ or_nil db.rows ++ row_of batch nm ∷ [] =
        ap (λ (d : Database S). or_nil d.rows) new
        ∙ ap (λ (o : Option (List Row)). or_nil o ++ row_of batch nm ∷ []) kept in
      (
        exec_all-append engine.exec (filled nm.up) (statements nms) db.schema d₁.schema ran
            ∙ ap (λ (d : Database S). exec_all engine.exec (statements nms) d.schema) (sym new)
            ∙ others,
        rows
            ∙ ap (λ (l : List Row). l ++ map (row_of batch) nms) held
            ∙ append_assoc (or_nil db.rows) (row_of batch nm ∷ []) (map (row_of batch) nms),
      )

  pub run_batch-done :
      (nms : List Migration) (db db' : Database S)
      → run_batch engine nms db ≡ done db'
      → run_pending engine (next_batch db) nms db ≡ done db'
  unfolding run_batch run_pending
  run_batch-done [] db db' h = h
  run_batch-done (nm ∷ nms) db db' h =
      (in_transaction-done db db' (run_pending engine (next_batch db) (nm ∷ nms) db) h).0

  -- A Migrate that succeeds has run the statements of the pending migrations on the schema, in the
  -- order of their names, and has added a row for each, in the batch after the last one.
  pub migrate-done :
      (migrations : List Migration) (db db' : Database S)
      → migrate engine migrations db ≡ done db'
      → let rows = or_nil db.rows in
        let nms = pending migrations rows in
        (exec_all engine.exec (statements nms) db.schema ≡ some db'.schema)
        × (or_nil db'.rows ≡ rows ++ map (row_of (max_batch rows + 1)) nms)
  unfolding migrate ensure_table next_batch last_batch
  migrate-done migrations db db' h =
      let db₁ : Database S = ensure_table db in
      let nms = pending migrations (or_nil db.rows) in
      run_pending-done (max_batch (or_nil db.rows) + 1) nms db₁ db' (run_batch-done nms db₁ db' h)

  -- The table is there.
  abbrev pub IsMade : Database S → Type 0
  IsMade db = db.rows ≡ some (or_nil db.rows)

  pub run_pending-IsMade :
      (batch : ℕ) (nms : List Migration) (db db' : Database S)
      → IsMade db
      → run_pending engine batch nms db ≡ done db'
      → IsMade db'
  unfolding run_pending
  run_pending-IsMade batch [] db db' made h = subst IsMade (done-injective db db' h) made
  run_pending-IsMade batch (nm ∷ nms) db db' made h =
      let (d₁, ups, more) =
        and_then-done (run_statements engine nm.name nm.up db)
          (λ d. and_then (record_ran engine nm.name batch d) (run_pending engine batch nms)) db'
          h in
      let (d₂, recorded, rest) =
        and_then-done (record_ran engine nm.name batch d₁) (run_pending engine batch nms) db'
          more in
      run_pending-IsMade batch nms d₂ db'
        (subst IsMade (sym (record_ran-done nm.name batch d₁ d₂ recorded)) refl) rest

  -- After a Migrate that succeeds, another one finds nothing to do.
  pub migrate-twice :
      (migrations : List Migration) (db db' : Database S)
      → migrate engine migrations db ≡ done db'
      → migrate engine migrations db' ≡ done db'
  unfolding migrate ensure_table run_batch
  migrate-twice migrations db db' h =
      let rows = or_nil db.rows in
      let nms = pending migrations rows in
      let held = (migrate-done migrations db db' h).1 in
      let none_left : pending migrations (or_nil db'.rows) ≡ [] =
        ap (pending migrations) held ∙ pending-map (max_batch rows + 1) migrations rows in
      let made : IsMade db' =
        run_pending-IsMade (next_batch (ensure_table db)) nms (ensure_table db) db' refl
          (run_batch-done nms (ensure_table db) db' h) in
      rw (none_left, run_batch)
        (ap (λ (o : Option (List Row)). done (record db' { rows = o })) (sym made))
