-- ===== src/Migrations/Rollback.antt =====
-- framework/migrations/migrator.go: what Rollback takes back, and what stops it.
use oniworks.Prelude.{
  ℕ, ◌≡◌, ◌≢◌, refl, sym, ap, ◌∙◌, subst, fun_ext, Bool, true, false, ◌||◌, Option, some, List, [],
  ◌∷◌, ◌++◌, map, arith, ◌==◌, ==_iff, ==-refl, nat_eq, select,
}
use oniworks.Prelude.Text.{Text, text_eq}
use oniworks.Prelude.Sort.{IsUnique}
use oniworks.Migrations.{
  Migration, Row, Database, Outcome, failed, done, Engine, or_nil, has_ran, find_by_name, and_then,
  run_statements, record_ran, in_transaction, run_pending, other_than, reverse, execute, delete_ran,
  roll_back_one, roll_back_names,
}
use oniworks.Migrations.Pending.{row_of, has_ran-append}
use oniworks.Migrations.Run.{
  exec_all, filled, run_statements-exec_all, and_then-done, run_statements-done, record_ran-done,
  IsMade,
}
use mathlib.Core.List.{Memᴰ, append-nil}

-- The Down of each migration takes its Up back.
abbrev pub IsReversible : {S : Type 0} → Engine S → List Migration → Type 0
IsReversible {S} engine migrations =
    (nm : Migration) (s s' : S)
    → Memᴰ nm migrations
    → exec_all engine.exec (filled nm.up) s ≡ some s'
    → exec_all engine.exec (filled nm.down) s' ≡ some s

pub find_by_name-IsUnique :
    (nm : Migration) (migrations : List Migration)
    → IsUnique (λ m. m.name) migrations
    → Memᴰ nm migrations
    → find_by_name nm.name migrations ≡ some nm
unfolding find_by_name
find_by_name-IsUnique nm [] u m = elim m [ ]
find_by_name-IsUnique nm (x ∷ nms) u (Memᴰ.head e) =
    ground (arith, ap (λ (m : Migration). m.name) e, ==_iff x.name nm.name, e)
find_by_name-IsUnique nm (x ∷ nms) u (Memᴰ.tail t) =
    let other : (x.name == nm.name) ≡ false = ground (arith, u.0 nm t, ==_iff x.name nm.name) in
    rw other (find_by_name-IsUnique nm nms u.1 t)

-- Deleting a name that only the last row has takes that row away.
select-other_than :
    (name : Text) (rows : List Row)
    → has_ran name rows ≡ false
    → select (other_than name) rows ≡ rows
unfolding has_ran other_than
select-other_than name [] h = refl
select-other_than name (r ∷ rows) h = ground (arith, select-other_than name rows)

other_than_self :
    (name : Text) (batch : ℕ) → other_than name (record { migration = name; batch = batch }) ≡ false
unfolding other_than
other_than_self name batch = ground (arith, ==-refl name)

has_ran-row :
    (name : Text) (batch : ℕ) (nm : Migration) (rows : List Row)
    → has_ran name rows ≡ false
    → name ≢ nm.name
    → (has_ran name rows || has_ran name (row_of batch nm ∷ [])) ≡ false
unfolding has_ran
has_ran-row name batch nm rows h other = ground (arith, ==_iff nm.name name)

pub select-append :
    {A : Type 0} (p : A → Bool) (xs ys : List A) → select p (xs ++ ys) ≡ select p xs ++ select p ys
select-append p [] ys = refl
select-append p (x ∷ xs) ys = ground (arith, select-append p xs ys)

module _ {S : Type 0} (engine : Engine S) where
  -- One migration that is registered and reversible is rolled back to where it began.
  roll_back_one_lem :
      (nm : Migration) (rows : List Row) (db : Database S) (s : S) (batch : ℕ)
      → engine.commits ≡ true
      → engine.deletes nm.name ≡ true
      → exec_all engine.exec (filled nm.down) db.schema ≡ some s
      → db.rows ≡ some (rows ++ row_of batch nm ∷ [])
      → has_ran nm.name rows ≡ false
      → roll_back_one engine (some nm) nm.name db ≡ done (record { schema = s; rows = some rows })
  unfolding roll_back_one execute in_transaction delete_ran
  roll_back_one_lem nm rows db s batch commits deletes down held new =
      let kept : select (other_than nm.name) (rows ++ row_of batch nm ∷ []) ≡ rows =
        select-append (other_than nm.name) rows (row_of batch nm ∷ [])
        ∙ ground (
          arith,
          select-other_than nm.name rows new,
          other_than_self nm.name batch,
          append-nil rows,
        ) in
      rw (run_statements-exec_all engine nm.name nm.down db s down, commits, deletes, held)
        (ap (λ (l : List Row). done (record { schema = s; rows = some l })) kept)

  and_then_assoc :
      (r : Outcome S) (k k' : Database S → Outcome S)
      → and_then r (λ d. and_then (k d) k') ≡ and_then (and_then r k) k'
  and_then_assoc (failed e d) k k' = refl
  and_then_assoc (done d) k k' = refl

  roll_back_names-append :
      (migrations : List Migration) (names more : List Text) (db : Database S)
      → roll_back_names engine migrations (names ++ more) db
        ≡ and_then
            (roll_back_names engine migrations names db)
            (roll_back_names engine migrations more)
  unfolding roll_back_names
  roll_back_names-append migrations [] more db = refl
  roll_back_names-append migrations (name ∷ names) more db =
      let k : Database S → Outcome S = roll_back_names engine migrations names in
      let k' : Database S → Outcome S = roll_back_names engine migrations more in
      let r = roll_back_one engine (find_by_name name migrations) name db in
      ap (and_then r) (fun_ext (λ d. roll_back_names-append migrations names more d))
      ∙ and_then_assoc r k k'

  -- The names in reverse take back what the run has done.
  pub roll_back-run_pending :
      (migrations nms : List Migration) (batch : ℕ) (db db' : Database S)
      → engine.commits ≡ true
      → ((name : Text) → engine.deletes name ≡ true)
      → IsReversible engine migrations
      → IsUnique (λ nm. nm.name) migrations
      → ((nm : Migration)
          → Memᴰ nm nms
          → Memᴰ nm migrations × (has_ran nm.name (or_nil db.rows) ≡ false))
      → IsUnique (λ nm. nm.name) nms
      → IsMade engine db
      → run_pending engine batch nms db ≡ done db'
      → roll_back_names engine migrations (reverse (map (λ (nm : Migration). nm.name) nms)) db'
        ≡ done db
  unfolding roll_back_names run_pending
  roll_back-run_pending migrations [] batch db db' commits deletes back unique there distinct made
        h =
      sym h
  roll_back-run_pending migrations (nm ∷ nms) batch db db' commits deletes back unique there
        distinct made h =
      let names = reverse (map (λ (m : Migration). m.name) nms) in
      let (d₁, ups, more) =
        and_then-done engine (run_statements engine nm.name nm.up db)
          (λ d. and_then (record_ran engine nm.name batch d) (run_pending engine batch nms)) db'
          h in
      let (d₂, recorded, rest) =
        and_then-done engine (record_ran engine nm.name batch d₁) (run_pending engine batch nms) db'
          more in
      let (ran, kept) = run_statements-done engine nm.name nm.up db d₁ ups in
      let new = record_ran-done engine nm.name batch d₁ d₂ recorded in
      let (reg, fresh) = there nm (Memᴰ.head refl) in
      let held : or_nil d₂.rows ≡ or_nil db.rows ++ row_of batch nm ∷ [] =
        ap (λ (d : Database S). or_nil d.rows) new
        ∙ ap (λ (o : Option (List Row)). or_nil o ++ row_of batch nm ∷ []) kept in
      let ih : roll_back_names engine migrations names db' ≡ done d₂ =
        roll_back-run_pending migrations nms batch d₂ db' commits deletes back unique
          (λ m in_nms.
            let (reg', fresh') = there m (Memᴰ.tail in_nms) in
            (
              reg',
              ap (has_ran m.name) held
                  ∙ has_ran-append m.name (or_nil db.rows) (row_of batch nm ∷ [])
                  ∙ has_ran-row m.name batch nm (or_nil db.rows) fresh' (distinct.0 m in_nms),
            ))
          distinct.1 (subst (IsMade engine) (sym new) refl) rest in
      let last : roll_back_names engine migrations (nm.name ∷ []) d₂ ≡ done db =
        ap (λ (o : Option Migration). and_then (roll_back_one engine o nm.name d₂) (λ d. done d))
          (find_by_name-IsUnique nm migrations unique reg)
        ∙ ap (λ (r : Outcome S). and_then r (λ d. done d))
            (roll_back_one_lem nm (or_nil db.rows) d₂ db.schema batch commits (deletes nm.name)
              (ap (λ (d : Database S). exec_all engine.exec (filled nm.down) d.schema) new
                ∙ back nm db.schema d₁.schema reg ran)
              (ap (λ (d : Database S). d.rows) new
                ∙ ap (λ (l : Option (List Row)). some (or_nil l ++ row_of batch nm ∷ [])) kept)
              fresh)
        ∙ ap (λ (o : Option (List Row)). done (record db { rows = o })) (sym made) in
      roll_back_names-append migrations names (nm.name ∷ []) db'
      ∙ ap (λ (r : Outcome S). and_then r (roll_back_names engine migrations (nm.name ∷ []))) ih
      ∙ last
