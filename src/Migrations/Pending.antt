-- ===== src/Migrations/Pending.antt =====
-- framework/migrations/migrator.go: which migrations are pending.
use oniworks.Prelude.{
  ℕ, ◌≡◌, refl, ap, ◌↔◌, inl, inr, Bool, true, false, not, ◌||◌, List, [], ◌∷◌, ◌++◌, map, arith,
  ==_iff, nat_eq, Bool-cases, mem-select, select-nil,
}
use oniworks.Prelude.Text.{Text, text_eq}
use oniworks.Prelude.Sort.{
  sort_by, IsAscending, sort_by-IsAscending, select-IsAscending, mem-sort_by,
}
use oniworks.Migrations.{Migration, Row, sort_migrations, has_ran, pending}
use mathlib.Core.List.{Memᴰ}

mem-sort_migrations :
    (nm : Migration) (migrations : List Migration)
    → Memᴰ nm (sort_migrations migrations) ↔ Memᴰ nm migrations
unfolding sort_migrations
mem-sort_migrations nm migrations = mem-sort_by (λ (m : Migration). m.name) nm migrations

-- A migration is pending just where it is registered and no row has its name.
mem-pending :
    (nm : Migration) (migrations : List Migration) (rows : List Row)
    → Memᴰ nm (pending migrations rows) ↔ (Memᴰ nm migrations × (has_ran nm.name rows ≡ false))
unfolding pending sort_migrations
mem-pending nm migrations rows =
    let p : Migration → Bool = λ (m : Migration). not (has_ran m.name rows) in
    let (to, from) = mem-select p nm (sort_by (λ (m : Migration). m.name) migrations) in
    let (to', from') = mem-sort_by (λ (m : Migration). m.name) nm migrations in
    (λ m. (to' (to m).0, ground (arith, (to m).1)), λ (m, h). from (from' m, ground arith))

-- What Migrate runs are the registered migrations whose names no row has, in ascending order.
pub pending_lem :
    (migrations : List Migration) (rows : List Row)
    → IsAscending (λ nm. nm.name) (pending migrations rows)
      × ((nm : Migration)
          → Memᴰ nm (pending migrations rows)
            ↔ (Memᴰ nm migrations × (has_ran nm.name rows ≡ false)))
unfolding pending sort_migrations
pending_lem migrations rows = (
  select-IsAscending (λ (nm : Migration). nm.name) (λ (nm : Migration). not (has_ran nm.name rows))
      (sort_migrations migrations) (sort_by-IsAscending (λ nm. nm.name) migrations),
  λ nm. mem-pending nm migrations rows,
)

abbrev pub row_of : ℕ → Migration → Row
row_of batch nm = record { migration = nm.name; batch = batch }

pub has_ran-append :
    (name : Text) (rows more : List Row)
    → has_ran name (rows ++ more) ≡ (has_ran name rows || has_ran name more)
unfolding has_ran
has_ran-append name [] more = refl
has_ran-append name (r ∷ rows) more = ground (arith, has_ran-append name rows more)

has_ran-map :
    (batch : ℕ) (nm : Migration) (nms : List Migration)
    → Memᴰ nm nms
    → has_ran nm.name (map (row_of batch) nms) ≡ true
unfolding has_ran
has_ran-map batch nm [] m = elim m [ ]
has_ran-map batch nm (x ∷ nms) (Memᴰ.head e) =
    ground (arith, ap (λ (m : Migration). m.name) e, ==_iff x.name nm.name)
has_ran-map batch nm (x ∷ nms) (Memᴰ.tail m) = ground (arith, has_ran-map batch nm nms m)

-- With the rows of what was pending, nothing is pending.
pub pending-map :
    (batch : ℕ) (migrations : List Migration) (rows : List Row)
    → pending migrations (rows ++ map (row_of batch) (pending migrations rows)) ≡ []
unfolding pending
pending-map batch migrations rows =
    let nms = pending migrations rows in
    select-nil (λ nm. not (has_ran nm.name (rows ++ map (row_of batch) nms)))
      (sort_migrations migrations)
      (λ nm m.
        rw (has_ran-append nm.name rows (map (row_of batch) nms))
          (elim (Bool-cases (has_ran nm.name rows)) [
            | inl ran ↦ rw ran refl
            | inr new ↦
                let there = has_ran-map batch nm nms (
                  (mem-pending nm migrations rows).1
                    ((mem-sort_migrations nm migrations).0 m, new)) in
                ground arith
          ]))
