-- ===== src/Memory/Store/Snapshot.antt =====
-- framework/memory/store.go: saveSnapshot and loadSnapshot.
-- The gob encoding of the file is a parameter: what decoding makes of an encoded snapshot.
use oniworks.Prelude.{
  ℕ, ◌≤◌, ◌≡◌, refl, ap, ◌∙◌, Option, none, some, List, [], ◌∷◌, arith, if◌then◌else◌, ==_iff,
}
use mathlib.Core.Path.{ap₂}
use oniworks.Prelude.Text.{Text, text_eq}
use oniworks.Prelude.Dict
use oniworks.Prelude.Dict.{Dict, lookup, IsDistinct}
use oniworks.Memory.Store.{Value, Entry, Store, past}
use oniworks.Memory.Store.Remote.{no_clock}
use oniworks.Memory.Store.Laws.{view, live}

pub record SnapshotEntry : Type 0 where
  pub value : Value
  pub expires_at : Option ℕ

save_entries : ℕ → List (Text × Entry) → Dict Text SnapshotEntry → Dict Text SnapshotEntry
save_entries now [] snap = snap
save_entries now ((k, e) ∷ more) snap =
    let se : SnapshotEntry = record { value = e.value; expires_at = e.expires_at } in
    save_entries now more (if past now e.expires_at then snap else Dict.put snap k se)

pub save_snapshot : ℕ → Store → Dict Text SnapshotEntry
unfolding save_entries
save_snapshot now s = save_entries now (Dict.entries s.table) Dict.empty

load_entries : ℕ → List (Text × SnapshotEntry) → Dict Text Entry → Dict Text Entry
load_entries now [] table = table
load_entries now ((k, se) ∷ more) table =
    let e : Entry = record { value = se.value; expires_at = se.expires_at; clock = no_clock } in
    load_entries now more (if past now se.expires_at then table else Dict.put table k e)

-- A file that does not decode changes nothing.
pub load_snapshot : ℕ → Option (Dict Text SnapshotEntry) → Store → Store
unfolding load_entries
load_snapshot now none s = s
load_snapshot now (some snap) s = record s { table = load_entries now (Dict.entries snap) s.table }

-- What a snapshot holds of an entry.
abbrev as_saved : ℕ → Option Entry → Option SnapshotEntry → Option SnapshotEntry
as_saved now none old = old
as_saved now (some e) old =
    if past now e.expires_at
    then old
    else some (record { value = e.value; expires_at = e.expires_at })

get-save_entries :
    (now : ℕ) (es : List (Text × Entry)) (snap : Dict Text SnapshotEntry) (k : Text)
    → IsDistinct es
    → Dict.get (save_entries now es snap) k ≡ as_saved now (lookup k es) (Dict.get snap k)
unfolding save_entries lookup
get-save_entries now [] snap k d = refl
get-save_entries now ((j, e) ∷ es) snap k (fresh, d) =
    let se : SnapshotEntry = record { value = e.value; expires_at = e.expires_at } in
    get-save_entries now es (if past now e.expires_at then snap else Dict.put snap j se) k d
    ∙ ground (arith, fresh, Dict.get-put snap j k se, ==_iff j k)

abbrev as_loaded : ℕ → Option SnapshotEntry → Option Entry → Option Entry
as_loaded now none old = old
as_loaded now (some se) old =
    if past now se.expires_at
    then old
    else some (record { value = se.value; expires_at = se.expires_at; clock = no_clock })

get-load_entries :
    (now : ℕ) (es : List (Text × SnapshotEntry)) (table : Dict Text Entry) (k : Text)
    → IsDistinct es
    → Dict.get (load_entries now es table) k ≡ as_loaded now (lookup k es) (Dict.get table k)
unfolding load_entries lookup
get-load_entries now [] table k d = refl
get-load_entries now ((j, se) ∷ es) table k (fresh, d) =
    let e : Entry = record { value = se.value; expires_at = se.expires_at; clock = no_clock } in
    get-load_entries now es (if past now se.expires_at then table else Dict.put table j e) k d
    ∙ ground (arith, fresh, Dict.get-put table j k e, ==_iff j k)

get-save_snapshot :
    (now : ℕ) (s : Store) (k : Text)
    → Dict.get (save_snapshot now s) k ≡ as_saved now (Dict.get s.table k) none
unfolding save_snapshot
get-save_snapshot now s k =
    get-save_entries now (Dict.entries s.table) Dict.empty k (Dict.entries-IsDistinct s.table)
    ∙ ap₂ (as_saved now) (Dict.lookup-entries s.table k) (Dict.get-empty k)

get-load_snapshot :
    (now : ℕ) (snap : Dict Text SnapshotEntry) (t : Store) (k : Text)
    → Dict.get (load_snapshot now (some snap) t).table k
      ≡ as_loaded now (Dict.get snap k) (Dict.get t.table k)
unfolding load_snapshot
get-load_snapshot now snap t k =
    get-load_entries now (Dict.entries snap) t.table k (Dict.entries-IsDistinct snap)
    ∙ ap (λ o. as_loaded now o (Dict.get t.table k)) (Dict.lookup-entries snap k)

-- What was dropped at the saving or the loading had expired.
live-loaded :
    (saved loaded later : ℕ) (o : Option Entry)
    → saved ≤ loaded
    → loaded ≤ later
    → live later (as_loaded loaded (as_saved saved o none) none) ≡ live later o
unfolding past
live-loaded saved loaded later none h h' = refl
live-loaded saved loaded later (some e) h h' = ground arith

-- A snapshot that is saved at one time and loaded at a later one into a store without entries
-- shows from then on what the saved store shows, if the encoding gives the snapshot back.
pub load-save :
    (gob : Dict Text SnapshotEntry → Option (Dict Text SnapshotEntry)) (saved loaded later : ℕ)
    (s t : Store) (k : Text)
    → gob (save_snapshot saved s) ≡ some (save_snapshot saved s)
    → saved ≤ loaded
    → loaded ≤ later
    → ((j : Text) → Dict.get t.table j ≡ none)
    → view later (load_snapshot loaded (gob (save_snapshot saved s)) t) k ≡ view later s k
load-save gob saved loaded later s t k good h h' fresh =
    ap (λ g. view later (load_snapshot loaded g t) k) good
    ∙ ap (live later) (
        get-load_snapshot loaded (save_snapshot saved s) t k
        ∙ ap₂ (as_loaded loaded) (get-save_snapshot saved s k) (fresh k))
    ∙ live-loaded saved loaded later (Dict.get s.table k) h h'
