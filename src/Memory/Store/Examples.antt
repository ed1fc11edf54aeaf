-- ===== src/Memory/Store/Examples.antt =====
-- store.go: the theorems on a store with a few keys.
use oniworks.Prelude.{ℕ, ◌≡◌, refl, Bool, true, false, some, arith, ◌==◌, nat_eq}
use oniworks.Prelude.Text.{Text, text_eq, codes}
use oniworks.Prelude.Dict
use oniworks.Prelude.Dict.{Dict}
use oniworks.Memory.Store.{Value, int, str, Store, new_store, set}
use oniworks.Memory.Store.Laws.{view}
use oniworks.Memory.Store.Snapshot.{save_snapshot, load_snapshot, load-save}

abbrev key_a : Text
key_a = codes "a"

abbrev key_b : Text
key_b = codes "b"

abbrev fresh : Store
fresh = new_store (codes "n") true

-- "a" is 7 from time 1 for 5, "b" is "x" without end.
abbrev filled : Store
filled = set 2 key_b (str (codes "x")) 0 (set 1 key_a (int 7) 5 fresh)

-- Equality of the numbers of an `int`.
abbrev same_int : Value → Value → Bool
same_int (int m) (int n) = m == n
same_int _ _ = false

-- A stand-in for the conversion of a float64.
abbrev no_float : ℕ → ℕ
no_float f = 0

load-save_example :
    view 9 (load_snapshot 5 (some (save_snapshot 4 filled)) fresh) key_b ≡ view 9 filled key_b
unfolding new_store
load-save_example =
    load-save some 4 5 9 filled fresh key_b refl (omega arith) (omega arith) (λ j. Dict.get-empty j)
