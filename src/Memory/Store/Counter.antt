-- ===== src/Memory/Store/Counter.antt =====
-- store.go: counters by Incr, IncrBy and Decr.
use oniworks.Prelude.{
  ℕ, ◌+◌, ◌%◌, ◌^◌, ◌<◌, ◌≡◌, refl, ap, ◌∙◌, none, some, List, [], ◌∷◌, arith, if◌then◌else◌, ◌==◌,
  ==-refl,
}
use oniworks.Prelude.Text.{Text, text_eq}
use oniworks.Prelude.Dict
use oniworks.Prelude.Dict.{Dict}
use oniworks.Memory.Clock.{tick}
use oniworks.Memory.Store.{int64, Entry, Store, past, current, incr_by, incr, decr}
use oniworks.Memory.Store.Laws.{view}

found : (key : Text) (e : Entry) (s : Store) → Dict.get (Dict.put s.table key e) key ≡ some e
found key e s = ground (arith, Dict.get-put s.table key key e, ==-refl key)

module _ (float_to_int64 : ℕ → ℕ) where
  pub incr_by_lem :
      (now later : ℕ) (key j : Text) (n : ℕ) (s : Store)
      → let r = incr_by float_to_int64 now key n s in
        (r.0 ≡ (current float_to_int64 now (Dict.get s.table key) + n) % 2 ^ 64)
        × (view later r.1 j ≡ (if key == j then some (int64 r.0) else view later s j))
        × (r.1.calls ≡ s.calls)
  unfolding incr_by past
  incr_by_lem now later key j n s =
      let next = (current float_to_int64 now (Dict.get s.table key) + n) % 2 ^ 64 in
      let e : Entry = record { value = int64 next; expires_at = none; clock = (tick s.clock).0 } in
      (refl, ground (arith, Dict.get-put s.table key j e), refl)

  -- The counter reads back at any time what IncrBy returned.
  current-incr_by :
      (now later : ℕ) (key : Text) (n : ℕ) (s : Store)
      → current float_to_int64 later (Dict.get (incr_by float_to_int64 now key n s).1.table key)
        ≡ (current float_to_int64 now (Dict.get s.table key) + n) % 2 ^ 64
  unfolding incr_by
  current-incr_by now later key n s =
      let next = (current float_to_int64 now (Dict.get s.table key) + n) % 2 ^ 64 in
      let e : Entry = record { value = int64 next; expires_at = none; clock = (tick s.clock).0 } in
      ap (current float_to_int64 later) (found key e s) ∙ (unfold current past in refl)

  -- The loop of a client that adds each of `ns`, at the times that the list gives.
  abbrev pub add_all : List (ℕ × ℕ) → Text → Store → Store
  add_all [] key s = s
  add_all ((now, n) ∷ more) key s = add_all more key (incr_by float_to_int64 now key n s).1

  abbrev pub total : List (ℕ × ℕ) → ℕ
  total [] = 0
  total ((now, n) ∷ more) = n + total more

  -- After any number of IncrBy on a key the key has the number that it had at first, plus all that
  -- was added, modulo 2 ^ 64.
  pub add_all_lem :
      (now later n : ℕ) (more : List (ℕ × ℕ)) (key : Text) (s : Store)
      → view later (add_all ((now, n) ∷ more) key s) key
        ≡ some (
            int64 (
              (current float_to_int64 now (Dict.get s.table key) + total ((now, n) ∷ more))
              % 2 ^ 64))
  add_all_lem now later n [] key s =
      let (r, v, c) = incr_by_lem now later key key n s in ground (arith, v, r, ==-refl key)
  add_all_lem now later n ((now', n') ∷ more) key s =
      add_all_lem now' later n' more key (incr_by float_to_int64 now key n s).1
      ∙ ap (λ c. some (int64 c)) (omega (arith, current-incr_by now now' key n s))

  -- Decr undoes Incr on a number below 2 ^ 64.
  decr-incr :
      (now : ℕ) (key : Text) (m : ℕ) (s : Store)
      → m < 2 ^ 64
      → current float_to_int64 now (Dict.get s.table key) ≡ m
      → (decr float_to_int64 now key (incr float_to_int64 now key s).1).0 ≡ m
  unfolding incr decr
  decr-incr now key m s h e =
      (incr_by_lem now now key key 18446744073709551615 (incr_by float_to_int64 now key 1 s).1).0
      ∙ omega (arith, current-incr_by now now key 1 s)
