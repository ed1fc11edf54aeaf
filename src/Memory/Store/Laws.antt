-- ===== src/Memory/Store/Laws.antt =====
-- store.go: each operation against what a client sees, the live value of each key at each time.
use oniworks.Prelude.{
  ℕ, zero, suc, ◌+◌, ◌≤◌, ◌≡◌, refl, Bool, true, false, not, ◌&&◌, Option, none, some, arith,
  if◌then◌else◌, leb, ◌==◌, ==_iff, ==-refl, Option-cases, inl, inr,
}
use oniworks.Prelude.Text.{Text, text_eq}
use oniworks.Prelude.Dict
use oniworks.Prelude.Dict.{Dict, keep_if}
use oniworks.Memory.Clock.{tick}
use oniworks.Memory.Store.{
  Value, nil_value, Entry, Store, past, expired, deadline, set, get, delete, expire, evict,
  compare_and_swap,
}

-- The value of an entry that has not expired.
abbrev pub live : ℕ → Option Entry → Option Value
live now none = none
live now (some e) = if expired now e then none else some e.value

-- What a client sees at a key.
abbrev pub view : ℕ → Store → Text → Option Value
view now s key = live now (Dict.get s.table key)

-- `currentVal` of CompareAndSwap, by what is seen.
abbrev pub or_nil : Option Value → Value
or_nil none = nil_value
or_nil (some v) = v

abbrev pub is_some : Option Entry → Bool
is_some none = false
is_some (some e) = true

-- A time to live of 0 is none; any other is over after `now + ttl`.
abbrev pub lasts : ℕ → ℕ → ℕ → Bool
lasts now zero later = true
lasts now (suc d) later = leb later (now + suc d)

not-past : (now ttl later : ℕ) → past later (deadline now ttl) ≡ not (lasts now ttl later)
unfolding past
not-past now zero later = refl
not-past now (suc d) later = ground arith

past_mono : (t : Option ℕ) (now later : ℕ) → now ≤ later → past now t ≡ true → past later t ≡ true
unfolding past
past_mono none now later h p = p
past_mono (some t) now later h p = ground arith

-- The entry that Set makes.
pub get-set :
    (now : ℕ) (key : Text) (v : Value) (ttl : ℕ) (s : Store)
    → Dict.get (set now key v ttl s).table key
      ≡ some (record { value = v; expires_at = deadline now ttl; clock = (tick s.clock).0 })
unfolding set
get-set now key v ttl s =
    let e : Entry = record { value = v; expires_at = deadline now ttl; clock = (tick s.clock).0 } in
    ground (arith, Dict.get-put s.table key key e, ==-refl key)

-- After Set the key has the value for as long as the time to live, and no other key changes.
pub view-set :
    (now later : ℕ) (key j : Text) (v : Value) (ttl : ℕ) (s : Store)
    → view later (set now key v ttl s) j
      ≡ (if key == j then (if lasts now ttl later then some v else none) else view later s j)
unfolding set
view-set now later key j v ttl s =
    let e : Entry = record { value = v; expires_at = deadline now ttl; clock = (tick s.clock).0 } in
    ground (arith, Dict.get-put s.table key j e, not-past now ttl later)

-- Get returns what is seen at the key. The entry that it may drop was seen by nobody from then on.
pub view-get :
    (now later : ℕ) (key j : Text) (s : Store)
    → now ≤ later
    → ((get now key s).0 ≡ view now s key) × (view later (get now key s).1 j ≡ view later s j)
unfolding get past
view-get now later key j s h = ground (arith, Dict.get-remove s.table key j, ==_iff key j)

-- Evicting changes nothing that is seen from then on.
view-evict :
    (now later : ℕ) (j : Text) (s : Store)
    → now ≤ later
    → view later (evict now s) j ≡ view later s j
unfolding evict past
view-evict now later j s h =
    ground
      (arith, Dict.get-filter (λ (_ : Text) (e : Entry). not (past now e.expires_at)) s.table j)

-- After Delete the key is gone, and no other key changes.
view-delete :
    (later : ℕ) (key j : Text) (s : Store)
    → view later (delete key s) j ≡ (if key == j then none else view later s j)
unfolding delete
view-delete later key j s = ground (arith, Dict.get-remove s.table key j)

-- Expire on a live entry gives it the new time to live (0: none), and on any other key changes
-- nothing that is seen from then on. The result says whether the key is in the map, expired or not.
pub view-expire :
    (now later : ℕ) (key j : Text) (ttl : ℕ) (s : Store)
    → now ≤ later
    → (view later (expire now key ttl s).1 j ≡ (
        if key == j
        then (if lasts now ttl later then view now s key else none)
        else view later s j))
      × ((expire now key ttl s).0 ≡ is_some (Dict.get s.table key))
unfolding expire past
view-expire now later key j ttl s h = elim (Option-cases (Dict.get s.table key)) [
  | inl gone ↦ (ground (arith, gone, ==_iff key j), ground (arith, gone))
  | inr (e, found) ↦ (
    ground (
      arith,
      found,
      ==_iff key j,
      not-past now ttl later,
      Dict.get-put s.table key j (record e { expires_at = deadline now ttl }),
    ),
    ground (arith, found),
  )
]

module _ (deep_equal : Value → Value → Bool) where
  -- CompareAndSwap writes exactly when what is seen at the key, nil if nothing is, equals the
  -- expected value, and otherwise leaves the store as it is.
  pub compare_and_swap_lem :
      (now later : ℕ) (key j : Text) (old new : Value) (ttl : ℕ) (s : Store)
      → let r = compare_and_swap deep_equal now key old new ttl s in
        (r.0 ≡ deep_equal (or_nil (view now s key)) old)
        × (view later r.1 j ≡ (
            if r.0 && (key == j)
            then (if lasts now ttl later then some new else none)
            else view later s j))
        × (r.0 ≡ false → r.1 ≡ s)
  unfolding compare_and_swap
  compare_and_swap_lem now later key j old new ttl s =
      let e : Entry = record {
        value = new;
        expires_at = deadline now ttl;
        clock = (tick s.clock).0;
      } in
      (
        ground arith,
        ground (arith, Dict.get-put s.table key j e, not-past now ttl later),
        λ h. ground arith,
      )
