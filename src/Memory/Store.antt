-- ===== src/Memory/Store.antt =====
-- framework/memory/store.go: the key-value store of one node.
-- A time is a number of nanoseconds, and the zero time.Time is `none`. A duration is the number by
-- which it exceeds 0: every operation treats the durations of 0 and less alike. An int64 and an int
-- are their two's-complement patterns below 2 ^ 64. What the store calls, pubsub.publish and the
-- broadcasts to peers, stands in `calls`, the latest first.
pub mod Laws
pub mod Counter
pub mod Remote
pub mod Snapshot
pub mod Scan
mod Examples
use oniworks.Prelude.{
  ℕ, zero, suc, ◌+◌, ◌%◌, ◌^◌, Bool, true, false, not, ◌&&◌, ◌||◌, Option, none, some, List, [],
  ◌∷◌, ◌++◌, if◌then◌else◌, ltb, length,
}
use oniworks.Prelude.Text.{Text, text_eq, codes}
use oniworks.Prelude.Dict
use oniworks.Prelude.Dict.{Dict}
use oniworks.Memory.Clock.{VectorClock, ClockValue, tick, merge, after, new_vector_clock}
use oniworks.Memory.Glob.{glob_match}

-- Go's `any`: the dynamic types that the store looks at, and any other value under a number. A
-- float64 is its bit pattern.
pub data Value : Type 0 where
  nil_value : Value
  int64 : ℕ → Value
  int : ℕ → Value
  float64 : ℕ → Value
  str : Text → Value
  other : ℕ → Value

pub record Entry : Type 0 where
  pub value : Value
  pub expires_at : Option ℕ
  pub clock : ClockValue

-- now.After(ExpiresAt), unless that is zero
pub past : ℕ → Option ℕ → Bool
past now none = false
past now (some t) = ltb t now

-- e.expired(), at the time that time.Now() returns
abbrev pub expired : ℕ → Entry → Bool
expired now e = past now e.expires_at

-- A message to the peers: gossipMsg, or its Redis form.
pub data Message : Type 0 where
  set_message : Text → Value → Option ℕ → ClockValue → Message
  delete_message : Text → Message
  publish_message : Text → Value → Message

pub data Call : Type 0 where
  notify : Text → Value → Call
  broadcast : Message → Call

pub record Store : Type 0 where
  pub clock : VectorClock
  pub table : Dict Text Entry
  has_peers : Bool
  pub calls : List Call

pub new_store : Text → Bool → Store
new_store node_id has_peers = record {
  clock = new_vector_clock node_id;
  table = Dict.empty;
  has_peers = has_peers;
  calls = [];
}

-- time.Now().Add(ttl) if ttl > 0, and the zero time otherwise
abbrev pub deadline : ℕ → ℕ → Option ℕ
deadline now zero = none
deadline now (suc d) = some (now + suc d)

-- syncSet, syncDelete, syncPublish: nothing is sent in single-node mode
sync : Message → Store → Store
sync m s = if s.has_peers then record s { calls = broadcast m ∷ s.calls } else s

notify_key : Text → Value → Store → Store
notify_key key value s = record s { calls = notify (codes "key:" ++ key) value ∷ s.calls }

pub set : ℕ → Text → Value → ℕ → Store → Store
unfolding sync notify_key
set now key value ttl s =
    let (cv, clock) = tick s.clock in
    let e : Entry = record { value = value; expires_at = deadline now ttl; clock = cv } in
    sync (set_message key value (deadline now ttl) cv)
      (notify_key key value (record s { clock = clock; table = Dict.put s.table key e }))

-- The two critical sections of Get as one step at one time.
get_entry : ℕ → Text → Option Entry → Store → Option Value × Store
get_entry now key none s = (none, s)
get_entry now key (some e) s =
    if expired now e
    then (none, record s { table = Dict.remove s.table key })
    else (some e.value, s)

pub get : ℕ → Text → Store → Option Value × Store
unfolding get_entry
get now key s = get_entry now key (Dict.get s.table key) s

abbrev as_string : Option Value → Option Text
as_string (some (str t)) = some t
as_string _ = none

get_string : ℕ → Text → Store → Option Text × Store
unfolding get
get_string now key s = let (v, s') = get now key s in (as_string v, s')

has : ℕ → Text → Store → Bool × Store
unfolding get
has now key s = let (v, s') = get now key s in (elim v [ none ↦ false | some _ ↦ true ], s')

pub delete : Text → Store → Store
unfolding sync
delete key s = sync (delete_message key) (record s { table = Dict.remove s.table key })

-- The result is `ok`, whether the key is in the map.
expire_entry : ℕ → Text → ℕ → Option Entry → Store → Bool × Store
expire_entry now key ttl none s = (false, s)
expire_entry now key ttl (some e) s = if expired now e then (true, s) else (
  true,
  record s { table = Dict.put s.table key (record e { expires_at = deadline now ttl }) },
)

pub expire : ℕ → Text → ℕ → Store → Bool × Store
unfolding expire_entry
expire now key ttl s = expire_entry now key ttl (Dict.get s.table key) s

-- Go's conversion int64(v) of a float64 is a parameter.
module _ (float_to_int64 : ℕ → ℕ) where
  -- The type switch of IncrBy and GetInt64.
  as_int64 : Value → Option ℕ
  as_int64 (int64 n) = some n
  as_int64 (int n) = some n
  as_int64 (float64 f) = some (float_to_int64 f)
  as_int64 _ = none

  get_int64 : ℕ → Text → Store → Option ℕ × Store
  unfolding as_int64 get
  get_int64 now key s =
      let (v, s') = get now key s in (elim v [ none ↦ none | some w ↦ as_int64 w ], s')

  -- `current`, which is 0 where the key is absent, expired, or no number
  pub current : ℕ → Option Entry → ℕ
  unfolding as_int64
  current now none = 0
  current now (some e) =
      if expired now e then 0 else elim (as_int64 e.value) [ none ↦ 0 | some n ↦ n ]

  pub incr_by : ℕ → Text → ℕ → Store → ℕ × Store
  unfolding current
  incr_by now key n s =
      let next = (current now (Dict.get s.table key) + n) % 2 ^ 64 in
      let (cv, clock) = tick s.clock in
      let e : Entry = record { value = int64 next; expires_at = none; clock = cv } in
      (next, record s { clock = clock; table = Dict.put s.table key e })

  pub incr : ℕ → Text → Store → ℕ × Store
  unfolding incr_by
  incr now key s = incr_by now key 1 s

  -- -1 is 2 ^ 64 - 1
  pub decr : ℕ → Text → Store → ℕ × Store
  unfolding incr_by
  decr now key s = incr_by now key 18446744073709551615 s

-- reflect.DeepEqual is a parameter.
module _ (deep_equal : Value → Value → Bool) where
  -- `currentVal`
  current_value : ℕ → Option Entry → Value
  current_value now none = nil_value
  current_value now (some e) = if expired now e then nil_value else e.value

  pub compare_and_swap : ℕ → Text → Value → Value → ℕ → Store → Bool × Store
  unfolding current_value
  compare_and_swap now key expected new_value ttl s =
      if deep_equal (current_value now (Dict.get s.table key)) expected
      then (let (cv, clock) = tick s.clock in
          let e : Entry = record { value = new_value; expires_at = deadline now ttl; clock = cv } in
          (true, record s { clock = clock; table = Dict.put s.table key e }))
      else (false, s)

-- The loop of Keys over the entries.
matching_keys : ℕ → Text → List (Text × Entry) → List Text
matching_keys now pattern [] = []
matching_keys now pattern ((k, e) ∷ more) =
    let rest = matching_keys now pattern more in
    if expired now e then rest else if glob_match pattern k then k ∷ rest else rest

pub keys : ℕ → Text → Store → List Text
unfolding matching_keys
keys now pattern s = matching_keys now pattern (Dict.entries s.table)

pub count : ℕ → Text → Store → ℕ
unfolding keys
count now pattern s = length (keys now pattern s)

flush : Store → Store
flush s = record s { table = Dict.empty }

pub publish : Text → Value → Store → Store
unfolding sync
publish topic payload s =
    sync (publish_message topic payload) (record s { calls = notify topic payload ∷ s.calls })

pub evict : ℕ → Store → Store
evict now s = record s { table = Dict.filter (λ _ e. not (past now e.expires_at)) s.table }
