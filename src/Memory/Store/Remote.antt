-- ===== src/Memory/Store/Remote.antt =====
-- framework/memory/store.go, gossip.go, redis.go: writes that arrive from other nodes.
pub mod Replication
mod Examples
use oniworks.Prelude.{
  ℕ, zero, suc, Bool, true, false, Option, none, some, List, [], ◌∷◌, ◌++◌, if◌then◌else◌,
}
use oniworks.Prelude.Text.{Text, text_eq, codes}
use oniworks.Prelude.Dict
use oniworks.Prelude.Dict.{Dict}
use oniworks.Memory.Clock.{ClockValue, merge, after}
use oniworks.Memory.Store.{
  Value, Entry, Message, set_message, delete_message, publish_message, Store, notify, notify_key,
}

-- `!ok || !existing.Clock.After(clock)`
abbrev accepts : Option Entry → ClockValue → Bool
accepts none clock = true
accepts (some existing) clock = if after existing.clock clock then false else true

pub apply_remote_set : Text → Value → Option ℕ → ClockValue → Store → Store
unfolding notify_key
apply_remote_set key value expires_at clock s =
    let e : Entry = record { value = value; expires_at = expires_at; clock = clock } in
    let table = if accepts (Dict.get s.table key) clock then Dict.put s.table key e else s.table in
    notify_key key value (record s { clock = merge s.clock clock; table = table })

apply_remote_delete : Text → Store → Store
apply_remote_delete key s = record s { table = Dict.remove s.table key }

apply_remote_publish : Text → Value → Store → Store
apply_remote_publish topic payload s = record s { calls = notify topic payload ∷ s.calls }

-- gossipTransport.applyMsg
pub apply_msg : Message → Store → Store
unfolding apply_remote_set apply_remote_delete apply_remote_publish
apply_msg (set_message key value expires_at clock) s = apply_remote_set key value expires_at clock s
apply_msg (delete_message key) s = apply_remote_delete key s
apply_msg (publish_message topic payload) s = apply_remote_publish topic payload s

-- The messages that have arrived, in their order.
unfoldable pub apply_all : List Message → Store → Store
unfolding apply_msg
apply_all [] s = s
apply_all (m ∷ more) s = apply_all more (apply_msg m s)

-- ClockValue{}
abbrev pub no_clock : ClockValue
no_clock = record { node_id = []; ts = 0; vector = Dict.empty }

-- The time as it is sent, with 0 for none, and read again.
abbrev over_redis : Option ℕ → Option ℕ
over_redis none = none
over_redis (some zero) = none
over_redis (some (suc t)) = some (suc t)

-- redisSyncAdapter.applyMsg. A value goes through JSON, and the clock is not sent. `json` gives
-- what json.Unmarshal makes of what json.Marshal makes of a value.
module _ (json : Value → Option Value) where
  pub apply_redis : Message → Store → Store
  unfolding apply_remote_set apply_remote_delete apply_remote_publish
  apply_redis (set_message key value expires_at clock) s = elim (json value) [
    | none ↦ s
    | some v ↦ apply_remote_set key v (over_redis expires_at) no_clock s
  ]
  apply_redis (delete_message key) s = apply_remote_delete key s
  apply_redis (publish_message topic payload) s = elim (json payload) [
    | none ↦ s
    | some v ↦ apply_remote_publish topic v s
  ]
