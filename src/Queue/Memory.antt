-- ===== src/Queue/Memory.antt =====
-- framework/queue/drivers/memory.go: the driver that keeps the jobs in the process.
pub mod Pop
pub mod Conserve
pub mod Attempts
pub mod Drain
pub mod Retry
mod Examples
use oniworks.Prelude.{ℕ, true, Option, none, some, List, [], ◌∷◌, ◌++◌, if◌then◌else◌, leb, length}
use oniworks.Prelude.Text.{Text, text_eq}
use oniworks.Prelude.Dict
use oniworks.Prelude.Dict.{Dict}
use oniworks.Queue.{Payload, Driver, add_duration}

pub record Memory : Type 0 where
  pub queues : Dict Text (List Payload)
  pub dead : List Payload

pub new_memory : Memory
new_memory = record { queues = Dict.empty; dead = [] }

-- A missing key reads as the nil slice.
abbrev pub or_nil : Option (List Payload) → List Payload
or_nil none = []
or_nil (some items) = items

-- m.queues[q]
pub items_of : Text → Memory → List Payload
items_of q m = or_nil (Dict.get m.queues q)

pub with_items : Text → List Payload → Memory → Memory
with_items q items m = record m { queues = Dict.put m.queues q items }

pub push : Text → Payload → Memory → Memory
unfolding items_of with_items
push q p m = with_items q (items_of q m ++ p ∷ []) m

-- The first item that is ready, and the others in their order.
pub take_ready : ℕ → List Payload → Option (Payload × List Payload)
take_ready now [] = none
take_ready now (p ∷ items) =
    let rest = take_ready now items in
    if leb p.available_at now
    then some (p, items)
    else elim rest [ none ↦ none | some (r, others) ↦ some (r, p ∷ others) ]

popped : Text → Memory → Option (Payload × List Payload) → Option Payload × Memory
unfolding with_items
popped q m none = (none, m)
popped q m (some (p, items)) = (some p, with_items q items m)

pub pop : ℕ → Text → Memory → Option Payload × Memory
unfolding popped take_ready items_of
pop now q m = popped q m (take_ready now (items_of q m))

pub dead : Payload → Memory → Memory
dead p m = record m { dead = m.dead ++ p ∷ [] }

pub release : ℕ → Payload → ℕ → Memory → Memory
unfolding push add_duration
release now p delay m = push p.queue (record p { available_at = add_duration now delay }) m

dead_letters : Memory → List Payload
dead_letters m = m.dead

size : Text → Memory → ℕ
unfolding items_of
size q m = length (items_of q m)

pub memory_driver : Driver Memory
unfolding push pop dead release
memory_driver = record {
  push = λ now q p m. (true, push q p m);
  pop = pop;
  dead = dead;
  release = release;
}
