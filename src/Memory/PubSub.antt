-- ===== src/Memory/PubSub.antt =====
-- framework/memory/pubsub.go: subscribers with buffered channels.
-- A Go channel is its queue and whether it is closed; a send on a closed channel and a second close
-- panic, which is `none`. Each method of a subscriber runs under its mutex and is one step; a
-- history is a list of steps, in the order in which the mutex was taken.
-- `Payload` is Go's `any`.
pub mod Safety
pub mod Delivery
pub mod Consistent
mod Examples
use oniworks.Prelude.{
  ℕ, ◌+◌, ◌%◌, ◌^◌, Bool, true, false, Option, none, some, List, [], ◌∷◌, ◌++◌, if◌then◌else◌, ltb,
  nat_eq, length,
}
use oniworks.Prelude.Text.{Text}
use oniworks.Prelude.Dict
use oniworks.Prelude.Dict.{Dict}
use oniworks.Memory.Topic.{topic_matches}

pub record PubMsg (Payload : Type 0) : Type 0 where
  pub topic : Text
  pub payload : Payload

pub record Channel (Payload : Type 0) : Type 0 where
  pub queue : List (PubMsg Payload)
  pub is_closed : Bool

pub record Subscriber (Payload : Type 0) : Type 0 where
  pub id : ℕ
  pub topic : Text
  pub buf : Channel Payload
  pub closed : Bool

-- make(chan pubMsg, 256)
abbrev buffer_size : ℕ
buffer_size = 256

module _ {Payload : Type 0} where
  -- `select { case c <- msg: default: }`
  try_send : Channel Payload → PubMsg Payload → Option (Channel Payload)
  try_send c msg =
      if c.is_closed
      then none
      else if ltb (length c.queue) buffer_size
      then some (record c { queue = c.queue ++ msg ∷ [] })
      else some c

  -- close(c)
  close_channel : Channel Payload → Option (Channel Payload)
  close_channel c = if c.is_closed then none else some (record c { is_closed = true })

  with_buf : Subscriber Payload → Option (Channel Payload) → Option (Subscriber Payload)
  with_buf s none = none
  with_buf s (some c) = some (record s { buf = c })

  pub deliver : Subscriber Payload → PubMsg Payload → Option (Subscriber Payload)
  unfolding with_buf try_send
  deliver s msg = if s.closed then some s else with_buf s (try_send s.buf msg)

  pub close : Subscriber Payload → Option (Subscriber Payload)
  unfolding with_buf close_channel
  close s = if s.closed then some s else with_buf (record s { closed = true }) (close_channel s.buf)

  -- One round of the delivery goroutine, `for msg := range sub.buf`: the message for the handler.
  receive : List (PubMsg Payload) → Option (PubMsg Payload) × List (PubMsg Payload)
  receive [] = (none, [])
  receive (m ∷ queue) = (some m, queue)

  pub drain : Subscriber Payload → Option (PubMsg Payload) × Subscriber Payload
  unfolding receive
  drain s =
      let (m, queue) = receive s.buf.queue in (m, record s { buf = record s.buf { queue = queue } })

  pub new_subscriber : ℕ → Text → Subscriber Payload
  new_subscriber id topic = record {
    id = id;
    topic = topic;
    buf = record { queue = []; is_closed = false };
    closed = false;
  }

-- A publisher, a canceller and the delivery goroutine take turns at a subscriber.
pub data Turn (Payload : Type 0) : Type 0 where
  publisher : PubMsg Payload → Turn Payload
  canceller : Turn Payload
  handler : Turn Payload

-- The registry: `subscribers` maps an id to the address of its object on the heap `objects`.
pub record PubSub (Payload : Type 0) : Type 0 where
  pub subscribers : Dict ℕ ℕ
  pub objects : Dict ℕ (Subscriber Payload)
  pub next_id : ℕ

module _ {Payload : Type 0} where
  pub turn : Turn Payload → Subscriber Payload → Option (Subscriber Payload)
  unfolding deliver close drain
  turn (publisher msg) s = deliver s msg
  turn canceller s = close s
  turn handler s = some (drain s).1

  pub run : List (Turn Payload) → Subscriber Payload → Option (Subscriber Payload)
  unfolding turn
  run [] s = some s
  run (t ∷ turns) s = elim (turn t s) [ none ↦ none | some s' ↦ run turns s' ]

  pub new_pub_sub : PubSub Payload
  new_pub_sub = record { subscribers = Dict.empty; objects = Dict.empty; next_id = 0 }

  -- The id is the new object's address too. The result is what the cancel function closes over.
  pub subscribe : PubSub Payload → Text → ℕ × PubSub Payload
  unfolding new_subscriber
  subscribe ps topic =
      let id = (ps.next_id + 1) % 2 ^ 64 in
      (
        id,
        record {
          subscribers = Dict.put ps.subscribers id id;
          objects = Dict.put ps.objects id (new_subscriber id topic);
          next_id = id;
        },
      )

  abbrev has_topic : Text → Option (Subscriber Payload) → Bool
  has_topic topic none = false
  has_topic topic (some s) = topic_matches s.topic topic

  -- The loop of publish under the read lock: the addresses of the matching subscribers.
  pub matching : Dict ℕ (Subscriber Payload) → Text → List (ℕ × ℕ) → List ℕ
  matching objects topic [] = []
  matching objects topic ((id, p) ∷ more) =
      let rest = matching objects topic more in
      if has_topic topic (Dict.get objects p) then p ∷ rest else rest

  abbrev store_at : PubSub Payload → ℕ → Option (Subscriber Payload) → Option (PubSub Payload)
  store_at ps p none = none
  store_at ps p (some s) = some (record ps { objects = Dict.put ps.objects p s })

  pub deliver_at : PubMsg Payload → ℕ → PubSub Payload → Option (PubSub Payload)
  unfolding deliver
  deliver_at msg p ps = elim (Dict.get ps.objects p) [
    | none ↦ none
    | some s ↦ store_at ps p (deliver s msg)
  ]

  -- The loop of publish after the lock is released.
  pub deliver_all : PubMsg Payload → List ℕ → PubSub Payload → Option (PubSub Payload)
  unfolding deliver_at
  deliver_all msg [] ps = some ps
  deliver_all msg (p ∷ more) ps = elim (deliver_at msg p ps) [
    | none ↦ none
    | some ps' ↦ deliver_all msg more ps'
  ]

  pub publish : PubSub Payload → Text → Payload → Option (PubSub Payload)
  unfolding deliver_all matching
  publish ps topic payload =
      deliver_all (record { topic = topic; payload = payload })
        (matching ps.objects topic (Dict.entries ps.subscribers)) ps

  -- The function that subscribe returns.
  pub cancel : ℕ → PubSub Payload → Option (PubSub Payload)
  unfolding close
  cancel id ps = elim (Dict.get ps.objects id) [
    | none ↦ none
    | some s ↦ store_at (record ps { subscribers = Dict.remove ps.subscribers id }) id (close s)
  ]
