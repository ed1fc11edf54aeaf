-- ===== src/Realtime/Resume.antt =====
-- framework/realtime/resume.go: the ring buffer of a channel's last events.
-- A time is a number of nanoseconds, `ts` one of seconds, where 0 also stands for those below. The
-- slice of the buffer is a list with the capacity as its length, where `none` is nil.
pub mod Ring
pub mod Window
pub mod Replay
mod Examples
use oniworks.Prelude.{
  ℕ, zero, suc, ◌+◌, ◌*◌, ◌%◌, Bool, true, false, not, ◌&&◌, Option, none, some, List, [], ◌∷◌,
  ◌++◌, if◌then◌else◌, ltb, ◌==◌, nat_eq,
}
use oniworks.Prelude.Text.{Text, text_eq}
use oniworks.Prelude.Dict
use oniworks.Prelude.Dict.{Dict}

pub record Event (Payload : Type 0) : Type 0 where
  pub id : Text
  pub ts : ℕ
  pub payload : Payload

pub record RingBuffer (Payload : Type 0) : Type 0 where
  pub events : List (Option (Event Payload))
  pub start : ℕ
  pub count : ℕ
  pub cap : ℕ

pub record EventBuffer (Payload : Type 0) : Type 0 where
  pub channels : Dict Text (RingBuffer Payload)
  pub max_size : ℕ
  pub max_age : ℕ

-- NewEventBuffer; a size or an age of 0 stands for those below, too. Two minutes are 120000000000 ns.
pub new_event_buffer : {P : Type 0} → ℕ → ℕ → EventBuffer P
new_event_buffer max_size max_age = record {
  channels = Dict.empty;
  max_size = (if max_size == 0 then 512 else max_size);
  max_age = (if max_age == 0 then 120000000000 else max_age);
}

-- make([]*Event, n)
abbrev pub nils : {P : Type 0} → ℕ → List (Option (Event P))
nils zero = []
nils (suc n) = none ∷ nils n

-- events[i]; the indices are within the slice.
abbrev pub event_at : {P : Type 0} → List (Option (Event P)) → ℕ → Option (Event P)
event_at [] i = none
event_at (e ∷ es) zero = e
event_at (e ∷ es) (suc i) = event_at es i

-- events[i] = e
abbrev pub store_event :
    {P : Type 0} → ℕ → Option (Event P) → List (Option (Event P)) → List (Option (Event P))
store_event i e [] = []
store_event zero e (x ∷ xs) = e ∷ xs
store_event (suc i) e (x ∷ xs) = x ∷ store_event i e xs

module _ {P : Type 0} where
  pub new_ring_buffer : ℕ → RingBuffer P
  new_ring_buffer capacity = record { events = nils capacity; start = 0; count = 0; cap = capacity }

  pub push : Event P → RingBuffer P → RingBuffer P
  push e rb =
      let pos = (rb.start + rb.count) % rb.cap in
      let events = store_event pos (some e) rb.events in
      if rb.count == rb.cap
      then record rb { events = events; start = (rb.start + 1) % rb.cap }
      else record rb { events = events; count = rb.count + 1 }

  -- e.Ts > 0 && time.Unix(e.Ts, 0).Before(now.Add(-maxAge))
  abbrev pub is_old : ℕ → ℕ → Event P → Bool
  is_old now max_age e = ltb 0 e.ts && ltb (e.ts * 1000000000 + max_age) now

  -- One round of the loop of since: the event in front of those of the later rounds.
  abbrev keep_fresh : ℕ → ℕ → Option (Event P) → List (Event P) → List (Event P)
  keep_fresh now max_age none later = later
  keep_fresh now max_age (some e) later = if is_old now max_age e then later else e ∷ later

  -- The rounds from `i` on, of which `n` are left: `window`.
  pub window_from : ℕ → ℕ → RingBuffer P → ℕ → ℕ → List (Event P)
  window_from now max_age rb i zero = []
  window_from now max_age rb i (suc n) =
      keep_fresh now max_age (event_at rb.events ((rb.start + i) % rb.cap))
        (window_from now max_age rb (suc i) n)

  -- window[markerAt+1:], where markerAt is the last place of the id.
  pub after_marker : Text → List (Event P) → Option (List (Event P))
  after_marker id [] = none
  after_marker id (e ∷ window) = elim (after_marker id window) [
    | some rest ↦ some rest
    | none ↦ if e.id == id then some window else none
  ]

  pub replay : Text → List (Event P) → List (Event P)
  unfolding after_marker
  replay last_event_id window =
      if last_event_id == []
      then window
      else elim (after_marker last_event_id window) [ some rest ↦ rest | none ↦ window ]

  pub since : ℕ → ℕ → Text → RingBuffer P → List (Event P)
  unfolding replay window_from
  since now max_age last_event_id rb = replay last_event_id (window_from now max_age rb 0 rb.count)

  abbrev pub buffer_of : ℕ → Option (RingBuffer P) → RingBuffer P
  buffer_of size none = new_ring_buffer size
  buffer_of size (some rb) = rb

  -- EventBuffer.Push and EventBuffer.Since
  pub push_event : Text → Event P → EventBuffer P → EventBuffer P
  unfolding push
  push_event channel e eb = record eb {
    channels =
        Dict.put eb.channels channel
          (push e (buffer_of eb.max_size (Dict.get eb.channels channel)));
  }

  pub since_event : ℕ → Text → Text → EventBuffer P → List (Event P)
  unfolding since
  since_event now channel last_event_id eb = elim (Dict.get eb.channels channel) [
    | none ↦ []
    | some rb ↦ since now eb.max_age last_event_id rb
  ]
