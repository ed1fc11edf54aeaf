-- ===== src/Realtime/Resume/Replay.antt =====
-- resume.go: what Since replays after any pushes.
use oniworks.Prelude.{
  ℕ, ◌≡◌, ◌≢◌, refl, Bool, false, ◌||◌, none, some, List, [], ◌∷◌, ◌++◌, arith, if◌then◌else◌, ◌==◌,
  ==_iff, nat_eq, Bool-false,
}
use oniworks.Prelude.Text.{Text, text_eq}
use oniworks.Prelude.Dict
use oniworks.Prelude.Dict.{Dict}
use oniworks.Realtime.Resume.{
  Event, RingBuffer, EventBuffer, after_marker, replay, buffer_of, push_event,
}
use oniworks.Realtime.Resume.Ring.{Holds}
use oniworks.Realtime.Resume.Window.{last_events}

module _ {P : Type 0} where
  -- Some event has the id.
  abbrev pub has_id : Text → List (Event P) → Bool
  has_id id [] = false
  has_id id (e ∷ es) = (e.id == id) || has_id id es

  after_marker-none :
      (id : Text) (es : List (Event P)) → has_id id es ≡ false → after_marker id es ≡ none
  unfolding after_marker
  after_marker-none id [] h = refl
  after_marker-none id (e ∷ es) h = ground (arith, after_marker-none id es)

  after_marker-some :
      (id : Text) (before rest : List (Event P)) (e : Event P)
      → e.id ≡ id
      → has_id id rest ≡ false
      → after_marker id (before ++ e ∷ rest) ≡ some rest
  unfolding after_marker
  after_marker-some id [] rest e same h =
      ground (arith, after_marker-none id rest h, ==_iff e.id id)
  after_marker-some id (x ∷ before) rest e same h =
      ground (arith, after_marker-some id before rest e same h)

  -- What follows the last event with the id is replayed, and everything where the id is empty or no
  -- event has it.
  pub replay_lem :
      (id : Text) (before rest : List (Event P)) (e : Event P)
      → (id ≢ [] → e.id ≡ id → has_id id rest ≡ false → replay id (before ++ e ∷ rest) ≡ rest)
        × (has_id id rest ≡ false → replay id rest ≡ rest)
        × (replay [] rest ≡ rest)
  unfolding replay
  replay_lem id before rest e = (
    λ filled same h.
        rw
          (
            Bool-false (id == []) (λ e. filled ((==_iff id []).0 e)),
            after_marker-some id before rest e same h,
          )
          refl,
    λ h. ground (arith, after_marker-none id rest h),
    refl,
  )

  -- The pushes, in their order.
  pub push_events : List (Text × Event P) → EventBuffer P → EventBuffer P
  push_events [] eb = eb
  push_events ((channel, e) ∷ more) eb = push_events more (push_event channel e eb)

  -- The events that are pushed to a channel.
  pub of_channel : Text → List (Text × Event P) → List (Event P)
  of_channel channel [] = []
  of_channel channel ((c, e) ∷ more) =
      let rest = of_channel channel more in if c == channel then e ∷ rest else rest

  -- The channel's buffer, which Push makes where it is not there.
  abbrev buffer : EventBuffer P → Text → RingBuffer P
  buffer eb channel = buffer_of eb.max_size (Dict.get eb.channels channel)

  -- A ring buffer of the size holds the last of the events `xs`.
  abbrev Keeps : ℕ → List (Event P) → RingBuffer P → Type 0
  Keeps size xs rb = (rb.cap ≡ size) × Holds rb (last_events rb.cap xs)

  -- The events that have been pushed to a channel, with one more.
  abbrev and_event : Bool → Event P → List (Event P) → List (Event P)
  and_event b e xs = if b then xs ++ e ∷ [] else xs

  pushed : Text → List (Text × Event P) → List (Event P) → List (Event P)
  pushed channel [] xs = xs
  pushed channel ((c, e) ∷ more) xs = pushed channel more (and_event (c == channel) e xs)
