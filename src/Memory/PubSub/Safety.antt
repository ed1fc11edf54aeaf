-- ===== src/Memory/PubSub/Safety.antt =====
-- pubsub.go: no send or close panics, whatever the order of publishers and cancellers.
use oniworks.Prelude.{
  ℕ, ◌≤◌, ◌≡◌, refl, true, some, List, [], ◌∷◌, ◌++◌, arith, if◌then◌else◌, ltb, length,
  length-append,
}
use oniworks.Prelude.Text.{Text}
use oniworks.Memory.PubSub.{
  PubMsg, Subscriber, Turn, publisher, canceller, handler, turn, run, deliver, close, drain,
  new_subscriber, receive,
}

length-receive : {P : Type 0} (q : List (PubMsg P)) → length q ≤ 256 → length (receive q).1 ≤ 256
unfolding receive
length-receive [] h = h
length-receive (m ∷ q) h = omega arith

-- The flag tells whether the channel is closed, and the channel is within its capacity.
pub record IsSound {P : Type 0} (s : Subscriber P) : Type 0 where
  flag : s.closed ≡ s.buf.is_closed
  pub fits : length s.buf.queue ≤ 256

module _ {P : Type 0} where
  -- What a publisher leaves: the message at the end of the buffer, if that is open and has room.
  abbrev pub accept : Subscriber P → PubMsg P → Subscriber P
  accept s msg =
      if s.closed
      then s
      else if ltb (length s.buf.queue) 256
      then record s { buf = record s.buf { queue = s.buf.queue ++ msg ∷ [] } }
      else s

  -- What a canceller leaves.
  abbrev pub shut : Subscriber P → Subscriber P
  shut s = record s { closed = true; buf = record s.buf { is_closed = true } }

  pub deliver-IsSound :
      (s : Subscriber P) (msg : PubMsg P)
      → IsSound s
      → (deliver s msg ≡ some (accept s msg)) × IsSound (accept s msg)
  unfolding deliver
  deliver-IsSound s msg h = (
    ground arith,
    record { flag = ground arith; fits = ground (arith, length-append s.buf.queue (msg ∷ [])) },
  )

  pub close-IsSound : (s : Subscriber P) → IsSound s → (close s ≡ some (shut s)) × IsSound (shut s)
  unfolding close
  close-IsSound s h = (ground arith, record { flag = refl; fits = h.fits })

  drain-IsSound : (s : Subscriber P) → IsSound s → IsSound (drain s).1
  unfolding drain
  drain-IsSound s h = record { flag = h.flag; fits = length-receive s.buf.queue h.fits }

  turn-IsSound :
      (t : Turn P) (s : Subscriber P)
      → IsSound s
      → (s' : Subscriber P) × (turn t s ≡ some s') × IsSound s'
  unfolding turn
  turn-IsSound (publisher msg) s h = let (e, k) = deliver-IsSound s msg h in (accept s msg, e, k)
  turn-IsSound canceller s h = let (e, k) = close-IsSound s h in (shut s, e, k)
  turn-IsSound handler s h = ((drain s).1, refl, drain-IsSound s h)

  -- However the publishers, the cancellers and the delivery goroutine take turns at a sound
  -- subscriber, no send or close panics, and it stays sound.
  pub run-IsSound :
      (turns : List (Turn P)) (s : Subscriber P)
      → IsSound s
      → (s' : Subscriber P) × (run turns s ≡ some s') × IsSound s'
  unfolding run
  run-IsSound [] s h = (s, refl, h)
  run-IsSound (t ∷ turns) s h =
      let (s₁, e₁, h₁) = turn-IsSound t s h in
      let (s₂, e₂, h₂) = run-IsSound turns s₁ h₁ in (s₂, rw (e₁, run) e₂, h₂)

  pub IsSound-new_subscriber :
      (id : ℕ) (topic : Text) → IsSound (new_subscriber {Payload = P} id topic)
  unfolding new_subscriber
  IsSound-new_subscriber id topic = record { flag = refl; fits = omega arith }
