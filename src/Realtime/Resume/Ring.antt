-- ===== src/Realtime/Resume/Ring.antt =====
-- resume.go: the ring buffer holds the last events, in the order in which they were pushed.
use native.Mathlib.Nat.{mod-eq_of_lt, mod-eq-sub-mod, mod-add-mod, mod-lt}
use oniworks.Prelude.{
  ℕ, zero, suc, ◌+◌, ◌-◌, ◌%◌, ◌≤◌, ◌<◌, ◌≡◌, refl, sym, ap, ◌∙◌, inl, inr, Option, none, some,
  List, [], ◌∷◌, ◌++◌, arith, if◌then◌else◌, ltb, ◌==◌, ==_iff, nat_eq, Bool-cases, length,
  length-append, drop,
}
use oniworks.Prelude.Text.{text_eq}
use oniworks.Realtime.Resume.{Event, RingBuffer, nils, event_at, store_event, new_ring_buffer, push}

mod_wrap : (x m : ℕ) → x < m + m → x % m ≡ (if ltb x m then x else x - m)
mod_wrap x m h = elim (Bool-cases (ltb x m)) [
  | inl less ↦ rw less (mod-eq_of_lt (ground arith))
  | inr more ↦ rw more (mod-eq-sub-mod (ground arith) ∙ mod-eq_of_lt (ground arith))
]

length-nils : (P : Type 0) (n : ℕ) → length (nils {P = P} n) ≡ n
length-nils P zero = refl
length-nils P (suc n) = ap suc (length-nils P n)

module _ {P : Type 0} where
  -- The event at a place.
  abbrev pub nth : List (Event P) → ℕ → Option (Event P)
  nth [] i = none
  nth (x ∷ xs) zero = some x
  nth (x ∷ xs) (suc i) = nth xs i

  event_at-store_event :
      (es : List (Option (Event P))) (i j : ℕ) (e : Option (Event P))
      → i < length es
      → event_at (store_event i e es) j ≡ (if j == i then e else event_at es j)
  event_at-store_event [] i j e h = absurd (omega arith)
  event_at-store_event (x ∷ es) zero zero e h = refl
  event_at-store_event (x ∷ es) zero (suc j) e h = ground arith
  event_at-store_event (x ∷ es) (suc i) zero e h = ground arith
  event_at-store_event (x ∷ es) (suc i) (suc j) e h =
      ground (arith, event_at-store_event es i j e (omega arith))

  length-store_event :
      (es : List (Option (Event P))) (i : ℕ) (e : Option (Event P))
      → length (store_event i e es) ≡ length es
  length-store_event [] i e = refl
  length-store_event (x ∷ es) zero e = refl
  length-store_event (x ∷ es) (suc i) e = ap suc (length-store_event es i e)

  nth-append :
      (xs : List (Event P)) (e : Event P) (i : ℕ)
      → nth (xs ++ e ∷ []) i ≡ (if i == length xs then some e else nth xs i)
  nth-append [] e zero = refl
  nth-append [] e (suc i) = ground arith
  nth-append (x ∷ xs) e zero = ground arith
  nth-append (x ∷ xs) e (suc i) = ground (arith, nth-append xs e i)

  nth-drop_one : (xs : List (Event P)) (i : ℕ) → nth (drop 1 xs) i ≡ nth xs (suc i)
  nth-drop_one [] i = refl
  nth-drop_one (x ∷ xs) i = refl

  -- The buffer holds the events `xs`, from `start` on and around the end of the slice.
  pub record Holds (rb : RingBuffer P) (xs : List (Event P)) : Type 0 where
    pub size : length rb.events ≡ rb.cap
    pub inside : rb.start < rb.cap
    pub counted : rb.count ≡ length xs
    pub fits : length xs ≤ rb.cap
    pub reads : (i : ℕ) → i < length xs → event_at rb.events ((rb.start + i) % rb.cap) ≡ nth xs i

  -- The last events of a list with one more, for a list within the capacity.
  abbrev pub with_event : ℕ → List (Event P) → Event P → List (Event P)
  with_event cap xs e = if length xs == cap then drop 1 (xs ++ e ∷ []) else xs ++ e ∷ []

  module _ (e : Event P) (rb : RingBuffer P) (xs : List (Event P)) (h : Holds rb xs) where
    stored_at :
        (j : ℕ)
        → event_at (store_event ((rb.start + rb.count) % rb.cap) (some e) rb.events) j
          ≡ (if j == (rb.start + rb.count) % rb.cap then some e else event_at rb.events j)
    stored_at j =
        event_at-store_event rb.events ((rb.start + rb.count) % rb.cap) j (some e)
          (rw h.size (mod-lt (rb.start + rb.count) (ground (arith, h.inside))))

    reads_room :
        length xs < rb.cap
        → (i : ℕ) → i < length (xs ++ e ∷ [])
        → event_at
            (store_event ((rb.start + rb.count) % rb.cap) (some e) rb.events)
            ((rb.start + i) % rb.cap)
          ≡ nth (xs ++ e ∷ []) i
    reads_room room i less = ground (
      arith,
      stored_at ((rb.start + i) % rb.cap),
      nth-append xs e i,
      h.counted,
      h.inside,
      length-append xs (e ∷ []),
      h.reads i,
      mod_wrap (rb.start + i) rb.cap,
      mod_wrap (rb.start + rb.count) rb.cap,
    )

    reads_full :
        length xs ≡ rb.cap
        → (i : ℕ) → i < rb.cap
        → event_at
            (store_event ((rb.start + rb.count) % rb.cap) (some e) rb.events)
            (((rb.start + 1) % rb.cap + i) % rb.cap)
          ≡ nth (drop 1 (xs ++ e ∷ [])) i
    reads_full full i less = ground (
      arith,
      stored_at (((rb.start + 1) % rb.cap + i) % rb.cap),
      nth-append xs e (suc i),
      nth-drop_one (xs ++ e ∷ []) i,
      h.counted,
      h.inside,
      mod-add-mod (rb.start + 1) rb.cap i,
      h.reads (suc i),
      mod_wrap (rb.start + 1 + i) rb.cap,
      mod_wrap (rb.start + rb.count) rb.cap,
    )

  length-drop_one :
      (x : Event P) (xs : List (Event P)) (e : Event P)
      → length (drop 1 ((x ∷ xs) ++ e ∷ [])) ≡ length (x ∷ xs)
  length-drop_one x xs e = omega (arith, length-append xs (e ∷ []))

  length-full :
      (xs : List (Event P)) (e : Event P)
      → 0 < length xs
      → length (drop 1 (xs ++ e ∷ [])) ≡ length xs
  length-full [] e h = absurd (omega arith)
  length-full (x ∷ xs) e h = length-drop_one x xs e

  -- A push appends the event, and drops the first one if the buffer is full.
  pub push-Holds :
      (e : Event P) (rb : RingBuffer P) (xs : List (Event P))
      → Holds rb xs
      → Holds (push e rb) (with_event rb.cap xs e)
  unfolding push
  push-Holds e rb xs h = elim (Bool-cases (length xs == rb.cap)) [
    | inl full ↦
        let same : length xs ≡ rb.cap = (==_iff (length xs) rb.cap).0 full in
        let size : length (drop 1 (xs ++ e ∷ [])) ≡ length xs =
          length-full xs e (omega (arith, h.inside)) in
        rw (full, h.counted, full)
          (record {
            size = length-store_event rb.events ((rb.start + length xs) % rb.cap) (some e) ∙ h.size;
            inside = mod-lt (rb.start + 1) (omega (arith, h.inside));
            counted = sym size;
            fits = omega (arith, size);
            reads = λ i less. rw h.counted at (reads_full e rb xs h same i (omega (arith, size)));
          })
    | inr room ↦
        let less_room : length xs < rb.cap = ground (arith, h.fits, ==_iff (length xs) rb.cap) in
        rw (room, h.counted, room)
          (record {
            size = length-store_event rb.events ((rb.start + length xs) % rb.cap) (some e) ∙ h.size;
            inside = h.inside;
            counted = omega (arith, length-append xs (e ∷ []));
            fits = omega (arith, length-append xs (e ∷ []), less_room);
            reads = λ i less. rw h.counted at (reads_room e rb xs h less_room i less);
          })
  ]

  pub new-Holds : (cap : ℕ) → 0 < cap → Holds (new_ring_buffer {P = P} cap) []
  unfolding new_ring_buffer
  new-Holds cap h = record {
    size = length-nils P cap;
    inside = h;
    counted = refl;
    fits = omega arith;
    reads = λ i less. absurd (omega arith);
  }
