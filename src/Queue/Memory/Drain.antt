-- ===== src/Queue/Memory/Drain.antt =====
-- framework/queue/queue.go: the loop of processAll ends.
use oniworks.Prelude.{
  ℕ, zero, suc, ◌+◌, ◌*◌, ◌≤◌, ◌<◌, ◌≡◌, refl, subst, ap, ◌∙◌, inl, inr, true, Option, none, some,
  List, [], ◌∷◌, ◌++◌, arith, Every, if◌then◌else◌, leb, ◌==◌, ==_iff, ==-refl, Bool-cases,
}
use oniworks.Prelude.Text.{Text, text_eq}
use oniworks.Prelude.Dict.{Dict}
use oniworks.Queue.{
  Payload, Outcome, Verdict, finished, dead_letter, retry, judge, conclude, process, attempted,
  second, add_duration, drain,
}
use oniworks.Queue.Backoff.{two-backoff}
use oniworks.Queue.Memory.{Memory, items_of, with_items, pop, release, memory_driver}
use oniworks.Queue.Memory.Pop.{
  IsWaiting, pop_lem, items_of-push, items_of-with_items, Every-with_items, Every-drop,
  conclude-Every,
}
use oniworks.Queue.Memory.Attempts.{judge-retry}

-- How many payloads are due by the time.
abbrev pub due : ℕ → List Payload → ℕ
due end [] = 0
due end (p ∷ ps) = let rest = due end ps in if leb p.available_at end then suc rest else rest

due-append : (end : ℕ) (ps rs : List Payload) → due end (ps ++ rs) ≡ due end ps + due end rs
due-append end [] rs = omega arith
due-append end (p ∷ ps) rs = ground (arith, due-append end ps rs)

due-middle :
    (end : ℕ) (before : List Payload) (p : Payload) (after : List Payload)
    → p.available_at ≤ end
    → due end (before ++ p ∷ after) ≡ suc (due end (before ++ after))
due-middle end before p after h =
    ground (arith, due-append end before (p ∷ after), due-append end before after)

-- Its backoffs stay below 2 ^ 63 nanoseconds.
abbrev pub IsShort : Payload → Type 0
IsShort p = p.max_attempts ≤ 34

due-conclude :
    (v : Verdict) (now end : ℕ) (p : Payload) (m : Memory) (q : Text)
    → ((d : ℕ) → v ≡ retry d → end < add_duration now d)
    → due end (items_of q (conclude memory_driver v now p m)) ≡ due end (items_of q m)
unfolding conclude memory_driver release
due-conclude finished now end p m q h = refl
due-conclude dead_letter now end p m q h = refl
due-conclude (retry d) now end p m q h =
    let p' : Payload = record p { available_at = add_duration now d } in
    rw (items_of-push p.queue q p' m) (elim (Bool-cases (p.queue == q)) [
      | inl same ↦
          let moved = ap (λ (r : Text). due end (items_of r m)) ((==_iff p.queue q).0 same) in
          ground (arith, due-append end (items_of p.queue m) (p' ∷ []), h d refl)
      | inr other ↦ rw other refl
    ])

module _ {J : Type 0} (registry : Dict Text (Text → Option J)) (handle : J → Outcome) where
  judge-late :
      (now end : ℕ) (p : Payload)
      → IsShort p
      → end < now + 2 * second
      → (d : ℕ) → judge registry handle p ≡ retry d
      → end < add_duration now d
  judge-late now end p short window d e =
      let (left, long) = judge-retry registry handle p d e in
      ground (arith, two-backoff now (p.attempts + 1))

  pub drain-none :
      (fuel : ℕ) (clock : ℕ → ℕ) (others : ℕ → Memory → Memory) (n : ℕ) (q : Text) (m : Memory)
      → pop (clock n) q m ≡ (none, m)
      → drain registry handle memory_driver (suc fuel) clock others n q m ≡ (true, n + 1, m)
  unfolding drain memory_driver
  drain-none fuel clock others n q m e =
      rw (e, drain) (ap (λ (r : Option Payload × Memory). (true, n + 1, r.1)) e)

  -- What a round leaves that takes a payload, from what Pop leaves.
  abbrev pub round : (ℕ → ℕ) → (ℕ → Memory → Memory) → ℕ → Payload → Memory → Memory
  round clock others n p m =
      others (n + 1) (process registry handle memory_driver (clock (n + 1)) p (others n m))

  pub drain-some :
      (fuel : ℕ) (clock : ℕ → ℕ) (others : ℕ → Memory → Memory) (n : ℕ) (q : Text) (m m' : Memory)
      (p : Payload)
      → pop (clock n) q m ≡ (some p, m')
      → drain registry handle memory_driver (suc fuel) clock others n q m
        ≡ drain registry handle memory_driver fuel clock others
            (n + 2)
            q
            (round clock others n p m')
  unfolding drain memory_driver
  drain-some fuel clock others n q m m' p e =
      rw (e, drain)
        (ap
          (λ (r : Option Payload × Memory).
            drain registry handle memory_driver fuel clock others (n + 2) q
              (round clock others n p r.1))
          e)

  -- The loop of processAll on one queue ends, whatever the jobs and other workers and dispatchers do
  -- in between, on these conditions: all of it falls within two seconds; the payloads of the queue
  -- have at most 34 attempts; and what the jobs and the others do adds no payload with more, and does
  -- not raise the number of payloads of the queue that are due by the end. Any bound on the rounds
  -- that is greater than that number is enough. After the loop every payload of the queue is still in
  -- the future, at the time that the last Pop read.
  pub drain_lem :
      (fuel : ℕ) (clock : ℕ → ℕ) (others : ℕ → Memory → Memory) (n end : ℕ) (q : Text) (m : Memory)
      → ((k : ℕ) → (clock k ≤ end) × (end < clock k + 2 * second))
      → ((k : ℕ) (d : Memory)
          → Every IsShort (items_of q d)
          → Every IsShort (items_of q (others k d))
            × (due end (items_of q (others k d)) ≤ due end (items_of q d)))
      → Every IsShort (items_of q m)
      → due end (items_of q m) < fuel
      → (k : ℕ) × (m' : Memory) × (drain registry handle memory_driver fuel clock others n q m
          ≡ (true, suc k, m'))
        × Every (IsWaiting (clock k)) (items_of q m')
  unfolding process
  drain_lem zero clock others n end q m window tame short enough = absurd (omega arith)
  drain_lem (suc fuel) clock others n end q m window tame short enough =
      elim (pop_lem (clock n) q m) [
        | inl (w, e) ↦ (
          n,
          m,
          drain-none fuel clock others n q m e ∙ ap (λ (i : ℕ). (true, i, m)) (omega arith),
          w,
        )
        | inr (s, e) ↦
            let v = judge registry handle s.chosen in
            let m₁ : Memory = with_items q (s.before ++ s.behind) m in
            let m₂ : Memory = others n m₁ in
            let m₃ : Memory = process registry handle memory_driver (clock (n + 1)) s.chosen m₂ in
            let (own, rest) =
              Every-drop IsShort s.before s.chosen s.behind (subst (Every IsShort) s.whole short) in
            let (short₂, less₂) =
              tame n m₁ (Every-with_items IsShort q q (s.before ++ s.behind) m short rest) in
            let short₃ : Every IsShort (items_of q m₃) =
              conclude-Every IsShort v (clock (n + 1)) (attempted s.chosen) m₂ q short₂
                (λ d r home. own) in
            let (short₄, less₄) = tame (n + 1) m₃ short₃ in
            let enough₄ : due end (items_of q (others (n + 1) m₃)) < fuel = ground (
              arith,
              less₂,
              less₄,
              ap (due end) s.whole,
              due-middle end s.before s.chosen s.behind,
              s.ready,
              window n,
              ap (due end) (items_of-with_items q q (s.before ++ s.behind) m),
              ==-refl q,
              due-conclude v (clock (n + 1)) end (attempted s.chosen) m₂ q
                  (judge-late (clock (n + 1)) end s.chosen own (window (n + 1)).1),
            ) in
            let (k, m', ends, w) =
              drain_lem fuel clock others (n + 2) end q (others (n + 1) m₃) window tame short₄
                enough₄ in
            (k, m', drain-some fuel clock others n q m m₁ s.chosen e ∙ ends, w)
      ]
