-- ===== src/Queue/Memory/Retry.antt =====
-- framework/queue: what becomes of a job that fails whenever it is attempted.
use oniworks.Prelude.{
  ℕ, ◌+◌, ◌*◌, ◌^◌, ◌≤◌, ◌<◌, ◌≡◌, refl, ap, ◌∙◌, Bool, false, Option, none, some, List, [], ◌∷◌,
  ◌++◌, arith, if◌then◌else◌, leb, length, ==-refl,
}
use oniworks.Prelude.Text.{Text, text_eq}
use oniworks.Prelude.Dict.{Dict}
use oniworks.Queue.{
  Payload, Outcome, Verdict, dead_letter, retry, judge, verdict, handled, conclude, safe_handle,
  unmarshal, process, attempted, backoff, second, add_duration, drain,
}
use oniworks.Queue.Backoff.{add_duration-backoff, two-backoff}
use oniworks.Queue.Memory.{
  Memory, items_of, with_items, push, pop, release, popped, take_ready, dead, memory_driver,
}
use oniworks.Queue.Memory.Pop.{items_of-push, items_of-with_items}
use oniworks.Queue.Memory.Drain.{drain-none, drain-some}

-- A round of a worker at a time, on a queue that has at most one payload that is due, while nothing
-- else touches the driver.
poll : {J : Type 0} → Dict Text (Text → Option J) → (J → Outcome) → ℕ → Text → Memory → Memory
poll registry handle t q m = (drain registry handle memory_driver 2 (λ _. t) (λ _ m. m) 0 q m).2

pub polls :
    {J : Type 0} → Dict Text (Text → Option J) → (J → Outcome) → List ℕ → Text → Memory → Memory
unfolding poll
polls registry handle [] q m = m
polls registry handle (t ∷ ts) q m = polls registry handle ts q (poll registry handle t q m)

-- The payload's next attempt is not before the first time, and each other time leaves the backoff
-- from the attempt before.
abbrev pub IsSpaced : ℕ → ℕ → List ℕ → Type 0
IsSpaced available attempts [] = Unit
IsSpaced available attempts (t ∷ ts) =
    (available ≤ t) × IsSpaced (t + 2 ^ (attempts + 1) * second) (attempts + 1) ts

pub pop-one :
    (t : ℕ) (q : Text) (p : Payload) (m : Memory)
    → items_of q m ≡ p ∷ []
    → p.available_at ≤ t
    → pop t q m ≡ (some p, with_items q [] m)
unfolding pop popped take_ready
pop-one t q p m e h = ap (λ (l : List Payload). popped q m (take_ready t l)) e ∙ ground arith

pop-early :
    (t : ℕ) (q : Text) (p : Payload) (m : Memory)
    → items_of q m ≡ p ∷ []
    → t < p.available_at
    → pop t q m ≡ (none, m)
unfolding pop popped take_ready
pop-early t q p m e h = ap (λ (l : List Payload). popped q m (take_ready t l)) e ∙ ground arith

pop-nil : (t : ℕ) (q : Text) (m : Memory) → items_of q m ≡ [] → pop t q m ≡ (none, m)
unfolding pop popped take_ready
pop-nil t q m e = ap (λ (l : List Payload). popped q m (take_ready t l)) e

module _ {J : Type 0} (registry : Dict Text (Text → Option J)) (handle : J → Outcome) where
  -- The job can be made, and it fails.
  pub record IsFailing (p : Payload) : Type 0 where
    pub job : J
    pub made : unmarshal registry p ≡ some job
    pub bad : safe_handle (handle job) ≡ false

  judge-IsFailing :
      (p : Payload)
      → IsFailing p
      → judge registry handle p ≡ (
          if leb p.max_attempts (p.attempts + 1)
          then dead_letter
          else retry (backoff (p.attempts + 1)))
  unfolding judge verdict handled
  judge-IsFailing p h = rw (h.made, verdict, h.bad) refl

  poll_once :
      (t : ℕ) (q : Text) (p : Payload) (m m₁ m₂ : Memory)
      → pop t q m ≡ (some p, m₁)
      → process registry handle memory_driver t p m₁ ≡ m₂
      → pop t q m₂ ≡ (none, m₂)
      → poll registry handle t q m ≡ m₂
  unfolding poll
  poll_once t q p m m₁ m₂ taken made over =
      let clock : ℕ → ℕ = λ n. t in
      ap (λ (r : Bool × ℕ × Memory). r.2)
        (drain-some registry handle 1 clock (λ _ m. m) 0 q m m₁ p taken
          ∙ ap (drain registry handle memory_driver 1 clock (λ _ m. m) 2 q) made
          ∙ drain-none registry handle 0 clock (λ _ m. m) 2 q m₂ over)

  -- What a failed attempt leaves, with attempts left and with none.
  poll-retry :
      (t : ℕ) (p : Payload) (m : Memory)
      → IsFailing p
      → items_of p.queue m ≡ p ∷ []
      → p.available_at ≤ t
      → p.attempts + 1 < p.max_attempts
      → p.max_attempts ≤ 34
      → let m' = poll registry handle t p.queue m in
        (m'.dead ≡ m.dead)
        × (items_of p.queue m'
            ≡ record p {
              attempts = p.attempts + 1;
              available_at = t + 2 ^ (p.attempts + 1) * second;
            }
              ∷ [])
  unfolding process conclude memory_driver push with_items release
  poll-retry t p m h e due left small =
      let k = p.attempts + 1 in
      let p' : Payload = record p { attempts = k; available_at = t + 2 ^ k * second } in
      let m₁ : Memory = with_items p.queue [] m in
      let m₂ : Memory = push p.queue p' m₁ in
      let gone : items_of p.queue m₁ ≡ [] =
        items_of-with_items p.queue p.queue [] m ∙ rw (==-refl p.queue) refl in
      let held : items_of p.queue m₂ ≡ p' ∷ [] =
        items_of-push p.queue p.queue p' m₁
        ∙ rw (==-refl p.queue) (ap (λ (l : List Payload). l ++ p' ∷ []) gone) in
      let later : add_duration t (backoff k) ≡ t + 2 ^ k * second =
        add_duration-backoff t k (omega arith) in
      let judged : judge registry handle p ≡ retry (backoff k) =
        judge-IsFailing p h ∙ ground arith in
      let made : process registry handle memory_driver t p m₁ ≡ m₂ =
        ap (λ (v : Verdict). conclude memory_driver v t (attempted p) m₁) judged
        ∙ ap (λ (a : ℕ). push p.queue (record p { attempts = k; available_at = a }) m₁) later in
      let same : poll registry handle t p.queue m ≡ m₂ =
        poll_once t p.queue p m m₁ m₂ (pop-one t p.queue p m e due) made (
          pop-early t p.queue p' m₂ held
            (ground (arith, two-backoff t k (omega arith) (omega arith)))) in
      (ap (λ (m' : Memory). m'.dead) same, ap (items_of p.queue) same ∙ held)

  poll-dead :
      (t : ℕ) (p : Payload) (m : Memory)
      → IsFailing p
      → items_of p.queue m ≡ p ∷ []
      → p.available_at ≤ t
      → p.attempts + 1 ≡ p.max_attempts
      → let m' = poll registry handle t p.queue m in
        (m'.dead ≡ m.dead ++ attempted p ∷ []) × (items_of p.queue m' ≡ [])
  unfolding process conclude memory_driver dead with_items
  poll-dead t p m h e due left =
      let m₁ : Memory = with_items p.queue [] m in
      let m₂ : Memory = dead (attempted p) m₁ in
      let gone : items_of p.queue m₂ ≡ [] =
        items_of-with_items p.queue p.queue [] m ∙ rw (==-refl p.queue) refl in
      let judged : judge registry handle p ≡ dead_letter = judge-IsFailing p h ∙ ground arith in
      let made : process registry handle memory_driver t p m₁ ≡ m₂ =
        ap (λ (v : Verdict). conclude memory_driver v t (attempted p) m₁) judged in
      let same : poll registry handle t p.queue m ≡ m₂ =
        poll_once t p.queue p m m₁ m₂ (pop-one t p.queue p m e due) made
          (pop-nil t p.queue m₂ gone) in
      (ap (λ (m' : Memory). m'.dead) same, ap (items_of p.queue) same ∙ gone)

  -- A job that fails whenever it is attempted, alone in its queue and polled as often as it has
  -- attempts left, and never before its backoff is over, while nothing else touches the driver, ends
  -- as a dead letter, the only one that is new, with just MaxAttempts attempts, and its queue is
  -- empty. It has at most 34 attempts.
  pub polls_lem :
      (ts : List ℕ) (p : Payload) (m : Memory)
      → IsFailing p
      → items_of p.queue m ≡ p ∷ []
      → p.attempts < p.max_attempts
      → p.max_attempts ≤ 34
      → p.attempts + length ts ≡ p.max_attempts
      → IsSpaced p.available_at p.attempts ts
      → let m' = polls registry handle ts p.queue m in
        (items_of p.queue m' ≡ [])
        × ((d : Payload) × (m'.dead ≡ m.dead ++ d ∷ [])
            × (d.id ≡ p.id)
            × (d.attempts ≡ p.max_attempts))
  unfolding polls unmarshal
  polls_lem [] p m h e left small enough spaced = absurd (omega arith)
  polls_lem (t ∷ []) p m h e left small enough spaced =
      let (new, gone) = poll-dead t p m h e spaced.0 (omega arith) in
      (gone, (attempted p, new, refl, omega arith))
  polls_lem (t ∷ t' ∷ ts) p m h e left small enough spaced =
      let (kept, held) = poll-retry t p m h e spaced.0 (omega arith) small in
      let p' : Payload = record p {
        attempts = p.attempts + 1;
        available_at = t + 2 ^ (p.attempts + 1) * second;
      } in
      let h' : IsFailing p' = record { job = h.job; made = h.made; bad = h.bad } in
      let m₁ : Memory = poll registry handle t p.queue m in
      let (gone, (d, new, same, full)) =
        polls_lem (t' ∷ ts) p' m₁ h' held (omega arith) small (omega arith) spaced.1 in
      (gone, (d, new ∙ ap (λ (l : List Payload). l ++ d ∷ []) kept, same, full))
