-- ===== src/Queue/Memory/Attempts.antt =====
-- framework/queue: how often a job is attempted, and which payloads become dead letters.
use oniworks.Prelude.{
  ℕ, ◌+◌, ◌≤◌, ◌<◌, ◌≡◌, refl, sym, subst, ap, ◌∙◌, ◌⊎◌, inl, inr, Bool, true, false, Option, none,
  some, List, [], ◌∷◌, ◌++◌, arith, Every, Every-append, Option-cases,
}
use oniworks.Prelude.Text.{Text, text_eq}
use oniworks.Prelude.Dict.{Dict}
use oniworks.Queue.{
  Payload, Outcome, Verdict, finished, dead_letter, retry, new_payload, dispatch, judge, verdict,
  handled, safe_handle, unmarshal, conclude, process, attempted, backoff,
}
use oniworks.Queue.Memory.{Memory, new_memory, items_of, with_items, memory_driver}
use oniworks.Queue.Memory.Pop.{
  pop-some, Every-push, Every-with_items, Every-drop, items_of-new_memory, conclude-Every,
}
use oniworks.Queue.Memory.Conserve.{
  Farm, new_farm, Step, dispatches, takes, processes, Reach, here, next, done_with,
}

-- It has attempts left.
abbrev pub IsFresh : Payload → Type 0
IsFresh p = p.attempts < p.max_attempts

-- It was attempted, and not too often.
abbrev pub IsTried : Payload → Type 0
IsTried p = (1 ≤ p.attempts) × (p.attempts ≤ p.max_attempts)

handled-dead_letter :
    (b : Bool) (attempts max_attempts : ℕ)
    → handled b attempts max_attempts ≡ dead_letter
    → attempts ≤ max_attempts
    → attempts ≡ max_attempts
unfolding handled
handled-dead_letter true attempts max_attempts e h = cc
handled-dead_letter false attempts max_attempts e h = ground arith

handled-retry :
    (b : Bool) (attempts max_attempts d : ℕ)
    → handled b attempts max_attempts ≡ retry d
    → (attempts < max_attempts) × (d ≡ backoff attempts)
unfolding handled
handled-retry true attempts max_attempts d e = cc
handled-retry false attempts max_attempts d e = ground arith

IsFresh-new_payload :
    (now : ℕ) (q class body id : Text) (delay : ℕ) (opts : Option ℕ)
    → IsFresh (new_payload now q class body id delay opts)
unfolding new_payload
IsFresh-new_payload now q class body id delay none = omega arith
IsFresh-new_payload now q class body id delay (some n) = ground arith

module _ {J : Type 0} (registry : Dict Text (Text → Option J)) where
  -- It was attempted as often as it may be, or the registry cannot make its job.
  abbrev pub IsDeadLetter : Payload → Type 0
  IsDeadLetter p = IsTried p × ((p.attempts ≡ p.max_attempts) ⊎ (unmarshal registry p ≡ none))

  pub record IsBounded (f : Farm) : Type 0 where
    pub pending : (q : Text) → Every IsFresh (items_of q f.memory)
    pub busy : Every IsFresh f.busy
    pub dead : Every IsDeadLetter f.memory.dead
    pub done : Every IsTried f.done

  -- The branches of process.
  judge-dead_letter :
      (handle : J → Outcome) (p : Payload)
      → judge registry handle p ≡ dead_letter
      → IsFresh p
      → IsDeadLetter (attempted p)
  unfolding judge unmarshal
  judge-dead_letter handle p e h = (
    (omega arith, omega arith),
    elim (Option-cases (unmarshal registry p)) [
      | inl n ↦ inr n
      | inr (job, j) ↦ inl (
          handled-dead_letter (safe_handle (handle job)) (p.attempts + 1) p.max_attempts
            (ap (λ (o : Option J). verdict registry handle o (p.attempts + 1) p.max_attempts)
                (sym j)
              ∙ e)
            (omega arith))
    ],
  )

  pub judge-retry :
      (handle : J → Outcome) (p : Payload) (d : ℕ)
      → judge registry handle p ≡ retry d
      → (p.attempts + 1 < p.max_attempts) × (d ≡ backoff (p.attempts + 1))
  unfolding judge
  judge-retry handle p d e = elim (Option-cases (unmarshal registry p)) [
    | inl n ↦
        let never : dead_letter ≡ retry d =
          ap (λ (o : Option J). verdict registry handle o (p.attempts + 1) p.max_attempts) (sym n)
          ∙ e in
        cc
    | inr (job, j) ↦ handled-retry (safe_handle (handle job)) (p.attempts + 1) p.max_attempts d (
        ap (λ (o : Option J). verdict registry handle o (p.attempts + 1) p.max_attempts) (sym j)
        ∙ e)
  ]

  conclude-dead :
      (v : Verdict) (now : ℕ) (p : Payload) (m : Memory)
      → Every IsDeadLetter m.dead
      → (v ≡ dead_letter → IsDeadLetter p)
      → Every IsDeadLetter (conclude memory_driver v now p m).dead
  unfolding conclude memory_driver
  conclude-dead finished now p m h new = h
  conclude-dead dead_letter now p m h new =
      (Every-append IsDeadLetter m.dead (p ∷ [])).1 (h, (new refl, tt))
  conclude-dead (retry d) now p m h new = h

  done_with-IsTried :
      (v : Verdict) (p : Payload) (ps : List Payload)
      → Every IsTried ps
      → IsTried p
      → Every IsTried (done_with v p ps)
  done_with-IsTried finished p ps h t = (t, h)
  done_with-IsTried dead_letter p ps h t = h
  done_with-IsTried (retry d) p ps h t = h

  Step-IsBounded : {f g : Farm} → Step registry f g → IsBounded f → IsBounded g
  unfolding dispatch memory_driver process with_items
  Step-IsBounded (dispatches f now q class body id delay opts) h = record {
    pending = λ r.
        Every-push IsFresh q r (new_payload now q class body id delay opts) f.memory (h.pending r)
          (λ e. IsFresh-new_payload now q class body id delay opts);
    busy = h.busy;
    dead = h.dead;
    done = h.done;
  }
  Step-IsBounded (takes f now q p m e) h =
      let (s, same, left) = pop-some now q f.memory m p e in
      let fresh =
        Every-drop IsFresh s.before s.chosen s.behind
          (subst (Every IsFresh) s.whole (h.pending q)) in
      record {
        pending = λ r.
            subst (λ (m' : Memory). Every IsFresh (items_of r m')) (sym left)
              (Every-with_items IsFresh q r (s.before ++ s.behind) f.memory (h.pending r) fresh.1);
        busy = (subst IsFresh (sym same) fresh.0, h.busy);
        dead = subst (λ (m' : Memory). Every IsDeadLetter m'.dead) (sym left) h.dead;
        done = h.done;
      }
  Step-IsBounded (processes f now handle before after p e) h =
      let (fresh, others) = Every-drop IsFresh before p after (subst (Every IsFresh) e h.busy) in
      let v = judge registry handle p in
      record {
        pending = λ q.
            conclude-Every IsFresh v now (attempted p) f.memory q (h.pending q)
              (λ d r home. (judge-retry handle p d r).0);
        busy = others;
        dead =
            conclude-dead v now (attempted p) f.memory h.dead
              (λ e'. judge-dead_letter handle p e' fresh);
        done = done_with-IsTried v (attempted p) f.done h.done (omega arith, omega arith);
      }

  -- However dispatchers and workers take turns from an empty driver: a payload that waits or that a
  -- worker holds has attempts left, none is attempted more often than its MaxAttempts, and a dead
  -- letter was attempted just so often, unless the registry cannot make its job.
  pub Reach-IsBounded : {f : Farm} → Reach registry new_farm f → IsBounded f
  unfolding new_farm new_memory
  Reach-IsBounded here = record {
    pending = λ q. subst (Every IsFresh) (sym (items_of-new_memory q)) tt;
    busy = tt;
    dead = tt;
    done = tt;
  }
  Reach-IsBounded (next r s) = Step-IsBounded s (Reach-IsBounded r)
