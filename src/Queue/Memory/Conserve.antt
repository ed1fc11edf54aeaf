-- ===== src/Queue/Memory/Conserve.antt =====
-- framework/queue: workers that share the memory driver neither lose nor repeat a payload.
-- A worker holds a payload between Pop and what process makes of it; the other workers and
-- Dispatch go on meanwhile, also from within a job, so the steps interleave in any order.
use oniworks.Prelude.{
  ℕ, suc, ◌+◌, ◌≡◌, sym, ap, subst, inl, inr, ◌&&◌, Option, some, List, [], ◌∷◌, ◌++◌, arith,
  if◌then◌else◌, Every, ◌==◌, ==_iff, Bool-cases,
}
use oniworks.Prelude.Text.{Text, text_eq}
use oniworks.Prelude.Dict
use oniworks.Prelude.Dict.{Dict}
use oniworks.Queue.{
  Payload, Outcome, Verdict, finished, dead_letter, retry, new_payload, dispatch, judge, conclude,
  process, attempted, add_duration,
}
use oniworks.Queue.Memory.{Memory, new_memory, items_of, with_items, push, pop, memory_driver}
use oniworks.Queue.Memory.Pop.{
  items_of-with_items, items_of-push, Every-push, pop-some, Every-drop, conclude-Every,
}

-- The driver, the payloads that workers hold, those whose job has returned nil, and all that
-- Dispatch has pushed.
pub record Farm : Type 0 where
  pub memory : Memory
  pub busy : List Payload
  pub done : List Payload
  pub sent : List Payload

unfoldable pub new_farm : Farm
unfolding new_memory
new_farm = record { memory = new_memory; busy = []; done = []; sent = [] }

abbrev pub done_with : Verdict → Payload → List Payload → List Payload
done_with finished p ps = p ∷ ps
done_with dead_letter p ps = ps
done_with (retry d) p ps = ps

module _ {J : Type 0} (registry : Dict Text (Text → Option J)) where
  pub data Step : Farm → Farm → Type 0 where
    dispatches :
        (f : Farm) (now : ℕ) (q class body id : Text) (delay : ℕ) (opts : Option ℕ)
        → Step f (record f {
          memory = (dispatch memory_driver now q class (some body) id delay opts f.memory).1;
          sent = new_payload now q class body id delay opts ∷ f.sent;
        })
    takes :
        (f : Farm) (now : ℕ) (q : Text) (p : Payload) (m : Memory)
        → pop now q f.memory ≡ (some p, m)
        → Step f (record f { memory = m; busy = p ∷ f.busy })
    processes :
        (f : Farm) (now : ℕ) (handle : J → Outcome) (before after : List Payload) (p : Payload)
        → f.busy ≡ before ++ p ∷ after
        → Step f (record f {
          memory = process registry handle memory_driver now p f.memory;
          busy = before ++ after;
          done = done_with (judge registry handle p) (attempted p) f.done;
        })

  pub data Reach (s : Farm) : Farm → Type 0 where
    here : Reach s s
    next : {f g : Farm} → Reach s f → Step f g → Reach s g

-- How many payloads of the list were sent to the queue under the id.
pub tally : Text → Text → List Payload → ℕ
tally q id [] = 0
tally q id (p ∷ ps) =
    let rest = tally q id ps in if (p.queue == q) && (p.id == id) then suc rest else rest

tally-append :
    (q id : Text) (ps rs : List Payload) → tally q id (ps ++ rs) ≡ tally q id ps + tally q id rs
unfolding tally
tally-append q id [] rs = omega arith
tally-append q id (p ∷ ps) rs = ground (arith, tally-append q id ps rs)

abbrev pub IsHome : Text → Payload → Type 0
IsHome q p = p.queue ≡ q

-- Each queue's list holds what was sent to that queue, and every payload that was sent stands in
-- one place, once for each time that it was sent.
abbrev pub IsKept : Farm → Type 0
IsKept f =
    (q id : Text)
    → Every (IsHome q) (items_of q f.memory)
      × (tally q id (items_of q f.memory)
            + tally q id f.busy
            + tally q id f.memory.dead
            + tally q id f.done
          ≡ tally q id f.sent)

-- What is sent to a queue stands in its list, at the end.
tally-push :
    (p : Payload) (m : Memory) (q id : Text)
    → tally q id (items_of q (push p.queue p m)) ≡ tally q id (items_of q m) + tally q id (p ∷ [])
unfolding tally
tally-push p m q id = rw (items_of-push p.queue q p m) (elim (Bool-cases (p.queue == q)) [
  | inl same ↦
      let moved = ap (λ (r : Text). tally q id (items_of r m)) ((==_iff p.queue q).0 same) in
      ground (arith, tally-append q id (items_of p.queue m) (p ∷ []))
  | inr other ↦ ground arith
])

conclude-tally :
    (v : Verdict) (now : ℕ) (p : Payload) (m : Memory) (ps : List Payload) (q id : Text)
    → let m' = conclude memory_driver v now p m in
      tally q id (items_of q m') + tally q id m'.dead + tally q id (done_with v p ps)
      ≡ tally q id (items_of q m) + tally q id m.dead + tally q id ps + tally q id (p ∷ [])
unfolding conclude memory_driver tally items_of
conclude-tally finished now p m ps q id = ground arith
conclude-tally dead_letter now p m ps q id = ground (arith, tally-append q id m.dead (p ∷ []))
conclude-tally (retry d) now p m ps q id =
    ground (arith, tally-push (record p { available_at = add_duration now d }) m q id)

dispatch-IsKept :
    (p : Payload) (f : Farm)
    → IsKept f
    → IsKept (record f { memory = push p.queue p f.memory; sent = p ∷ f.sent })
unfolding push with_items tally
dispatch-IsKept p f h q id = (
  Every-push (IsHome q) p.queue q p f.memory (h q id).0 (λ e. e),
  ground (arith, tally-push p f.memory q id, (h q id).1),
)

tally-middle :
    (q id : Text) (before : List Payload) (p : Payload) (after : List Payload)
    → tally q id (before ++ p ∷ after) ≡ tally q id (before ++ after) + tally q id (p ∷ [])
unfolding tally
tally-middle q id before p after =
    ground (arith, tally-append q id before (p ∷ after), tally-append q id before after)

-- The payload that is taken from the list moves to the worker.
take-IsKept :
    (f : Farm) (r : Text) (p : Payload) (before after : List Payload)
    → items_of r f.memory ≡ before ++ p ∷ after
    → IsKept f
    → IsKept (record f { memory = with_items r (before ++ after) f.memory; busy = p ∷ f.busy })
unfolding tally with_items
take-IsKept f r p before after e h q id =
    let home : Every (IsHome r) (before ++ p ∷ after) = subst (Every (IsHome r)) e (h r id).0 in
    let (local, left) = Every-drop (IsHome r) before p after home in
    rw (items_of-with_items r q (before ++ after) f.memory) (elim (Bool-cases (r == q)) [
      | inl same ↦
          let moved = (==_iff r q).0 same in
          rw same (
            subst (λ (x : Text). Every (IsHome x) (before ++ after)) moved left,
            ground (
              arith,
              (h q id).1,
              tally-middle q id before p after,
              ap (tally q id) e,
              ap (λ (x : Text). tally q id (items_of x f.memory)) moved,
            ),
          )
      | inr other ↦
          rw other ((h q id).0, ground (arith, (h q id).1, local, ==_iff r q, ==_iff p.queue q))
    ])

process-IsKept :
    (v : Verdict) (now : ℕ) (p : Payload) (before after : List Payload) (f : Farm)
    → f.busy ≡ before ++ p ∷ after
    → IsKept f
    → IsKept (record f {
      memory = conclude memory_driver v now (attempted p) f.memory;
      busy = before ++ after;
      done = done_with v (attempted p) f.done;
    })
unfolding conclude memory_driver tally
process-IsKept v now p before after f e h q id = (
  conclude-Every (IsHome q) v now (attempted p) f.memory q (h q id).0 (λ d r e. e),
  ground (
    arith,
    conclude-tally v now (attempted p) f.memory f.done q id,
    tally-middle q id before p after,
    (h q id).1,
    ap (tally q id) e,
  ),
)

module _ {J : Type 0} (registry : Dict Text (Text → Option J)) where
  Step-IsKept : {f g : Farm} → Step registry f g → IsKept f → IsKept g
  unfolding dispatch push memory_driver process conclude
  Step-IsKept (dispatches f now q class body id delay opts) h =
      dispatch-IsKept (new_payload now q class body id delay opts) f h
  Step-IsKept (takes f now q p m e) h =
      let (s, same, left) = pop-some now q f.memory m p e in
      subst (λ (m' : Memory). IsKept (record f { memory = m'; busy = p ∷ f.busy })) (sym left)
        (take-IsKept f q p s.before s.behind
          (subst (λ (c : Payload). items_of q f.memory ≡ s.before ++ c ∷ s.behind) (sym same)
            s.whole)
          h)
  Step-IsKept (processes f now handle before after p e) h =
      process-IsKept (judge registry handle p) now p before after f e h

  -- However dispatchers and workers take turns from an empty driver: of the payloads that were sent
  -- to a queue under an id, as many as were sent stand in the queue, with a worker, among the dead
  -- letters or among the finished ones, so none is lost and none is there twice; and what stands in
  -- a queue was sent to it.
  pub Reach-IsKept : {f : Farm} → Reach registry new_farm f → IsKept f
  unfolding new_farm new_memory items_of tally
  Reach-IsKept here = λ q id. ground (arith, Dict.get-empty {V = List Payload} q)
  Reach-IsKept (next r s) = Step-IsKept s (Reach-IsKept r)
