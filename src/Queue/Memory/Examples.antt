-- ===== src/Queue/Memory/Examples.antt =====
-- framework/queue: a queue with two payloads, and a job that fails.
use oniworks.Prelude.{
  ◌≤◌, ℕ, suc, ◌+◌, ◌*◌, ◌<◌, ◌≡◌, refl, sym, subst, ap, ◌∙◌, ◌⊎◌, true, Option, none, some, List,
  [], ◌∷◌, ◌++◌, arith, Every,
}
use oniworks.Prelude.Text.{Text, text_eq, codes}
use oniworks.Prelude.Dict
use oniworks.Prelude.Dict.{Dict}
use oniworks.Queue.{
  Payload, Outcome, fails, backoff, second, add_duration, drain, dispatch, new_payload, decode,
  unmarshal, safe_handle,
}
use oniworks.Queue.Backoff.{add_duration-backoff_overflow}
use oniworks.Queue.Memory.{Memory, new_memory, items_of, with_items, push, pop, memory_driver}
use oniworks.Queue.Memory.Pop.{Split, IsWaiting, pop_lem, items_of-push, items_of-new_memory}
use oniworks.Queue.Memory.Conserve.{
  Farm, new_farm, Reach, dispatches, takes, here, next, IsKept, Reach-IsKept,
}
use oniworks.Queue.Memory.Attempts.{IsBounded, Reach-IsBounded}
use oniworks.Queue.Memory.Drain.{due, IsShort, drain_lem}
use oniworks.Queue.Memory.Retry.{pop-one, polls, polls_lem}

-- The class "m" is registered; its job is the body.
abbrev registry : Dict Text (Text → Option Text)
registry = Dict.put Dict.empty (codes "m") (λ body. some body)

abbrev failing : Text → Outcome
failing job = fails

abbrev mail : Text → ℕ → Payload
mail id at = record {
  class = codes "m";
  body = [];
  id = id;
  attempts = 0;
  max_attempts = 2;
  queue = codes "q";
  available_at = at;
}

abbrev one_mail : Memory
one_mail = push (codes "q") (mail (codes "a") 90) new_memory

items-one_mail : items_of (codes "q") one_mail ≡ mail (codes "a") 90 ∷ []
items-one_mail =
    items_of-push (codes "q") (codes "q") (mail (codes "a") 90) new_memory
    ∙ ap (λ (l : List Payload). l ++ mail (codes "a") 90 ∷ []) (items_of-new_memory (codes "q"))

abbrev two_mails : Memory
two_mails = push (codes "q") (mail (codes "b") 5) one_mail

pop_lem_example :
    (Every (IsWaiting 7) (items_of (codes "q") two_mails)
      × (pop 7 (codes "q") two_mails ≡ (none, two_mails)))
    ⊎ ((s : Split 7 (items_of (codes "q") two_mails)) × (pop 7 (codes "q") two_mails
          ≡ (some s.chosen, with_items (codes "q") (s.before ++ s.behind) two_mails)))
pop_lem_example = pop_lem 7 (codes "q") two_mails

add_duration-backoff_overflow_example : add_duration 100 (backoff 60) ≡ 100
add_duration-backoff_overflow_example = add_duration-backoff_overflow 100 60 (omega arith)

items-two_mails : items_of (codes "q") two_mails ≡ mail (codes "a") 90 ∷ mail (codes "b") 5 ∷ []
items-two_mails =
    items_of-push (codes "q") (codes "q") (mail (codes "b") 5) one_mail
    ∙ ap (λ (l : List Payload). l ++ mail (codes "b") 5 ∷ []) items-one_mail

due_two : due 100 (mail (codes "a") 90 ∷ mail (codes "b") 5 ∷ []) < 5
due_two = omega arith

-- Each job dispatches one to another queue.
abbrev dispatches_more : ℕ → Memory → Memory
dispatches_more k m = push (codes "later") (mail (codes "c") 5) m

items-dispatches_more :
    (k : ℕ) (m : Memory) → items_of (codes "q") (dispatches_more k m) ≡ items_of (codes "q") m
items-dispatches_more k m = items_of-push (codes "later") (codes "q") (mail (codes "c") 5) m

dispatches_more-tame :
    (k : ℕ) (d : Memory)
    → Every IsShort (items_of (codes "q") d)
    → Every IsShort (items_of (codes "q") (dispatches_more k d))
      × (due 100 (items_of (codes "q") (dispatches_more k d)) ≤ due 100 (items_of (codes "q") d))
dispatches_more-tame k d h = (
  subst (Every IsShort) (sym (items-dispatches_more k d)) h,
  omega (arith, ap (due 100) (items-dispatches_more k d)),
)

drain_lem_example :
    (k : ℕ) × (m' : Memory) × (drain registry failing memory_driver 5
        (λ k. 100)
        dispatches_more
        0
        (codes "q")
        two_mails
      ≡ (true, suc k, m'))
    × Every (IsWaiting 100) (items_of (codes "q") m')
drain_lem_example =
    drain_lem registry failing 5 (λ k. 100) dispatches_more 0 100 (codes "q") two_mails
      (λ k. (omega arith, omega arith)) dispatches_more-tame
      (subst (Every IsShort) (sym items-two_mails) (omega arith, (omega arith, tt)))
      (subst (λ (l : List Payload). due 100 l < 5) (sym items-two_mails) (due_two))

unmarshal-mail : unmarshal registry (mail (codes "a") 90) ≡ some []
unfolding unmarshal
unmarshal-mail =
    ap (λ (f : Option (Text → Option Text)). decode f [])
      (Dict.get-put Dict.empty (codes "m") (codes "m") (λ body. some body))

polls_lem_example :
    let m' = polls registry failing (100 ∷ (100 + 2 * second) ∷ []) (codes "q") one_mail in
    (items_of (codes "q") m' ≡ [])
    × ((d : Payload) × (m'.dead ≡ one_mail.dead ++ d ∷ []) × (d.id ≡ codes "a") × (d.attempts ≡ 2))
unfolding safe_handle
polls_lem_example =
    polls_lem registry failing (100 ∷ (100 + 2 * second) ∷ []) (mail (codes "a") 90) one_mail
      (record { job = []; made = unmarshal-mail; bad = refl }) items-one_mail (omega arith)
      (omega arith) (omega arith) (omega arith, (omega arith, tt))

-- The payload is dispatched, a worker takes it, and its job succeeds.
abbrev sent : Payload
sent = new_payload 3 (codes "q") (codes "m") [] (codes "a") 0 none

abbrev after_dispatch : Farm
after_dispatch = record new_farm {
  memory =
      (dispatch memory_driver 3 (codes "q") (codes "m") (some []) (codes "a") 0 none
        new_farm.memory).1;
  sent = sent ∷ new_farm.sent;
}

abbrev after_take : Farm
after_take = record after_dispatch {
  memory = with_items (codes "q") [] after_dispatch.memory;
  busy = sent ∷ [];
}

pop-after_dispatch : pop 8 (codes "q") after_dispatch.memory ≡ (some sent, after_take.memory)
unfolding dispatch memory_driver new_payload new_farm new_memory
pop-after_dispatch =
    pop-one 8 (codes "q") sent after_dispatch.memory
      (items_of-push (codes "q") (codes "q") sent new_memory
        ∙ ap (λ (l : List Payload). l ++ sent ∷ []) (items_of-new_memory (codes "q")))
      (omega arith)

history : Reach registry new_farm after_take
unfolding new_farm
history =
    next (next here (dispatches new_farm 3 (codes "q") (codes "m") [] (codes "a") 0 none))
      (takes after_dispatch 8 (codes "q") sent after_take.memory pop-after_dispatch)

Reach-IsKept_example : IsKept after_take
Reach-IsKept_example = Reach-IsKept registry history

Reach-IsBounded_example : IsBounded registry after_take
Reach-IsBounded_example = Reach-IsBounded registry history
