-- ===== src/Queue/Memory/Pop.antt =====
-- framework/queue/drivers/memory.go: which payload Pop returns, and what the others are after it.
use oniworks.Prelude.{
  ℕ, ◌≤◌, ◌<◌, ◌≡◌, refl, sym, ap, ◌⊎◌, inl, inr, none, some, List, [], ◌∷◌, ◌++◌, arith,
  if◌then◌else◌, leb, Every, Every-append, subst, ◌==◌, ==_iff, Bool-cases,
}
use oniworks.Prelude.Text.{Text, text_eq}
use oniworks.Prelude.Dict
use oniworks.Queue.{Payload, Verdict, finished, dead_letter, retry, conclude, add_duration}
use oniworks.Queue.Memory.{
  Memory, new_memory, or_nil, items_of, with_items, push, take_ready, popped, pop, dead,
  memory_driver,
}

-- Its time has not come.
abbrev pub IsWaiting : ℕ → Payload → Type 0
IsWaiting now p = now < p.available_at

-- A payload, the first of a list that is ready, and what stands before and after it.
pub record Split (now : ℕ) (items : List Payload) : Type 0 where
  pub before : List Payload
  pub chosen : Payload
  pub behind : List Payload
  pub whole : items ≡ before ++ chosen ∷ behind
  pub waiting : Every (IsWaiting now) before
  pub ready : chosen.available_at ≤ now
  pub taken : take_ready now items ≡ some (chosen, before ++ behind)

pub take_ready-cases :
    (now : ℕ) (items : List Payload)
    → (Every (IsWaiting now) items × (take_ready now items ≡ none)) ⊎ Split now items
unfolding take_ready
take_ready-cases now [] = inl (tt, refl)
take_ready-cases now (p ∷ items) = elim (Bool-cases (leb p.available_at now)) [
  | inl due ↦ inr (record {
    before = [];
    chosen = p;
    behind = items;
    whole = refl;
    waiting = tt;
    ready = ground arith;
    taken = rw due refl;
  })
  | inr early ↦ elim (take_ready-cases now items) [
    | inl (w, e) ↦ inl ((ground arith, w), rw (early, e) refl)
    | inr s ↦ inr (record {
      before = p ∷ s.before;
      chosen = s.chosen;
      behind = s.behind;
      whole = ap (λ (l : List Payload). p ∷ l) s.whole;
      waiting = (ground arith, s.waiting);
      ready = s.ready;
      taken = rw (early, s.taken) refl;
    })
  ]
]

-- Pop returns the first payload of the queue whose time has come, and leaves the others of the
-- queue in their order; where every payload is still in the future, or there is none, it returns
-- nothing and changes nothing.
pub pop_lem :
    (now : ℕ) (q : Text) (m : Memory)
    → (Every (IsWaiting now) (items_of q m) × (pop now q m ≡ (none, m)))
      ⊎ ((s : Split now (items_of q m)) × (pop now q m
            ≡ (some s.chosen, with_items q (s.before ++ s.behind) m)))
unfolding pop popped
pop_lem now q m = elim (take_ready-cases now (items_of q m)) [
  | inl (w, e) ↦ inl (w, rw e refl)
  | inr s ↦ inr (s, rw (s.taken) refl)
]

pub items_of-with_items :
    (q r : Text) (items : List Payload) (m : Memory)
    → items_of r (with_items q items m) ≡ (if q == r then items else items_of r m)
unfolding items_of with_items
items_of-with_items q r items m = ground (arith, Dict.get-put m.queues q r items)

-- What each operation does to the items of each queue.
pub items_of-push :
    (q r : Text) (p : Payload) (m : Memory)
    → items_of r (push q p m) ≡ (if q == r then items_of q m ++ p ∷ [] else items_of r m)
unfolding push
items_of-push q r p m = items_of-with_items q r (items_of q m ++ p ∷ []) m

pub items_of-dead : (q : Text) (p : Payload) (m : Memory) → items_of q (dead p m) ≡ items_of q m
unfolding items_of dead
items_of-dead q p m = refl

pub Every-push {κ} :
    (P : Payload → Type κ) (q r : Text) (p : Payload) (m : Memory)
    → Every P (items_of r m)
    → (q ≡ r → P p)
    → Every P (items_of r (push q p m))
Every-push P q r p m h new =
    subst (Every P) (sym (items_of-push q r p m)) (elim (Bool-cases (q == r)) [
      | inl same ↦
          let e = (==_iff q r).0 same in
          rw (same, e) ((Every-append P (items_of r m) (p ∷ [])).1 (h, (new e, tt)))
      | inr other ↦ rw (other) h
    ])

-- The converse of pop_lem, for a Pop that returns a payload.
pub pop-some :
    (now : ℕ) (q : Text) (m m' : Memory) (p : Payload)
    → pop now q m ≡ (some p, m')
    → (s : Split now (items_of q m)) × (p ≡ s.chosen) × (m' ≡ with_items q (s.before ++ s.behind) m)
pop-some now q m m' p e = elim (pop_lem now q m) [ inl (w, n) ↦ cc | inr (s, n) ↦ (s, cc, cc) ]

pub Every-drop {κ} :
    (P : Payload → Type κ) (before : List Payload) (p : Payload) (after : List Payload)
    → Every P (before ++ p ∷ after)
    → P p × Every P (before ++ after)
Every-drop P [] p after h = h
Every-drop P (b ∷ before) p after h =
    let (here, left) = Every-drop P before p after h.1 in (here, (h.0, left))

-- What process leaves of a payload satisfies what holds of a queue's other payloads.
pub conclude-Every {κ} :
    (P : Payload → Type κ) (v : Verdict) (now : ℕ) (p : Payload) (m : Memory) (q : Text)
    → Every P (items_of q m)
    → ((d : ℕ) → v ≡ retry d → p.queue ≡ q → P (record p { available_at = add_duration now d }))
    → Every P (items_of q (conclude memory_driver v now p m))
unfolding conclude memory_driver items_of
conclude-Every P finished now p m q h new = h
conclude-Every P dead_letter now p m q h new = h
conclude-Every P (retry d) now p m q h new =
    Every-push P p.queue q (record p { available_at = add_duration now d }) m h (new d refl)

pub Every-with_items {κ} :
    (P : Payload → Type κ) (q r : Text) (items : List Payload) (m : Memory)
    → Every P (items_of r m)
    → Every P items
    → Every P (items_of r (with_items q items m))
Every-with_items P q r items m h new =
    subst (Every P) (sym (items_of-with_items q r items m))
      (elim (Bool-cases (q == r)) [ inl same ↦ rw same new | inr other ↦ rw other h ])

pub items_of-new_memory : (q : Text) → items_of q new_memory ≡ []
unfolding items_of new_memory
items_of-new_memory q = ap or_nil (Dict.get-empty q)
