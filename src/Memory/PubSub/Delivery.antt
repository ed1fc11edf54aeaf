-- ===== src/Memory/PubSub/Delivery.antt =====
-- pubsub.go: publish reaches the registered subscribers with a matching topic, and no others.
use oniworks.Prelude.{
  ℕ, ◌≡◌, refl, subst, inl, inr, Bool, true, false, ◌&&◌, ◌||◌, Option, none, some, List, [], ◌∷◌,
  arith, if◌then◌else◌, ◌==◌, ==_iff, nat_eq, Bool-cases, Option-cases,
}
use mathlib.Core.List.{Memᴰ}
use mathlib.Core.Option.{some-injective}
use oniworks.Prelude.Text.{Text}
use oniworks.Prelude.Dict
use oniworks.Prelude.Dict.{Dict, lookup, IsDistinct, map_some}
use oniworks.Memory.PubSub.{
  PubMsg, Subscriber, PubSub, has_topic, matching, deliver_at, deliver_all, publish,
}
use oniworks.Memory.PubSub.Safety.{IsSound, accept, deliver-IsSound}

-- `p` stands in the list.
elem : ℕ → List ℕ → Bool
elem p [] = false
elem p (q ∷ l) = (q == p) || elem p l

abbrev pub is_some {ℓ} : {A : Type ℓ} → Option A → Bool
is_some none = false
is_some (some a) = true

-- Every object is sound, and every id that is registered is the address of an object.
pub record IsConsistent {P : Type 0} (ps : PubSub P) : Type 0 where
  pub sound : (p : ℕ) (s : Subscriber P) → Dict.get ps.objects p ≡ some s → IsSound s
  pub own : (id p : ℕ) → Dict.get ps.subscribers id ≡ some p → p ≡ id
  pub there :
      (id p : ℕ) → Dict.get ps.subscribers id ≡ some p → is_some (Dict.get ps.objects p) ≡ true

-- No address twice.
abbrev IsNodup : List ℕ → Type 0
IsNodup [] = Unit
IsNodup (p ∷ l) = (elem p l ≡ false) × IsNodup l

-- Each id is its own address.
abbrev Own : List (ℕ × ℕ) → Type 0
Own [] = Unit
Own ((id, p) ∷ es) = (p ≡ id) × Own es

Own-of_lookup : (es : List (ℕ × ℕ)) → ((id p : ℕ) → Memᴰ (id, p) es → p ≡ id) → Own es
Own-of_lookup [] h = tt
Own-of_lookup ((id, p) ∷ es) h =
    (h id p (Memᴰ.head refl), Own-of_lookup es (λ i q m. h i q (Memᴰ.tail m)))

entries-Own : {P : Type 0} (ps : PubSub P) → IsConsistent ps → Own (Dict.entries ps.subscribers)
entries-Own ps h =
    Own-of_lookup (Dict.entries ps.subscribers)
      (λ id p m. h.own id p ((Dict.mem-entries ps.subscribers id p).0 m))

module _ {P : Type 0} (msg : PubMsg P) where
  abbrev Sound : Dict ℕ (Subscriber P) → Type 0
  Sound o = (p : ℕ) (s : Subscriber P) → Dict.get o p ≡ some s → IsSound s

  abbrev Present : Dict ℕ (Subscriber P) → List ℕ → Type 0
  Present o [] = Unit
  Present o (p ∷ l) = (is_some (Dict.get o p) ≡ true) × Present o l

  -- One delivery: the object at the address accepts the message.
  deliver_at_lem :
      (p : ℕ) (ps : PubSub P) (s : Subscriber P)
      → Dict.get ps.objects p ≡ some s
      → IsSound s
      → deliver_at msg p ps ≡ some (record ps { objects = Dict.put ps.objects p (accept s msg) })
  unfolding deliver_at
  deliver_at_lem p ps s found h = ground (arith, found, (deliver-IsSound s msg h).0)

  put-Sound :
      (o : Dict ℕ (Subscriber P)) (p : ℕ) (s : Subscriber P)
      → Sound o
      → IsSound s
      → Sound (Dict.put o p s)
  put-Sound o p s h k q t e = elim (Bool-cases (p == q)) [
    | inl same ↦ subst IsSound (some-injective s t (ground (arith, Dict.get-put o p q s))) k
    | inr other ↦ h q t (ground (arith, Dict.get-put o p q s))
  ]

  put-Present :
      (o : Dict ℕ (Subscriber P)) (p : ℕ) (s : Subscriber P) (l : List ℕ)
      → Present o l
      → Present (Dict.put o p s) l
  put-Present o p s [] h = tt
  put-Present o p s (q ∷ l) (h, hs) = (ground (arith, Dict.get-put o p q s), put-Present o p s l hs)

  deliver_all_lem :
      (l : List ℕ) (ps : PubSub P)
      → Sound ps.objects
      → Present ps.objects l
      → IsNodup l
      → (ps' : PubSub P) × (deliver_all msg l ps ≡ some ps')
        × ((q : ℕ)
            → Dict.get ps'.objects q ≡ (
                if elem q l
                then map_some (λ s. accept s msg) (Dict.get ps.objects q)
                else Dict.get ps.objects q))
  unfolding deliver_all elem
  deliver_all_lem [] ps so pr nd = (ps, refl, λ q. refl)
  deliver_all_lem (p ∷ l) ps so (here, pr) (fresh, nd) =
      elim (Option-cases (Dict.get ps.objects p)) [
        | inl gone ↦ absurd (ground arith)
        | inr (s, found) ↦
            let s' = accept s msg in
            let (good, sound) = deliver-IsSound s msg (so p s found) in
            let (ps', e, at) =
              deliver_all_lem l (record ps { objects = Dict.put ps.objects p s' })
                (put-Sound ps.objects p s' so sound) (put-Present ps.objects p s' l pr) nd in
            (
              ps',
              rw (deliver_at_lem p ps s found (so p s found), deliver_all) e,
              λ q. ground (arith, at q, found, Dict.get-put ps.objects p q s', ==_iff p q),
            )
      ]

  -- The loop under the lock: an address is collected when it is registered and its topic matches.
  elem-matching :
      (o : Dict ℕ (Subscriber P)) (topic : Text) (es : List (ℕ × ℕ)) (p : ℕ)
      → IsDistinct es
      → Own es
      → elem p (matching o topic es) ≡ (is_some (lookup p es) && has_topic topic (Dict.get o p))
  unfolding matching elem lookup
  elem-matching o topic [] p d own = refl
  elem-matching o topic ((id, q) ∷ es) p (fresh, d) (same, own) =
      ground (arith, elem-matching o topic es p d own, ==_iff q p, ==_iff id p)

  IsNodup-matching :
      (o : Dict ℕ (Subscriber P)) (topic : Text) (es : List (ℕ × ℕ))
      → IsDistinct es
      → Own es
      → IsNodup (matching o topic es)
  unfolding matching
  IsNodup-matching o topic [] d own = tt
  IsNodup-matching o topic ((id, q) ∷ es) (fresh, d) (same, own) =
      ground (arith, IsNodup-matching o topic es d own, elem-matching o topic es q d own)

  Present-matching :
      (o : Dict ℕ (Subscriber P)) (topic : Text) (es : List (ℕ × ℕ))
      → Present o (matching o topic es)
  unfolding matching
  Present-matching o topic [] = tt
  Present-matching o topic ((id, q) ∷ es) = ground (arith, Present-matching o topic es)

-- On a consistent registry a publish does not panic. Each registered subscriber with a matching topic
-- gets the message at the end of its buffer if it is not closed and fewer than 256 messages wait in
-- it; a closed one and a full one stay as they are, so that the message is dropped there. No other
-- subscriber changes.
pub publish_lem :
    {P : Type 0} (ps : PubSub P) (topic : Text) (payload : P)
    → IsConsistent ps
    → (ps' : PubSub P) × (publish ps topic payload ≡ some ps')
      × ((q : ℕ)
          → Dict.get ps'.objects q ≡ (
              if is_some (Dict.get ps.subscribers q) && has_topic topic (Dict.get ps.objects q)
              then map_some
                  (λ s. accept s (record { topic = topic; payload = payload }))
                  (Dict.get ps.objects q)
              else Dict.get ps.objects q))
unfolding publish
publish_lem {P} ps topic payload h =
    let es = Dict.entries ps.subscribers in
    let d = Dict.entries-IsDistinct ps.subscribers in
    let own = entries-Own ps h in
    let msg : PubMsg P = record { topic = topic; payload = payload } in
    let (ps', e, at) =
      deliver_all_lem msg (matching ps.objects topic es) ps h.sound
        (Present-matching msg ps.objects topic es)
        (IsNodup-matching msg ps.objects topic es d own) in
    (
      ps',
      e,
      λ q. ground (
        arith,
        at q,
        elem-matching msg ps.objects topic es q d own,
        Dict.lookup-entries ps.subscribers q,
      ),
    )
