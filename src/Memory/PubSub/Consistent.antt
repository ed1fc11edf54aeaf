-- ===== src/Memory/PubSub/Consistent.antt =====
-- pubsub.go: subscribing, cancelling and publishing keep the registry consistent.
use mathlib.Core.Option.{some-injective}
use oniworks.Prelude.{
  ℕ, ◌+◌, ◌%◌, ◌^◌, ◌≡◌, subst, inl, inr, true, none, some, arith, ◌==◌, ==_iff, nat_eq, Bool-cases,
}
use oniworks.Prelude.Text.{Text}
use oniworks.Prelude.Dict
use oniworks.Prelude.Dict.{Dict, map_some}
use oniworks.Memory.PubSub.{Subscriber, PubSub, subscribe, cancel, new_subscriber, new_pub_sub}
use oniworks.Memory.PubSub.Safety.{IsSound, close-IsSound, shut, IsSound-new_subscriber}
use oniworks.Memory.PubSub.Delivery.{IsConsistent, is_some}

module _ {P : Type 0} where
  put_object :
      (ps : PubSub P) (p : ℕ) (s : Subscriber P)
      → IsConsistent ps
      → IsSound s
      → IsConsistent (record ps { objects = Dict.put ps.objects p s })
  put_object ps p s h k = record {
    sound = λ q t e. elim (Bool-cases (p == q)) [
      | inl same ↦
          subst IsSound (some-injective s t (ground (arith, Dict.get-put ps.objects p q s))) k
      | inr other ↦ h.sound q t (ground (arith, Dict.get-put ps.objects p q s))
    ];
    own = h.own;
    there = λ id q e. ground (arith, h.there id q, Dict.get-put ps.objects p q s);
  }

  put_subscriber :
      (ps : PubSub P) (id : ℕ)
      → IsConsistent ps
      → is_some (Dict.get ps.objects id) ≡ true
      → IsConsistent (record ps { subscribers = Dict.put ps.subscribers id id; next_id = id })
  put_subscriber ps id h there = record {
    sound = h.sound;
    own = λ i q e. ground (arith, h.own i q, Dict.get-put ps.subscribers id i id, ==_iff id i);
    there = λ i q e. ground (arith, h.there i q, Dict.get-put ps.subscribers id i id, ==_iff id i);
  }

  remove_subscriber :
      (ps : PubSub P) (id : ℕ)
      → IsConsistent ps
      → IsConsistent (record ps { subscribers = Dict.remove ps.subscribers id })
  remove_subscriber ps id h = record {
    sound = h.sound;
    own = λ i q e. h.own i q (ground (arith, Dict.get-remove ps.subscribers id i));
    there = λ i q e. h.there i q (ground (arith, Dict.get-remove ps.subscribers id i));
  }

  -- Subscribing keeps the registry consistent, also where the id counter has wrapped.
  pub subscribe-IsConsistent :
      (ps : PubSub P) (topic : Text) → IsConsistent ps → IsConsistent (subscribe ps topic).1
  unfolding subscribe
  subscribe-IsConsistent ps topic h =
      let id = (ps.next_id + 1) % 2 ^ 64 in
      let s = new_subscriber id topic in
      put_subscriber (record ps { objects = Dict.put ps.objects id s }) id
        (put_object ps id s h (IsSound-new_subscriber id topic))
        (ground (arith, Dict.get-put ps.objects id id s, ==_iff id id))

  -- The cancel function of a subscription, called at any time and any number of times, does not
  -- panic: it takes the id out of the registry and closes the subscriber.
  pub cancel-IsConsistent :
      (ps : PubSub P) (id : ℕ) (s : Subscriber P)
      → IsConsistent ps
      → Dict.get ps.objects id ≡ some s
      → (ps' : PubSub P) × (cancel id ps ≡ some ps')
        × IsConsistent ps'
        × (Dict.get ps'.subscribers id ≡ none)
        × (Dict.get ps'.objects id ≡ some (shut s))
  unfolding cancel
  cancel-IsConsistent ps id s h found =
      let (e, k) = close-IsSound s (h.sound id s found) in
      (
        record ps {
          subscribers = Dict.remove ps.subscribers id;
          objects = Dict.put ps.objects id (shut s);
        },
        ground (arith, found, e),
        put_object (record ps { subscribers = Dict.remove ps.subscribers id }) id (shut s)
            (remove_subscriber ps id h) k,
        ground (arith, Dict.get-remove ps.subscribers id id, ==_iff id id),
        ground (arith, Dict.get-put ps.objects id id (shut s), ==_iff id id),
      )

pub IsConsistent-new_pub_sub : {P : Type 0} → IsConsistent (new_pub_sub {Payload = P})
unfolding new_pub_sub
IsConsistent-new_pub_sub {P} = record {
  sound = λ p s e. absurd (ground (arith, Dict.get-empty {V = Subscriber P} p));
  own = λ id p e. absurd (ground (arith, Dict.get-empty {V = ℕ} id));
  there = λ id p e. absurd (ground (arith, Dict.get-empty {V = ℕ} id));
}
