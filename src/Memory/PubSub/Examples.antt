-- ===== src/Memory/PubSub/Examples.antt =====
-- pubsub.go: the theorems on a registry with two subscribers.
use oniworks.Prelude.{ℕ, ◌≡◌, ◌&&◌, some, List, [], ◌∷◌, if◌then◌else◌, nat_eq}
use oniworks.Prelude.Text.{codes}
use oniworks.Prelude.Dict
use oniworks.Prelude.Dict.{map_some}
use oniworks.Memory.PubSub.{
  PubMsg, Subscriber, Turn, publisher, canceller, handler, run, PubSub, new_subscriber, new_pub_sub,
  subscribe, has_topic, publish,
}
use oniworks.Memory.PubSub.Safety.{IsSound, accept, run-IsSound, IsSound-new_subscriber}
use oniworks.Memory.PubSub.Delivery.{IsConsistent, is_some, publish_lem}
use oniworks.Memory.PubSub.Consistent.{subscribe-IsConsistent, IsConsistent-new_pub_sub}

abbrev hello : PubMsg ℕ
hello = record { topic = codes "chat.a"; payload = 1 }

-- A publish races with a cancel, which comes first, and with a second cancel.
abbrev race : List (Turn ℕ)
race = publisher hello ∷ canceller ∷ publisher hello ∷ handler ∷ canceller ∷ []

run-IsSound_example :
    (s' : Subscriber ℕ) × (run race (new_subscriber 1 (codes "chat.*")) ≡ some s') × IsSound s'
run-IsSound_example =
    run-IsSound race (new_subscriber 1 (codes "chat.*")) (IsSound-new_subscriber 1 (codes "chat.*"))

abbrev one_subscriber : PubSub ℕ
one_subscriber = (subscribe new_pub_sub (codes "chat.*")).1

abbrev two_subscribers : PubSub ℕ
two_subscribers = (subscribe one_subscriber (codes "user.*")).1

one-IsConsistent : IsConsistent one_subscriber
one-IsConsistent = subscribe-IsConsistent new_pub_sub (codes "chat.*") IsConsistent-new_pub_sub

two-IsConsistent : IsConsistent two_subscribers
two-IsConsistent = subscribe-IsConsistent one_subscriber (codes "user.*") one-IsConsistent

publish_lem_example :
    (ps' : PubSub ℕ) × (publish two_subscribers (codes "chat.a") 1 ≡ some ps')
    × ((q : ℕ)
        → Dict.get ps'.objects q ≡ (
            if is_some (Dict.get two_subscribers.subscribers q)
              && has_topic (codes "chat.a") (Dict.get two_subscribers.objects q)
            then map_some
                (λ s. accept s (record { topic = codes "chat.a"; payload = 1 }))
                (Dict.get two_subscribers.objects q)
            else Dict.get two_subscribers.objects q))
publish_lem_example = publish_lem two_subscribers (codes "chat.a") 1 two-IsConsistent
