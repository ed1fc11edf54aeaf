-- ===== src/Memory/Topic/Examples.antt =====
-- pubsub.go and realtime/hub.go: the topic patterns that the repository uses.
use oniworks.Prelude.{◌≡◌, ◌≢◌, ◌↔◌, ◌⊎◌, refl, true, false, arith, ◌==◌, ==_iff}
use oniworks.Prelude.Text.{Text, text_eq, codes, split}
use oniworks.Memory.Topic.{topic_matches, last}
use oniworks.Memory.Topic.Segments.{Agree, topic_matches_iff}

differ : (s t : Text) → (s == t) ≡ false → s ≢ t
differ s t h e = ground (arith, ==_iff s t)

topic_matches_iff_example :
    (topic_matches (codes "user.*.orders") (codes "user.7.orders") ≡ true) ↔ (
      (codes "user.*.orders" ≡ codes "*")
      ⊎ Agree (split b'.' (codes "user.*.orders")) (split b'.' (codes "user.7.orders")))
topic_matches_iff_example =
    topic_matches_iff (codes "user.*.orders") (codes "user.7.orders")
      (differ (last (split b'.' (codes "user.*.orders"))) (codes "**") (unfold split in refl))
