-- ===== src/Realtime/Resume/Examples.antt =====
-- resume.go: a buffer of two events.
use oniworks.Prelude.{ℕ, List, [], ◌∷◌}
use oniworks.Prelude.Text.{Text, codes}
use oniworks.Realtime.Resume.{Event}

abbrev event : Text → Event ℕ
event id = record { id = id; ts = 1; payload = 0 }

abbrev pushes : List (Text × Event ℕ)
pushes =
    (codes "chat", event (codes "1"))
    ∷ (codes "news", event (codes "2"))
    ∷ (codes "chat", event (codes "3"))
    ∷ (codes "chat", event (codes "4"))
    ∷ []
