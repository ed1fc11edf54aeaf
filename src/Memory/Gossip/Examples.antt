-- ===== src/Memory/Gossip/Examples.antt =====
-- gossip.go: the theorems on short frames and a small encoding.
use oniworks.Prelude.{◌≡◌, refl, true, Option, some, List, [], ◌∷◌, arith}
use oniworks.Prelude.Text.{Text, codes}
use oniworks.Memory.Store.{Message, delete_message, new_store}
use oniworks.Memory.Store.Remote.{apply_all}
use oniworks.Memory.Gossip.{send_all, read_loop}
use oniworks.Memory.Gossip.RoundTrip.{Carries, read_loop-send_all}

-- An encoding of deletions.
abbrev encode_key : Message → Text
encode_key (delete_message k) = k
encode_key _ = []

abbrev decode_key : Text → Option Message
decode_key k = some (delete_message k)

abbrev deletions : List Message
deletions = delete_message (codes "a") ∷ delete_message (codes "bc") ∷ []

deletions-Carries : Carries encode_key decode_key deletions
deletions-Carries = ((refl, omega arith), ((refl, omega arith), tt))

read_loop-send_all_example :
    read_loop encode_key decode_key 3
      (send_all encode_key decode_key deletions)
      (new_store (codes "n") true)
    ≡ apply_all deletions (new_store (codes "n") true)
read_loop-send_all_example =
    read_loop-send_all encode_key decode_key deletions 3 (new_store (codes "n") true)
      deletions-Carries (omega arith)
