-- ===== src/Memory/Gossip/RoundTrip.antt =====
-- gossip.go: what is framed is read back, and who passes the handshake.
use oniworks.Prelude.{
  ℕ, zero, suc, ◌+◌, ◌^◌, ◌≤◌, ◌<◌, ◌≡◌, refl, ap, ◌∙◌, Option, some, List, [], ◌∷◌, ◌++◌, arith,
  if◌then◌else◌, ◌==◌, ==_iff, ==-refl, length, take, length-append, take-append-drop,
}
use mathlib.Core.Path.{ap₂}
use oniworks.Prelude.Text.{Text, text_eq, drop-append}
use oniworks.Memory.Store.{Message, Store}
use oniworks.Memory.Store.Remote.{apply_msg, apply_all}
use oniworks.Memory.Gossip.{
  ok, rejected, >>=-eq-ok, read_full, put_uint32, put_uint16, from_big_endian, write_msg_frame,
  write_frame, read_msg_frame, read_frame, handshake, send, send_all, read_loop,
}

take-append : (s t : Text) → take (length s) (s ++ t) ≡ s
take-append [] t = refl
take-append (c ∷ s) t = ap (◌∷◌ c) (take-append s t)

read_full-append : (s t : Text) → read_full (length s) (s ++ t) ≡ ok (s, t)
unfolding read_full
read_full-append s t = rw (take-append s t, drop-append s t) (ground (arith, length-append s t))

big_endian-32 : (n : ℕ) → n < 2 ^ 32 → from_big_endian 0 (put_uint32 n) ≡ n
big_endian-32 n h = omega arith

big_endian-16 : (n : ℕ) → n < 2 ^ 16 → from_big_endian 0 (put_uint16 n) ≡ n
big_endian-16 n h = omega arith

-- A frame of at most 8 MiB is read back, whatever follows it.
read_msg_frame-write :
    (b rest : Text) → length b ≤ 8388608 → read_msg_frame (write_msg_frame b ++ rest) ≡ ok (b, rest)
unfolding read_msg_frame write_msg_frame
read_msg_frame-write b rest h =
    rw
      (read_full-append (put_uint32 (length b)) (b ++ rest), big_endian-32 (length b) (omega arith))
      (ground (arith, read_full-append b rest))

read_frame-write :
    (b rest : Text) (max : ℕ)
    → length b ≤ max
    → length b < 65536
    → read_frame (write_frame b ++ rest) max ≡ ok (b, rest)
unfolding read_frame write_frame
read_frame-write b rest max h fits =
    rw (read_full-append (put_uint16 (length b)) (b ++ rest), big_endian-16 (length b) fits)
      (ground (arith, read_full-append b rest))

read_full_sound : (n : ℕ) (r x y : Text) → read_full n r ≡ ok (x, y) → r ≡ x ++ y
unfolding read_full
read_full_sound n r x y h = ground (arith, take-append-drop n r)

read_frame_sound :
    (r : Text) (max : ℕ) (frame rest : Text)
    → read_frame r max ≡ ok (frame, rest)
    → (header : Text) × (r ≡ header ++ (frame ++ rest))
unfolding read_frame
read_frame_sound r max frame rest h =
    let (p, e, k) = >>=-eq-ok (read_full 2 r) _ h in
    (
      p.0,
      read_full_sound 2 r p.0 p.1 e
          ∙ ap (λ t. p.0 ++ t)
              (read_full_sound (from_big_endian 0 p.0) p.1 frame rest (ground arith)),
    )

accepted :
    (peer secret r rest : Text)
    → (if peer == secret then ok r else rejected) ≡ ok rest
    → (peer ≡ secret) × (r ≡ rest)
accepted peer secret r rest h = (ground (arith, ==_iff peer secret), ground arith)

-- A node with a secret accepts a peer only if the peer sent that secret, behind two header bytes,
-- and it does accept a peer that runs the same handshake with the same secret, if that is shorter
-- than 2 ^ 16 bytes. The rest of the stream is left to the read loop.
pub handshake_lem :
    (c : ℕ) (cs r rest : Text)
    → ((handshake (c ∷ cs) r).1 ≡ ok rest → (header : Text) × (r ≡ header ++ ((c ∷ cs) ++ rest)))
      × (length (c ∷ cs) < 65536
          → (handshake (c ∷ cs) ((handshake (c ∷ cs) r).0 ++ rest)).1 ≡ ok rest)
unfolding handshake
handshake_lem c cs r rest = (
  λ h.
      let (p, e, k) = >>=-eq-ok (read_frame r (length (c ∷ cs) + 1)) _ h in
      let (header, same) = read_frame_sound r _ p.0 p.1 e in
      let (same_secret, same_rest) = accepted p.0 (c ∷ cs) p.1 rest k in
      (header, same ∙ ap₂ (λ s t. header ++ (s ++ t)) same_secret same_rest),
  λ fits.
      rw
        (read_frame-write (c ∷ cs) rest (length (c ∷ cs) + 1) (omega arith) fits, ==-refl (c ∷ cs)),
)

module _ (encode : Message → Text) (decode : Text → Option Message) where
  -- The message is decoded from its encoding, and that fits a frame.
  abbrev pub Carries : List Message → Type 0
  Carries [] = Unit
  Carries (m ∷ ms) = ((decode (encode m) ≡ some m) × (length (encode m) ≤ 8388608)) × Carries ms

  send-fits :
      (m : Message)
      → length (encode m) ≤ 8388608
      → send encode decode m ≡ ok (write_msg_frame (encode m))
  unfolding send
  send-fits m fits = ground arith

  -- What one node sends over a connection is applied by the other, each message once and in the order
  -- in which the sends took the lock of the connection, if the encoding carries the messages. Any
  -- fuel greater than the number of messages is enough.
  pub read_loop-send_all :
      (ms : List Message) (fuel : ℕ) (s : Store)
      → Carries ms
      → length ms < fuel
      → read_loop encode decode fuel (send_all encode decode ms) s ≡ apply_all ms s
  unfolding read_loop send_all apply_all
  read_loop-send_all [] zero s c h = absurd (omega arith)
  read_loop-send_all [] (suc fuel) s c h = unfold read_msg_frame read_full in refl
  read_loop-send_all (m ∷ ms) zero s c h = absurd (omega arith)
  read_loop-send_all (m ∷ ms) (suc fuel) s ((good, fits), c) h =
      rw
        (
          send-fits m fits,
          send_all,
          read_msg_frame-write (encode m) (send_all encode decode ms) fits,
          read_loop,
          good,
        )
        (read_loop-send_all ms fuel (apply_msg m s) c (omega arith))
