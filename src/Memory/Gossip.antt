-- ===== src/Memory/Gossip.antt =====
-- framework/memory/gossip.go: the frames on the wire and the handshake.
-- A connection is the list of the bytes that will arrive on it. What io.ReadFull reads is taken
-- from its front; where too few bytes are left it fails.
pub mod RoundTrip
mod Examples
use oniworks.Prelude.{
  ℕ, zero, suc, ◌+◌, ◌-◌, ◌*◌, ◌/◌, ◌%◌, ◌^◌, Bool, true, false, Option, none, some, List, [], ◌∷◌,
  ◌++◌, if◌then◌else◌, ltb, ◌≡◌, refl, ◌==◌, length, take, drop,
}
use oniworks.Prelude.Text.{Text, text_eq}
use oniworks.Memory.Store.{Message, Store}
use oniworks.Memory.Store.Remote.{apply_msg}

-- 8 << 20
abbrev max_gossip_msg_bytes : ℕ
max_gossip_msg_bytes = 8388608

pub data Result {ℓ} (A : Type ℓ) : Type ℓ where
  ok : A → Result A
  too_large : Result A
  end_of_file : Result A
  rejected : Result A

infixl 5 ◌>>=◌
abbrev pub ◌>>=◌ {ℓ κ} : {A : Type ℓ} {B : Type κ} → Result A → (A → Result B) → Result B
ok a >>= f = f a
too_large >>= f = too_large
end_of_file >>= f = end_of_file
rejected >>= f = rejected

-- Inversion of a successful bind.
pub >>=-eq-ok {ℓ κ} :
    {X : Type ℓ} {Y : Type κ} (first : Result X) (next : X → Result Y) {y : Y}
    → (first >>= next) ≡ ok y
    → (x : X) × (first ≡ ok x) × (next x ≡ ok y)
>>=-eq-ok (ok x) next e = (x, refl, e)
>>=-eq-ok too_large next e = cc
>>=-eq-ok end_of_file next e = cc
>>=-eq-ok rejected next e = cc

-- io.ReadFull of n bytes: they, and what is left to read.
pub read_full : ℕ → Text → Result (Text × Text)
read_full n r = if ltb (length r) n then end_of_file else ok (take n r, drop n r)

-- binary.BigEndian.PutUint32 of uint32(n), and PutUint16 of uint16(n).
abbrev pub put_uint32 : ℕ → Text
put_uint32 n = n / 16777216 % 256 ∷ n / 65536 % 256 ∷ n / 256 % 256 ∷ n % 256 ∷ []

abbrev pub put_uint16 : ℕ → Text
put_uint16 n = n / 256 % 256 ∷ n % 256 ∷ []

abbrev pub from_big_endian : ℕ → Text → ℕ
from_big_endian acc [] = acc
from_big_endian acc (b ∷ bs) = from_big_endian (acc * 256 + b) bs

pub write_msg_frame : Text → Text
write_msg_frame b = put_uint32 (length b) ++ b

pub write_frame : Text → Text
write_frame b = put_uint16 (length b) ++ b

-- The frame that is read, and what is left to read.
pub read_msg_frame : Text → Result (Text × Text)
read_msg_frame r = do
  (header, body) ← read_full 4 r
  let n = from_big_endian 0 header
  if ltb max_gossip_msg_bytes n then too_large else read_full n body

pub read_frame : Text → ℕ → Result (Text × Text)
read_frame r max = do
  (header, body) ← read_full 2 r
  let n = from_big_endian 0 header
  if ltb max n then too_large else read_full n body

-- What is sent, and whether the peer is accepted, with what is left to read.
-- subtle.ConstantTimeCompare is equality.
pub handshake : Text → Text → Text × Result Text
handshake [] r = ([], ok r)
handshake (c ∷ cs) r =
    let secret = c ∷ cs in
    (
      write_frame secret,
      (do
        (peer, rest) ← read_frame r (length secret + 1)
        if peer == secret then ok rest else rejected),
    )

-- encoding/gob is a parameter.
module _ (encode : Message → Text) (decode : Text → Option Message) where
  -- peerConn.send: the bytes that are written
  pub send : Message → Result Text
  send msg =
      if ltb max_gossip_msg_bytes (length (encode msg))
      then too_large
      else ok (write_msg_frame (encode msg))

  -- What a sequence of sends writes to the one connection. A broadcast starts a goroutine for each
  -- send, and the list is in the order in which these take the lock of the connection; a message
  -- that is too large is dropped with a warning, and no write fails.
  pub send_all : List Message → Text
  send_all [] = []
  send_all (m ∷ more) = elim (send m) [ ok bytes ↦ bytes ++ send_all more | _ ↦ send_all more ]

  -- readLoop, on fuel: it ends at the first frame that cannot be read or decoded.
  pub read_loop : ℕ → Text → Store → Store
  read_loop zero r s = s
  read_loop (suc fuel) r s = elim (read_msg_frame r) [
    | ok (frame, rest) ↦ elim (decode frame) [
      | none ↦ s
      | some msg ↦ read_loop fuel rest (apply_msg msg s)
    ]
    | _ ↦ s
  ]
