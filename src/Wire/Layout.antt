-- ===== src/Wire/Layout.antt =====
-- The wire format as plain concatenations, and what the serializers write in terms of them.
use p2p_messenger.Prelude.{
  ℕ, zero, suc, ◌+◌, ◌-◌, ◌%◌, ◌^◌, ◌≤◌, ◌≡◌, ◌++◌, append_assoc, arith, length, replicate, drop,
  length-append, length-replicate, le→leb,
}
use p2p_messenger.Prelude.Bytes.{Bytes, le_bytes, length-le_bytes}
use p2p_messenger.Prelude.Outcome.{ok, ◌>>=◌}
use p2p_messenger.Wire.Message.{Message, SignedMessage, Peer, source, destination, clip}
use p2p_messenger.Wire.Memory.{start, finish, write, write-write, copy-clip, length-clip}
use p2p_messenger.Wire.Serializer.{
  peer_to_buffer, message_to_buffer_with_payload, peer_size, signed_message_to_buffer,
}
use mathlib.Core.Path.{fun_ext}
use native.Mathlib.Nat.{mod-le, sub-zero, zero-sub, suc-sub-suc}

-- A size in `w` bytes, and the string it is of.
unfoldable pub field : ℕ → Bytes → Bytes
field w s = le_bytes w (length s % 256 ^ w) ++ clip w s

unfoldable pub peer_layout : Peer → Bytes
peer_layout p = field 1 p.ip ++ (le_bytes 2 p.port ++ (field 1 p.login ++ field 2 p.public_key))

unfoldable pub message_layout : Message → Bytes → Bytes
message_layout m payload =
    le_bytes 8 m.id ++ (peer_layout (source m) ++ (peer_layout (destination m) ++ field 2 payload))

unfoldable pub signed_layout : SignedMessage → Bytes
signed_layout m = field 2 m.message ++ field 2 m.signature

pub peer_to_buffer_lem : (p : Peer) → peer_to_buffer p ≡ write (peer_layout p)
unfolding peer_to_buffer peer_layout field
peer_to_buffer_lem p = fun_ext λ c.
    simp
      (copy-clip 1 p.ip, copy-clip 1 p.login, copy-clip 2 p.public_key, write-write, append_assoc)

pub length-field : (w : ℕ) (s : Bytes) → length (field w s) ≡ w + length s % 256 ^ w
unfolding field
length-field w s = omega (
  arith,
  length-append (le_bytes w (length s % 256 ^ w)) (clip w s),
  length-le_bytes w (length s % 256 ^ w),
  length-clip w s,
)

pub length-field_le : (w : ℕ) (s : Bytes) → length (field w s) ≤ w + length s
length-field_le w s = omega (arith, length-field w s, mod-le (length s) (256 ^ w))

drop-replicate : (n m a : ℕ) → drop n (replicate m a) ≡ replicate (m - n) a
drop-replicate zero m a = rw sub-zero
drop-replicate (suc n) zero a = rw zero-sub
drop-replicate (suc n) (suc m) a = rw suc-sub-suc (drop-replicate n m a)

-- One write that fits the fresh buffer fills it from the start; zeros stay behind it.
pub write-start :
    (size : ℕ) (xs : Bytes)
    → length xs ≤ size
    → (write xs (start size) >>= λ c. ok (finish c)) ≡ ok (xs ++ replicate (size - length xs) 0)
unfolding write
write-start size xs h = rw (
  le→leb (length xs) (length {A = ℕ} (replicate size 0))
      (omega (arith, length-replicate {A = ℕ} size 0)),
  drop-replicate (length xs) size 0,
)

abbrev pub message_size : Message → Bytes → ℕ
message_size m payload = 8 + peer_size (source m) + peer_size (destination m) + (2 + length payload)

length-peer_layout_le : (p : Peer) → length (peer_layout p) ≤ peer_size p
unfolding peer_layout
length-peer_layout_le p = simp length-append (
    omega (
      arith,
      length-field_le 1 p.ip,
      length-le_bytes 2 p.port,
      length-field_le 1 p.login,
      length-field_le 2 p.public_key,
    ))

length-message_layout_le :
    (m : Message) (payload : Bytes) → length (message_layout m payload) ≤ message_size m payload
unfolding message_layout
length-message_layout_le m payload = simp length-append (
    omega (
      arith,
      length-le_bytes 8 m.id,
      length-peer_layout_le (source m),
      length-peer_layout_le (destination m),
      length-field_le 2 payload,
    ))

abbrev pub padding : ℕ → Bytes → Bytes
padding size xs = replicate (size - length xs) 0

-- Whatever the sizes of its strings, a message is written within its buffer: the layout, and zeros
-- for what the sizes on the wire cut off.
pub message_to_buffer_with_payload-layout :
    (m : Message) (payload : Bytes)
    → message_to_buffer_with_payload m payload
      ≡ ok (message_layout m payload ++ padding (message_size m payload) (message_layout m payload))
unfolding message_to_buffer_with_payload
message_to_buffer_with_payload-layout m payload =
    simp (peer_to_buffer_lem, copy-clip 2 payload, write-write, append_assoc)
      (unfold message_layout field in
        write-start (message_size m payload) (message_layout m payload)
          (length-message_layout_le m payload))

length-signed_layout_le :
    (m : SignedMessage) → length (signed_layout m) ≤ 2 + length m.message + (2 + length m.signature)
unfolding signed_layout
length-signed_layout_le m =
    simp length-append (omega (arith, length-field_le 2 m.message, length-field_le 2 m.signature))

pub signed_message_to_buffer-layout :
    (m : SignedMessage)
    → signed_message_to_buffer m
      ≡ ok (
          signed_layout m
          ++ padding (2 + length m.message + (2 + length m.signature)) (signed_layout m))
unfolding signed_message_to_buffer signed_layout field
signed_message_to_buffer-layout m =
    simp (copy-clip 2 m.message, copy-clip 2 m.signature, write-write, append_assoc)
      (simp append_assoc at (
        write-start (2 + length m.message + (2 + length m.signature)) (signed_layout m)
          (length-signed_layout_le m)))
