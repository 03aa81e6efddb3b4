-- ===== src/Wire/Reading.antt =====
-- What the readers find at the front of a laid out buffer.
use p2p_messenger.Prelude.{ℕ, ◌+◌, ◌%◌, ◌^◌, ◌≡◌, subst, ◌++◌, append_assoc, length}
use p2p_messenger.Prelude.Bytes.{Bytes, le_bytes}
use p2p_messenger.Prelude.Outcome.{ok}
use p2p_messenger.Wire.Message.{Peer, clip, clip_peer}
use p2p_messenger.Wire.Memory.{
  read_uint, read_bytes, skip, read_bytes-append, read_uint-le_bytes, skip-append, length-clip,
}
use p2p_messenger.Wire.Layout.{field, peer_layout}
use p2p_messenger.Wire.Deserializer.{peer_from_buffer}
use p2p_messenger.Prelude.Bytes.{length-le_bytes}
use native.Mathlib.Nat.{mod-mod}

pub read_uint-field :
    (w : ℕ) (s rest : Bytes)
    → read_uint w (field w s ++ rest) ≡ ok (length s % 256 ^ w, clip w s ++ rest)
unfolding field
read_uint-field w s rest = simp (append_assoc, read_uint-le_bytes, mod-mod)

pub read_bytes-clip :
    (w : ℕ) (s rest : Bytes)
    → read_bytes (length s % 256 ^ w) (clip w s ++ rest) ≡ ok (clip w s, rest)
read_bytes-clip w s rest =
    subst (λ k. read_bytes k (clip w s ++ rest) ≡ ok (clip w s, rest)) (length-clip w s)
      (read_bytes-append (clip w s) rest)

pub skip-clip : (w : ℕ) (s rest : Bytes) → skip (length s % 256 ^ w) (clip w s ++ rest) ≡ ok rest
skip-clip w s rest =
    subst (λ k. skip k (clip w s ++ rest) ≡ ok rest) (length-clip w s) (skip-append (clip w s) rest)

pub skip-le_bytes : (w n : ℕ) (rest : Bytes) → skip w (le_bytes w n ++ rest) ≡ ok rest
skip-le_bytes w n rest =
    subst (λ k. skip k (le_bytes w n ++ rest) ≡ ok rest) (length-le_bytes w n)
      (skip-append (le_bytes w n) rest)

-- The sizes of one side as they stand on the wire.
abbrev pub clipped_size : Peer → ℕ
clipped_size p = length p.ip % 2 ^ 8 + length p.login % 2 ^ 8 + length p.public_key % 2 ^ 16

pub peer_from_buffer-layout :
    (size : ℕ) (p : Peer) (rest : Bytes)
    → peer_from_buffer size (peer_layout p ++ rest)
      ≡ ok (
        clip_peer p,
        size + length p.ip % 2 ^ 8 + length p.login % 2 ^ 8 + length p.public_key % 2 ^ 16,
        rest,
      )
unfolding peer_from_buffer peer_layout clip_peer
peer_from_buffer-layout size p rest = simp (
  append_assoc,
  read_uint-field 1 p.ip,
  read_bytes-clip 1 p.ip,
  read_uint-le_bytes 2 p.port,
  read_uint-field 1 p.login,
  read_bytes-clip 1 p.login,
  read_uint-field 2 p.public_key,
  read_bytes-clip 2 p.public_key,
)
