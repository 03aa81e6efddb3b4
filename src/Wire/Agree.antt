-- ===== src/Wire/Agree.antt =====
-- The three readers of a message agree on any buffer on which the fullest of them succeeds.
use p2p_messenger.Prelude.{ℕ, ◌≡◌, arith, ltb, length, Bool-cases, inl, inr}
use p2p_messenger.Prelude.Bytes.{Bytes}
use p2p_messenger.Prelude.Outcome.{Outcome, ok, ◌>>=◌, >>=-elim}
use p2p_messenger.External.{OpenDht, Json}
use p2p_messenger.Wire.Message.{Message, Peer, empty_payload}
use p2p_messenger.Wire.Headers.{message_header-header}
use p2p_messenger.Wire.Memory.{read_uint, read_bytes, skip}
use p2p_messenger.Wire.Deserializer.{
  fixed_size, header_from_buffer, peer_from_buffer, skip_peer, destinantion_public_key_from_buffer,
  message_with_not_decrypted_payload_from_buffer, message_from_buffer, decrypt, payload_from_buffer,
}

read_bytes-skip : (n : ℕ) (p a r : Bytes) → read_bytes n p ≡ ok (a, r) → skip n p ≡ ok r
unfolding read_bytes skip
read_bytes-skip n p a r e = ground arith

read_uint-skip : (w n : ℕ) (p r : Bytes) → read_uint w p ≡ ok (n, r) → skip w p ≡ ok r
unfolding read_uint read_bytes skip
read_uint-skip w n p r e = ground arith

-- Passing over one side, then reading its key.
peer_key : Bytes → Outcome (Bytes × Bytes)
peer_key p = do
  p1 ← skip_peer p
  (public_key_size, p2) ← read_uint 2 p1
  read_bytes public_key_size p2

peer_from_buffer-peer_key :
    (size size' : ℕ) (p r : Bytes) (peer : Peer)
    → peer_from_buffer size p ≡ ok (peer, size', r)
    → peer_key p ≡ ok (peer.public_key, r)
unfolding peer_from_buffer peer_key skip_peer
peer_from_buffer-peer_key size size' p r peer e = >>=-elim (read_uint 1 p) _ e λ x1 e1 f1.
    >>=-elim (read_bytes x1.0 x1.1) _ f1 λ x2 e2 f2. >>=-elim (read_uint 2 x2.1) _ f2 λ x3 e3 f3.
      >>=-elim (read_uint 1 x3.1) _ f3 λ x4 e4 f4. >>=-elim (read_bytes x4.0 x4.1) _ f4 λ x5 e5 f5.
        >>=-elim (read_uint 2 x5.1) _ f5 λ x6 e6 f6.
          >>=-elim (read_bytes x6.0 x6.1) _ f6 λ x7 e7 f7.
            rw
              (
                e1,
                read_bytes-skip x1.0 x1.1 x2.0 x2.1 e2,
                read_uint-skip 2 x3.0 x2.1 x3.1 e3,
                e4,
                read_bytes-skip x4.0 x4.1 x5.0 x5.1 e5,
                e6,
                e7,
              )
              (ground arith)

-- Both sides of the message in turn, as `destinantion_public_key_from_buffer` takes them.
destinantion_public_key_lem :
    (b p1 p2 p3 : Bytes) (source destination : Bytes)
    → skip 8 b ≡ ok p1
    → peer_key p1 ≡ ok (source, p2)
    → peer_key p2 ≡ ok (destination, p3)
    → destinantion_public_key_from_buffer b ≡ ok destination
unfolding destinantion_public_key_from_buffer peer_key
destinantion_public_key_lem b p1 p2 p3 source destination h k l =
    >>=-elim (skip_peer p1) _ k λ q1 e1 f1. >>=-elim (read_uint 2 q1) _ f1 λ x2 e2 f2.
      >>=-elim (skip_peer p2) _ l λ q3 e3 f3.
        >>=-elim (read_uint 2 q3) _ f3
          λ x4 e4 f4. rw (h, e1, e2, read_bytes-skip x2.0 x2.1 source p2 f2, e3, e4, f4)

header_from_buffer-destinantion_public_key :
    (b p : Bytes) (m : Message) (n : ℕ)
    → header_from_buffer b ≡ ok (m, n, p)
    → destinantion_public_key_from_buffer b ≡ ok m.destination_public_key
unfolding header_from_buffer
header_from_buffer-destinantion_public_key b p m n e =
    elim (Bool-cases (ltb (length b) fixed_size)) [
      | inl short ↦ absurd (cc (rw short at e))
      | inr long ↦ >>=-elim (read_uint 8 b) _ (rw long at e) λ x1 e1 f1.
          >>=-elim (peer_from_buffer fixed_size x1.1) _ f1 λ x2 e2 f2.
            >>=-elim (peer_from_buffer x2.1 x2.2) _ f2 λ x3 e3 f3.
              destinantion_public_key_lem b x1.1 x2.2 x3.2 x2.0.public_key m.destination_public_key
                (read_uint-skip 8 x1.0 b x1.1 e1)
                (peer_from_buffer-peer_key fixed_size x2.1 x1.1 x2.2 x2.0 e2)
                (rw (peer_from_buffer-peer_key x2.1 x3.1 x2.2 x3.2 x3.0 e3) (ground arith))
    ]

-- The test for the receiver sees the key that the message then has.
pub destinantion_public_key-agrees :
    (b : Bytes) (m : Message)
    → message_with_not_decrypted_payload_from_buffer b ≡ ok m
    → destinantion_public_key_from_buffer b ≡ ok m.destination_public_key
unfolding message_with_not_decrypted_payload_from_buffer
destinantion_public_key-agrees b m e =
    >>=-elim (header_from_buffer b) _ e
      λ x e1 f1. rw (header_from_buffer-destinantion_public_key b x.2 x.0 x.1 e1) (ground arith)

header_from_buffer-empty_payload :
    (b p : Bytes) (m : Message) (n : ℕ)
    → header_from_buffer b ≡ ok (m, n, p)
    → m.payload ≡ empty_payload
unfolding header_from_buffer
header_from_buffer-empty_payload b p m n e = ground arith

module _ (D : OpenDht) (J : Json) where
  -- Where the reader that decrypts reads a message, the one that does not reads the same fields, with
  -- the payload left empty; the two go through the buffer each with its own code.
  pub message_from_buffer-agrees :
      (b : Bytes) (k : D.PrivateKey) (m : Message)
      → message_from_buffer D J b k ≡ ok m
      → message_with_not_decrypted_payload_from_buffer b ≡ ok (record m { payload = empty_payload })
  unfolding message_from_buffer message_with_not_decrypted_payload_from_buffer
  message_from_buffer-agrees b k m e =
      >>=-elim (header_from_buffer b) _ (rw (message_header-header b) at e) λ x e1 f1.
        >>=-elim (read_bytes x.1 x.2) _ f1 λ x2 e2 f2.
          >>=-elim (decrypt D x2.0 k) _ f2 λ plain e3 f3.
            >>=-elim (payload_from_buffer J plain) _ f3 λ payload e4 f4.
              rw e1 (ground (arith, header_from_buffer-empty_payload b x.2 x.0 x.1))
