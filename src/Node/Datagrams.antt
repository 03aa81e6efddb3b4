-- ===== src/Node/Datagrams.antt =====
-- message_receiver.cpp: the datagrams of the hole puncher, and those that were cut.
use p2p_messenger.Prelude.{
  ℕ, ◌+◌, ◌^◌, ◌≤◌, ◌<◌, ◌≡◌, refl, true, false, [], ◌∷◌, ◌++◌, arith, length, bytes_eq, ==_iff,
  ltb, Bool-cases, inl, inr, append-nil,
}
use p2p_messenger.Prelude.Bytes.{Bytes}
use p2p_messenger.Prelude.Outcome.{Outcome, ok, throw, undefined, length_error, Outcome-cases}
use p2p_messenger.External.{OpenDht, Json, Net}
use p2p_messenger.Wire.Message.{clip_fits}
use p2p_messenger.Wire.Deserializer.{
  signed_message_from_buffer, destinantion_public_key_from_buffer, metadata_from_buffer, skip_peer,
}
use p2p_messenger.Wire.Reads.{
  Reads, within, outside, Reads-bind, Reads-weaken, read_uint-Reads, read_bytes-Reads, skip-Reads,
}
use p2p_messenger.Wire.Bounds.{signed_message_from_buffer_late_check}
use p2p_messenger.Wire.Metadata.{metadata_layout, metadata_from_buffer_truncated}
use p2p_messenger.Wire.Layout.{signed_layout}
use p2p_messenger.Wire.RoundTrip.{signed_message_from_buffer-layout}
use p2p_messenger.Node.State.{Config, Node, Endpoint}
use p2p_messenger.Node.Receiver.{
  receive_message, receive_metadata, async_wait_handler, deliver, datagram,
}
use p2p_messenger.Node.Messenger.{on_received, receive}
use p2p_messenger.Node.Guards.{signed-metadata}

skip_peer-Reads : (p : Bytes) → Reads (λ x. 4 + length x ≤ length p) (skip_peer p)
unfolding skip_peer
skip_peer-Reads p = Reads-bind (read_uint-Reads 1 p) λ x1 h1.
    Reads-bind (skip-Reads x1.0 x1.1) λ p2 h2. Reads-bind (skip-Reads 2 p2) λ p3 h3.
      Reads-bind (read_uint-Reads 1 p3)
        λ x4 h4. Reads-weaken (skip-Reads x4.0 x4.1) λ p5 h5. omega arith

destinantion_public_key-Reads :
    (b : Bytes) → Reads (λ x. 20 ≤ length b) (destinantion_public_key_from_buffer b)
unfolding destinantion_public_key_from_buffer
destinantion_public_key-Reads b = Reads-bind (skip-Reads 8 b) λ p1 h1.
    Reads-bind (skip_peer-Reads p1) λ p2 h2. Reads-bind (read_uint-Reads 2 p2) λ x3 h3.
      Reads-bind (skip-Reads x3.0 x3.1) λ p4 h4. Reads-bind (skip_peer-Reads p4) λ p5 h5.
        Reads-bind (read_uint-Reads 2 p5)
          λ x6 h6. Reads-bind (read_bytes-Reads x6.0 x6.1) λ x7 h7. within (omega arith)

Reads-none :
    {A : Type 0} {P : A → Type 0} {r : Outcome A} → Reads P r → ((a : A) → ¬ P a) → r ≡ undefined
Reads-none (within {a} p) h = absurd (h a p)
Reads-none outside h = refl

-- No size of the buffer is compared: what is shorter than the fields of fixed size is left.
pub destinantion_public_key_short :
    (b : Bytes) → length b < 20 → destinantion_public_key_from_buffer b ≡ undefined
destinantion_public_key_short b h = Reads-none (destinantion_public_key-Reads b) λ x k. omega arith

module _ (D : OpenDht) (J : Json) (N : Net) where
  receive_undefined :
      (c : Config D) (b : Bytes) (remote : Endpoint N) (s t : Node D N)
      → s.waiting ≡ true
      → receive_message D J N c (on_received D N c) b remote (record s { waiting = false })
        ≡ (undefined, t)
      → (receive D J N c (datagram (length b) b remote) s).0 ≡ undefined
  unfolding receive deliver async_wait_handler
  receive_undefined c b remote s t waits e = rw (waits, (==_iff (length b) (length b)).1 refl, e)

  short_buffer :
      (b : Bytes)
      → ltb (length b) (2 + 2) ≡ true
      → signed_message_from_buffer b ≡ throw length_error
  unfolding signed_message_from_buffer
  short_buffer b h = rw h

  receive_no_metadata :
      (c : Config D) (b : Bytes) (remote : Endpoint N) (s : Node D N)
      → s.waiting ≡ true
      → metadata_from_buffer b ≡ undefined
      → (receive D J N c (datagram (length b) b remote) s).0 ≡ undefined
  unfolding receive deliver async_wait_handler receive_message receive_metadata
  receive_no_metadata c b remote s waits e = elim (Bool-cases (ltb (length b) (2 + 2))) [
    | inl short ↦ rw (waits, (==_iff (length b) (length b)).1 refl, short_buffer b short, e)
    | inr long ↦ elim (Outcome-cases (signed_message_from_buffer b)) [
      | inl (signed, f) ↦ absurd (cc (e, signed-metadata D J N b signed f))
      | inr (inl (x, f)) ↦ absurd (ground (arith, signed_message_from_buffer_late_check b))
      | inr (inr f) ↦ rw (waits, (==_iff (length b) (length b)).1 refl, f)
    ]
  ]

  -- A whole datagram in the format of the hole puncher, of a login of less than 20 bytes and a key
  -- whose size fits two bytes, at a receiver that waits: its login is taken for a message, and the
  -- search for a key in it leaves the buffer.
  pub receive_punch_undefined :
      (c : Config D) (login public_key : Bytes) (remote : Endpoint N) (s : Node D N)
      → s.waiting ≡ true
      → length login < 20
      → length public_key < 2 ^ 16
      → let b = metadata_layout login public_key in
        (receive D J N c (datagram (length b) b remote) s).0 ≡ undefined
  unfolding metadata_layout receive_message signed_layout
  receive_punch_undefined c login public_key remote s waits short fits =
      receive_undefined c (metadata_layout login public_key) remote s (record s { waiting = false })
        waits (rw (read, destinantion_public_key_short login short))
    where
      read :
          signed_message_from_buffer (metadata_layout login public_key)
          ≡ ok (record { message = login; signature = public_key })
      read =
          rw (clip_fits 2 login (omega (arith, short)), clip_fits 2 public_key fits) at
            (rw append-nil at (
              signed_message_from_buffer-layout (record { message = login; signature = public_key })
                []))

  -- A datagram in the format of the hole puncher that was cut anywhere, at a receiver that waits:
  -- no size is compared, and the handler reads past its end.
  pub receive_truncated :
      (c : Config D) (login public_key front back : Bytes) (x : ℕ) (remote : Endpoint N)
      (s : Node D N)
      → s.waiting ≡ true
      → metadata_layout login public_key ≡ front ++ (x ∷ back)
      → (receive D J N c (datagram (length front) front remote) s).0 ≡ undefined
  receive_truncated c login public_key front back x remote s waits e =
      receive_no_metadata c front remote s waits
        (metadata_from_buffer_truncated login public_key front back x e)
