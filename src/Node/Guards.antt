-- ===== src/Node/Guards.antt =====
-- message_receiver.cpp: datagrams that the receiver has no use for, and those that stop it.
use p2p_messenger.Prelude.{
  ◌+◌, ◌≡◌, ◌≢◌, refl, true, false, none, some, arith, length, bytes_eq, beq_refl, beq_ne, ==_iff,
  ltb, Bool-cases, inl, inr,
}
use p2p_messenger.Prelude.Bytes.{Bytes}
use p2p_messenger.Prelude.Outcome.{ok, throw, crypto_error, >>=-elim}
use p2p_messenger.External.{OpenDht, Json, Net}
use p2p_messenger.Wire.Message.{Message, SignedMessage}
use p2p_messenger.Wire.Deserializer.{
  signed_message_from_buffer, destinantion_public_key_from_buffer, message_from_buffer,
  message_with_not_decrypted_payload_from_buffer, metadata_from_buffer, check_signature,
}
use p2p_messenger.Wire.Memory.{read_uint, read_bytes}
use p2p_messenger.Node.State.{Config, Node, Endpoint}
use p2p_messenger.Node.Receiver.{
  receive_own, receive_other, receive_message, receive_metadata, async_wait_handler, async_wait,
  deliver, Event, datagram,
}
use p2p_messenger.Node.Messenger.{on_received, receive}

module _ (D : OpenDht) (J : Json) (N : Net) where
  -- A datagram that is handled without an exception.
  receive_handled :
      (c : Config D) (b : Bytes) (remote : Endpoint N) (s : Node D N)
      → s.waiting ≡ true
      → receive_message D J N c (on_received D N c) b remote (record s { waiting = false })
        ≡ (ok tt, record s { waiting = false })
      → receive D J N c (datagram (length b) b remote) s ≡ (ok tt, s)
  unfolding receive deliver async_wait_handler async_wait
  receive_handled c b remote s waits e = rw (waits, (==_iff (length b) (length b)).1 refl, e)

  -- A readable message for this node whose signature is not that of the key in it changes nothing
  -- at a receiver that waits, and it waits again.
  pub receive_forged :
      (c : Config D) (b : Bytes) (signed : SignedMessage) (m : Message) (key : D.PublicKey)
      (remote : Endpoint N) (s : Node D N)
      → s.waiting ≡ true
      → signed_message_from_buffer b ≡ ok signed
      → destinantion_public_key_from_buffer signed.message
        ≡ ok (D.to_string (D.public_key c.private_key))
      → message_from_buffer D J signed.message c.private_key ≡ ok m
      → D.of_string m.source_public_key ≡ some key
      → check_signature D signed key ≡ false
      → receive D J N c (datagram (length b) b remote) s ≡ (ok tt, s)
  unfolding receive_message receive_own
  receive_forged c b signed m key remote s waits e1 e2 e3 e4 e5 =
      receive_handled c b remote s waits (
        rw (e1, e2, beq_refl ⦃e = bytes_eq⦄ (D.to_string (D.public_key c.private_key)), e3, e4, e5))

  -- A readable message for another key changes nothing at a waiting receiver that is no relay,
  -- whether or not its signature is good, and it waits again.
  pub receive_other_no_relay :
      (c : Config D) (b destination : Bytes) (signed : SignedMessage) (m : Message)
      (key : D.PublicKey) (remote : Endpoint N) (s : Node D N)
      → s.waiting ≡ true
      → c.relay ≡ false
      → signed_message_from_buffer b ≡ ok signed
      → destinantion_public_key_from_buffer signed.message ≡ ok destination
      → destination ≢ D.to_string (D.public_key c.private_key)
      → message_with_not_decrypted_payload_from_buffer signed.message ≡ ok m
      → D.of_string m.source_public_key ≡ some key
      → receive D J N c (datagram (length b) b remote) s ≡ (ok tt, s)
  unfolding receive_message receive_other
  receive_other_no_relay c b destination signed m key remote s waits plain e1 e2 other e3 e4 =
      receive_handled c b remote s waits (
        rw
          (
            e1,
            e2,
            beq_ne ⦃e = bytes_eq⦄ destination (D.to_string (D.public_key c.private_key)) other,
            e3,
            e4,
            plain,
          )
          (ground arith))

  -- What is a signed message is also metadata: the two formats are one.
  pub signed-metadata :
      (b : Bytes) (signed : SignedMessage)
      → signed_message_from_buffer b ≡ ok signed
      → metadata_from_buffer b ≡ ok (signed.message, signed.signature)
  unfolding signed_message_from_buffer metadata_from_buffer
  signed-metadata b signed e = elim (Bool-cases (ltb (length b) (2 + 2))) [
    | inl short ↦ absurd (cc (rw short at e))
    | inr long ↦ >>=-elim (read_uint 2 b) _ (rw long at e) λ x1 e1 f1.
        >>=-elim (read_bytes x1.0 x1.1) _ f1 λ x2 e2 f2.
          >>=-elim (read_uint 2 x2.1) _ f2 λ x3 e3 f3.
            >>=-elim (read_bytes x3.0 x3.1) _ f3 λ x4 e4 f4. rw (e1, e2, e3, e4) (ground arith)
  ]

  not_waiting :
      (c : Config D) (event : Event D J N) (s : Node D N)
      → s.waiting ≡ false
      → receive D J N c event s ≡ (ok tt, s)
  unfolding receive deliver
  not_waiting c event s e = ground arith

  -- A message for another key that names no key as its source, with a signature that is no key, at
  -- a receiver that waits: the exception leaves the handler, no wait is pending any more, and no
  -- later event changes the node.
  pub receive_stops :
      (c : Config D) (b destination : Bytes) (signed : SignedMessage) (m : Message)
      (remote : Endpoint N) (s : Node D N)
      → s.waiting ≡ true
      → signed_message_from_buffer b ≡ ok signed
      → destinantion_public_key_from_buffer signed.message ≡ ok destination
      → destination ≢ D.to_string (D.public_key c.private_key)
      → message_with_not_decrypted_payload_from_buffer signed.message ≡ ok m
      → D.of_string m.source_public_key ≡ none
      → D.of_string signed.signature ≡ none
      → let t = record s { waiting = false } in
        (receive D J N c (datagram (length b) b remote) s ≡ (throw crypto_error, t))
        × ((event : Event D J N) → receive D J N c event t ≡ (ok tt, t))
  unfolding receive deliver async_wait_handler receive_message receive_other receive_metadata
  receive_stops c b destination signed m remote s waits e1 e2 other e3 e4 e5 = (
    rw (
      waits,
      (==_iff (length b) (length b)).1 refl,
      e1,
      e2,
      beq_ne ⦃e = bytes_eq⦄ destination (D.to_string (D.public_key c.private_key)) other,
      e3,
      e4,
      signed-metadata b signed e1,
      e5,
    ),
    λ event. not_waiting c event (record s { waiting = false }) refl,
  )
