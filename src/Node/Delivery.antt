-- ===== src/Node/Delivery.antt =====
-- A message from the sender of one node to the receiver of another: message_sender.cpp against
-- message_receiver.cpp.
use p2p_messenger.Prelude.{
  ℕ, ◌+◌, ◌^◌, ◌≤◌, ◌<◌, ◌≡◌, ◌∙◌, ap, true, Option, none, some, ◌++◌, arith, length, ◌-◌,
  length-append, length-replicate, bytes_eq, beq_refl,
}
use p2p_messenger.Prelude.Bytes.{Bytes}
use p2p_messenger.Prelude.Outcome.{ok, Exception, or_throw, >>=-elim}
use p2p_messenger.Prelude.Program.{Program, try_catch, return}
use p2p_messenger.External.{OpenDht, IsLawfulDht, Json, IsLawfulJson, Net}
use p2p_messenger.Wire.Message.{Message, SignedMessage, MessageFits, clip_fits}
use p2p_messenger.Wire.Serializer.{
  payload_to_buffer, encrypt, encrypt_payload, message_to_buffer, sign, signed_message_to_buffer,
}
use p2p_messenger.Wire.Deserializer.{
  signed_message_from_buffer, destinantion_public_key_from_buffer, message_from_buffer,
  check_signature,
}
use p2p_messenger.Wire.Layout.{
  message_layout, signed_layout, padding, message_size, message_to_buffer_with_payload-layout,
  signed_message_to_buffer-layout,
}
use p2p_messenger.Wire.RoundTrip.{signed_message_from_buffer-layout, destinantion_public_key-layout}
use p2p_messenger.Wire.Payload.{PayloadFits, message_from_buffer-layout}
use p2p_messenger.Node.State.{Config, Node, Endpoint}
use p2p_messenger.Node.Sender.{sealed}
use p2p_messenger.Node.Receiver.{accept, receive_own, receive_message}

pub or_throw-eq-ok :
    {A : Type 0} (o : Option A) (e : Exception) {a : A} → or_throw o e ≡ ok a → o ≡ some a
or_throw-eq-ok none e h = absurd (cc h)
or_throw-eq-ok (some b) e h = ground arith

-- The bytes that are signed, and the datagram.
abbrev message_bytes : Message → Bytes → Bytes
message_bytes m cipher =
    message_layout m cipher ++ padding (message_size m cipher) (message_layout m cipher)

abbrev datagram_bytes : SignedMessage → Bytes
datagram_bytes s =
    signed_layout s ++ padding (2 + length s.message + (2 + length s.signature)) (signed_layout s)

length-padded : (size : ℕ) (xs : Bytes) → size ≤ length (xs ++ padding size xs)
length-padded size xs =
    omega (arith, length-append xs (padding size xs), length-replicate {A = ℕ} (size - length xs) 0)

module _ (D : OpenDht) (J : Json) where
  message_to_buffer_lem :
      (m : Message) (k : D.PublicKey) (b : Bytes)
      → message_to_buffer D J m (some k) ≡ ok b
      → (cipher : Bytes) × (D.encrypt k (payload_to_buffer J m.payload) ≡ some cipher)
        × (b ≡ message_bytes m cipher)
  unfolding message_to_buffer encrypt_payload encrypt
  message_to_buffer_lem m k b e =
      >>=-elim (encrypt D (payload_to_buffer J m.payload) k) _ e λ cipher e1 f1. (
        cipher,
        or_throw-eq-ok _ _ e1,
        ground (arith, message_to_buffer_with_payload-layout m cipher),
      )

  -- What a datagram of the sender consists of.
  sealed_lem :
      (c : Config D) (k : D.PublicKey) (m : Message) (datagram : Bytes)
      → sealed D J c k m ≡ ok datagram
      → (cipher signature : Bytes) × (D.encrypt k (payload_to_buffer J m.payload) ≡ some cipher)
        × (D.sign c.private_key (message_bytes m cipher) ≡ some signature)
        × (datagram
            ≡ datagram_bytes (record { message = message_bytes m cipher; signature = signature }))
  unfolding sealed sign
  sealed_lem c k m datagram e = >>=-elim (message_to_buffer D J m (some k)) _ e λ b e1 f1.
      >>=-elim (sign D b c.private_key) _ f1 λ signature e2 f2.
        let (cipher, e3, e4) = message_to_buffer_lem m k b e1 in
        (
          cipher,
          signature,
          e3,
          rw e4 at (or_throw-eq-ok _ _ e2),
          written (record { message = message_bytes m cipher; signature = signature })
              (rw e4 at f2),
        )
    where
      written :
          (s : SignedMessage)
          → signed_message_to_buffer s ≡ ok datagram
          → datagram ≡ datagram_bytes s
      written s h = ground (arith, signed_message_to_buffer-layout s)

-- What the receiver makes of a datagram, by what its readers return.
module _ (D : OpenDht) (J : Json) (N : Net) where
  receive_message_lem :
      (c : Config D) (handler : Message → Program (Node D N) (Unit {0})) (m : Message)
      (key : D.PublicKey) (signed : SignedMessage) (datagram : Bytes) (remote : Endpoint N)
      (s : Node D N)
      → signed_message_from_buffer datagram ≡ ok signed
      → destinantion_public_key_from_buffer signed.message
        ≡ ok (D.to_string (D.public_key c.private_key))
      → message_from_buffer D J signed.message c.private_key ≡ ok m
      → D.of_string m.source_public_key ≡ some key
      → check_signature D signed key ≡ true
      → receive_message D J N c handler datagram remote s
        ≡ try_catch (accept D J N c handler m remote) (λ e. return tt) s
  unfolding receive_message receive_own
  receive_message_lem c handler m key signed datagram remote s e1 e2 e3 e4 e5 =
      rw (e1, e2, beq_refl ⦃e = bytes_eq⦄ (D.to_string (D.public_key c.private_key)), e3, e4, e5)

module _ (D : OpenDht) (J : Json) (LD : IsLawfulDht D) (LJ : IsLawfulJson J) (N : Net) where
  -- A datagram that a sender made for a key whose message says so, and that fits a datagram of UDP,
  -- is accepted by the receiver that has the private key, with the very message.
  pub receive_message-sealed :
      (c c' : Config D) (handler : Message → Program (Node D N) (Unit {0})) (m : Message)
      (datagram : Bytes) (remote : Endpoint N) (s : Node D N)
      → MessageFits m
      → PayloadFits J m.payload
      → m.source_public_key ≡ D.to_string (D.public_key c.private_key)
      → m.destination_public_key ≡ D.to_string (D.public_key c'.private_key)
      → sealed D J c (D.public_key c'.private_key) m ≡ ok datagram
      → length datagram < 2 ^ 16
      → receive_message D J N c' handler datagram remote s
        ≡ try_catch (accept D J N c' handler m remote) (λ e. return tt) s
  unfolding check_signature
  receive_message-sealed c c' handler m datagram remote s fits json src dst e small =
      let (cipher, signature, e1, e2, e3) =
        sealed_lem D J c (D.public_key c'.private_key) m datagram e in
      let b : Bytes = message_bytes m cipher in
      let signed : SignedMessage = record { message = b; signature = signature } in
      let size : 2 + length b + (2 + length signature) ≤ length datagram =
        rw e3 (length-padded (2 + length b + (2 + length signature)) (signed_layout signed)) in
      let size' : message_size m cipher ≤ length b =
        length-padded (message_size m cipher) (message_layout m cipher) in
      receive_message_lem D J N c' handler m (D.public_key c.private_key) signed datagram remote s
        (rw (
          e3,
          signed_message_from_buffer-layout signed
              (padding (2 + length b + (2 + length signature)) (signed_layout signed)),
          clip_fits 2 b (omega (arith, size)),
          clip_fits 2 signature (omega (arith, size)),
        ))
        (destinantion_public_key-layout m cipher
            (padding (message_size m cipher) (message_layout m cipher))
          ∙ ap ok (clip_fits 2 m.destination_public_key fits.destination.public_key ∙ dst))
        (message_from_buffer-layout D J LD LJ m c'.private_key cipher
          (padding (message_size m cipher) (message_layout m cipher)) fits json e1
          (omega (arith, size, size')))
        (ap D.of_string src ∙ LD.of_string-to_string (D.public_key c.private_key))
        (LD.check_signature-sign c.private_key b signature e2)
