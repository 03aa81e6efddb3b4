-- ===== src/Runtime/Termination.antt =====
-- Exceptions that leave a thread of p2p_messenger_impl.cpp: none of the handlers' callers catches.
use p2p_messenger.Prelude.{ℕ, ◌≡◌, ◌≢◌, ◌∙◌, true, none, some, List, length}
use p2p_messenger.Prelude.Bytes.{Bytes}
use p2p_messenger.Prelude.Outcome.{ok}
use p2p_messenger.External.{OpenDht, Json, Net}
use p2p_messenger.Wire.Message.{Message, SignedMessage}
use p2p_messenger.Wire.Deserializer.{
  signed_message_from_buffer, destinantion_public_key_from_buffer,
  message_with_not_decrypted_payload_from_buffer,
}
use p2p_messenger.Node.State.{Endpoint}
use p2p_messenger.Node.Receiver.{datagram}
use p2p_messenger.Node.Guards.{receive_stops}
use p2p_messenger.Runtime.{
  Process, Handler, ready, event, terminated, finish, run_handler, members, take_at,
}
use p2p_messenger.Runtime.Threads.{finish_lem}

module _ (D : OpenDht) (J : Json) (N : Net) where
  -- A datagram for another key that names no key as its source, with a signature that is no key,
  -- ends the program of a receiver that waits and of which no member is destroyed.
  pub receive_terminates :
      (p : Process D J N) (n : ℕ) (rest : List (Handler D J N)) (b destination : Bytes)
      (signed : SignedMessage) (m : Message) (remote : Endpoint N)
      → p.alive ≡ members
      → take_at n p.running ≡ some (ready (event (datagram (length b) b remote)), rest)
      → p.node.waiting ≡ true
      → signed_message_from_buffer b ≡ ok signed
      → destinantion_public_key_from_buffer signed.message ≡ ok destination
      → destination ≢ D.to_string (D.public_key p.config.private_key)
      → message_with_not_decrypted_payload_from_buffer signed.message ≡ ok m
      → D.of_string m.source_public_key ≡ none
      → D.of_string signed.signature ≡ none
      → finish D J N n p ≡ terminated
  unfolding run_handler
  receive_terminates p n rest b destination signed m remote alive f waits e1 e2 other e3 e4 e5 =
      finish_lem D J N p n (ready (event (datagram (length b) b remote))) rest alive f
      ∙ rw
          (receive_stops D J N p.config b destination signed m remote p.node waits e1 e2 other e3 e4
            e5).0
