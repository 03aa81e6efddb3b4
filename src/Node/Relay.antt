-- ===== src/Node/Relay.antt =====
-- message_receiver.cpp on a relay node: a message for somebody else goes on.
use p2p_messenger.Address.{address_of}
use p2p_messenger.Address.Parse.{Lacks, get_ip_and_port-address_of}
use p2p_messenger.Prelude.{
  ◌<◌, ◌^◌, Option, none, ◌≡◌, ◌≢◌, true, false, some, [], ◌∷◌, ◌++◌, ℕ, length, bytes_eq, beq_ne,
  ==_iff, refl,
}
use p2p_messenger.Prelude.Bytes.{Bytes}
use p2p_messenger.Prelude.Outcome.{ok}
use p2p_messenger.External.{OpenDht, Json, Net}
use p2p_messenger.Wire.Message.{Message, SignedMessage}
use p2p_messenger.Wire.Deserializer.{
  signed_message_from_buffer, destinantion_public_key_from_buffer,
  message_with_not_decrypted_payload_from_buffer, check_signature,
}
use p2p_messenger.Resolver.Book.{resolve}
use p2p_messenger.Node.State.{Config, Node, Endpoint, send_to}
use p2p_messenger.Node.Receiver.{
  receive_message, receive_other, forward, next_hop, async_wait_handler, async_wait, deliver,
  datagram,
}
use p2p_messenger.Node.Messenger.{receive}

-- Where a message for somebody else has to go: to where the relay has the receiver, and if it has
-- nothing, to the receiver's address in the message.
pub data GoesTo (m : Message) : Option Bytes → Bytes → ℕ → Type 0 where
  as_known :
      (ip : Bytes) (port : ℕ)
      → Lacks b':' ip
      → port < 2 ^ 16
      → GoesTo m (some (address_of ip port)) ip port
  as_written : GoesTo m none m.destination_ip m.destination_port

module _ (D : OpenDht) (J : Json) (N : Net) where
  next_hop-GoesTo :
      (m : Message) (known : Option Bytes) (ip : Bytes) (port : ℕ)
      → GoesTo m known ip port
      → next_hop D J N m known ≡ ok (ip, port)
  unfolding next_hop
  next_hop-GoesTo m _ ip port (as_known _ _ lacks fits) =
      get_ip_and_port-address_of ip port lacks fits
  next_hop-GoesTo m _ ip port as_written = refl

  -- A relay that waits passes a readable and well signed message for another key on, byte for
  -- byte, in one datagram: to the address and port that its metadata has for the receiver, written
  -- with a text that has no colon and a port of 16 bits, and where it has none to those in the
  -- message. Nothing else changes, and it waits again; provided that the address can be made and the
  -- socket takes the datagram.
  pub receive_relayed :
      (c : Config D) (b destination ip : Bytes) (port : ℕ) (signed : SignedMessage) (m : Message)
      (source_key destination_key : D.PublicKey) (address : N.Address) (remote : Endpoint N)
      (s : Node D N)
      → s.waiting ≡ true
      → c.relay ≡ true
      → signed_message_from_buffer b ≡ ok signed
      → destinantion_public_key_from_buffer signed.message ≡ ok destination
      → destination ≢ D.to_string (D.public_key c.private_key)
      → message_with_not_decrypted_payload_from_buffer signed.message ≡ ok m
      → D.of_string m.source_public_key ≡ some source_key
      → check_signature D signed source_key ≡ true
      → D.of_string m.destination_public_key ≡ some destination_key
      → GoesTo m (resolve D m.destination_login (D.get_id destination_key) s.metadata) ip port
      → N.make_address ip ≡ some address
      → N.send_fails s.sent (b, address, port) ≡ false
      → receive D J N c (datagram (length b) b remote) s
        ≡ (ok tt, record s { sent = s.sent ++ ((b, address, port) ∷ []) })
  unfolding receive deliver async_wait_handler async_wait receive_message receive_other forward
      send_to
  receive_relayed c b destination ip port signed m source_key destination_key address remote s waits
        relays e1 e2 other e3 e4 e5 e6 e7 e8 e9 =
      rw (
        waits,
        (==_iff (length b) (length b)).1 refl,
        e1,
        e2,
        beq_ne ⦃e = bytes_eq⦄ destination (D.to_string (D.public_key c.private_key)) other,
        e3,
        e4,
        e5,
        relays,
        e6,
        next_hop-GoesTo m (resolve D m.destination_login (D.get_id destination_key) s.metadata) ip
            port e7,
        e8,
        e9,
      )
