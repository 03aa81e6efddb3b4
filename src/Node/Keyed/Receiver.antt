-- ===== src/Node/Keyed/Receiver.antt =====
-- message_receiver.cpp keeps the invariant of the node.
use p2p_messenger.Prelude.{ℕ, false, Bool-cases, inl, inr, bytes_eq, ◌==◌, length}
use p2p_messenger.Prelude.Bytes.{Bytes}
use p2p_messenger.Prelude.Outcome.{ok}
use p2p_messenger.Prelude.Rules.{
  Keeps, Keeps->>=, Keeps-lift, Keeps-read, Keeps-try_catch, Keeps-if,
}
use p2p_messenger.External.{OpenDht, Json, Net}
use p2p_messenger.Wire.Message.{Message, SignedMessage}
use p2p_messenger.Wire.Deserializer.{
  message_from_buffer, check_signature, signed_message_from_buffer,
  destinantion_public_key_from_buffer, message_with_not_decrypted_payload_from_buffer,
  metadata_from_buffer,
}
use p2p_messenger.Resolver.Book.{resolve}
use p2p_messenger.Resolver.Keyed.{put-IsKeyed}
use p2p_messenger.Node.State.{Config, Node, Endpoint, make_address, public_key_of}
use p2p_messenger.Node.Receiver.{
  put_metadata, accept, receive_own, forward, receive_other, receive_message, receive_metadata,
  async_wait, async_wait_handler, deliver, Event, failed, unread, datagram, entered_at, next_hop,
}
use p2p_messenger.Node.Messenger.{on_received, receive}
use p2p_messenger.Node.Keyed.{
  NodeIsKeyed, Keeps-send_to, Keeps-start_hole_punching, Keeps-on_received,
}

module _ (D : OpenDht) (J : Json) (N : Net) where
  Keeps-put_metadata :
      (login : Bytes) (k : D.PublicKey) (ip : Bytes) (port : ℕ)
      → Keeps (NodeIsKeyed D N) (put_metadata D J N login k ip port)
  unfolding put_metadata
  Keeps-put_metadata login k ip port = record {
    keeps = λ s v. record { metadata = put-IsKeyed D login k ip port v.metadata; dht = v.dht };
  }

  Keeps-accept :
      (c : Config D) (m : Message) (remote : Endpoint N)
      → Keeps (NodeIsKeyed D N) (accept D J N c (on_received D N c) m remote)
  unfolding accept
  Keeps-accept c m remote =
      let (ip, port) = entered_at D J N m remote in
      Keeps->>= (Keeps-lift (public_key_of D m.source_public_key)) λ key.
        Keeps->>= (Keeps-put_metadata m.source_login key ip port) λ _.
          Keeps->>= (Keeps-start_hole_punching D N c.punch_buffer ip port)
            λ _. Keeps-on_received D N c m

  Keeps-receive_own :
      (c : Config D) (signed : SignedMessage) (remote : Endpoint N)
      → Keeps (NodeIsKeyed D N) (receive_own D J N c (on_received D N c) signed remote)
  unfolding receive_own
  Keeps-receive_own c signed remote =
      Keeps-try_catch
        (Keeps->>= (Keeps-lift (message_from_buffer D J signed.message c.private_key)) λ m.
          Keeps->>= (Keeps-lift (public_key_of D m.source_public_key)) λ key.
            Keeps-if (check_signature D signed key) (Keeps-accept c m remote) (Keeps-lift (ok tt)))
        (λ e. Keeps-lift (ok tt))

  Keeps-forward : (m : Message) (b : Bytes) → Keeps (NodeIsKeyed D N) (forward D J N m b)
  unfolding forward
  Keeps-forward m b =
      Keeps-try_catch
        (Keeps->>= (Keeps-lift (public_key_of D m.destination_public_key)) λ key.
          Keeps->>= (Keeps-read λ s. resolve D m.destination_login (D.get_id key) s.metadata)
            λ address. Keeps->>= (Keeps-lift (next_hop D J N m address)) λ hop.
              Keeps->>= (Keeps-lift (make_address D N hop.0))
                λ destination. Keeps-send_to D N b (destination, hop.1))
        (λ e. Keeps-lift (ok tt))

  Keeps-receive_other :
      (c : Config D) (signed : SignedMessage) (b : Bytes)
      → Keeps (NodeIsKeyed D N) (receive_other D J N c signed b)
  unfolding receive_other
  Keeps-receive_other c signed b =
      Keeps->>= (Keeps-lift (message_with_not_decrypted_payload_from_buffer signed.message)) λ m.
        Keeps->>= (Keeps-lift (public_key_of D m.source_public_key)) λ key.
          Keeps-if (check_signature D signed key)
            (Keeps-if c.relay (Keeps-forward m b) (Keeps-lift (ok tt))) (Keeps-lift (ok tt))

  Keeps-receive_message :
      (c : Config D) (b : Bytes) (remote : Endpoint N)
      → Keeps (NodeIsKeyed D N) (receive_message D J N c (on_received D N c) b remote)
  unfolding receive_message
  Keeps-receive_message c b remote = Keeps->>= (Keeps-lift (signed_message_from_buffer b)) λ signed.
      Keeps->>= (Keeps-lift (destinantion_public_key_from_buffer signed.message)) λ key.
        Keeps-if (bytes_eq.beq key (D.to_string (D.public_key c.private_key)))
          (Keeps-receive_own c signed remote) (Keeps-receive_other c signed b)

  Keeps-receive_metadata :
      (b : Bytes) (remote : Endpoint N) → Keeps (NodeIsKeyed D N) (receive_metadata D J N b remote)
  unfolding receive_metadata
  Keeps-receive_metadata b remote = Keeps->>= (Keeps-lift (metadata_from_buffer b)) λ read.
      Keeps->>= (Keeps-lift (public_key_of D read.1))
        λ key. Keeps-put_metadata read.0 key (N.address_to_string remote.0) remote.1

  Keeps-async_wait : Keeps (NodeIsKeyed D N) (async_wait D J N)
  unfolding async_wait
  Keeps-async_wait = record { keeps = λ s v. record { metadata = v.metadata; dht = v.dht } }

  Keeps-async_wait_handler :
      (c : Config D) (event : Event D J N)
      → Keeps (NodeIsKeyed D N) (async_wait_handler D J N c (on_received D N c) event)
  unfolding async_wait_handler
  Keeps-async_wait_handler c failed = Keeps-async_wait
  Keeps-async_wait_handler c unread = Keeps-lift _
  Keeps-async_wait_handler c (datagram available b remote) =
      Keeps-if (available == length b)
        (Keeps->>=
          (Keeps-try_catch (Keeps-receive_message c b remote) λ e. Keeps-receive_metadata b remote)
          λ _. Keeps-async_wait)
        (Keeps-lift _)

  -- Whatever datagram comes.
  pub receive-NodeIsKeyed :
      (c : Config D) (event : Event D J N) (s : Node D N)
      → NodeIsKeyed D N s
      → NodeIsKeyed D N (receive D J N c event s).1
  unfolding receive deliver
  receive-NodeIsKeyed c event s v = elim (Bool-cases s.waiting) [
    | inl waits ↦ rw waits (
        (Keeps-async_wait_handler c event).keeps (record s { waiting = false })
          (record { metadata = v.metadata; dht = v.dht }))
    | inr busy ↦ rw busy (record { metadata = v.metadata; dht = v.dht })
  ]
