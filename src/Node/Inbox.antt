-- ===== src/Node/Inbox.antt =====
-- What an accepted message does to the receiving node: message_receiver.cpp and the handler that
-- p2p_messenger_impl.cpp gives it.
use p2p_messenger.Prelude.{
  ◌^◌, ◌<◌, ◌≡◌, refl, ◌∙◌, true, false, some, none, [], ◌∷◌, ◌++◌, length, append_assoc, bytes_eq,
  ==_iff,
}
use p2p_messenger.Prelude.Bytes.{Bytes}
use p2p_messenger.Prelude.Outcome.{ok, throw, system_error}
use p2p_messenger.Prelude.Program.{Program}
use p2p_messenger.External.{OpenDht, IsLawfulDht, Json, IsLawfulJson, Net}
use p2p_messenger.Wire.Message.{Message, MessageFits}
use p2p_messenger.Wire.Payload.{PayloadFits}
use p2p_messenger.ChatHistory
use p2p_messenger.Resolver.Metadata
use p2p_messenger.Node.State.{Config, Node, Endpoint, send_to, message_received, contact_received}
use p2p_messenger.Node.HolePuncher.{start_hole_punching, hole_punch}
use p2p_messenger.Node.Sender.{sealed}
use p2p_messenger.Node.Receiver.{
  accept, put_metadata, entered_at, receive_message, async_wait_handler, deliver, async_wait,
  datagram,
}
use p2p_messenger.Node.Messenger.{on_received, receive}
use p2p_messenger.Node.Delivery.{receive_message-sealed}

module _ (D : OpenDht) (J : Json) (N : Net) where
  -- The node after it has entered the address of the holder of `key`.
  abbrev pub entered : Message → D.PublicKey → Endpoint N → Node D N → Node D N
  entered m key remote s =
      let (ip, port) = entered_at D J N m remote in
      record s { metadata = Metadata.put D m.source_login key ip port s.metadata }

  -- The node after it has accepted `m` from the holder of `key`.
  abbrev pub accepted :
      Config D → Message → D.PublicKey → Endpoint N → N.Address → Node D N → Node D N
  accepted c m key remote address s =
      let (ip, port) = entered_at D J N m remote in
      record s {
        metadata = Metadata.put D m.source_login key ip port s.metadata;
        history = ChatHistory.append D (D.get_id key) m.source_login m.payload.text s.history;
        timers = s.timers ++ ((address, port) ∷ []);
        sent = s.sent ++ ((c.punch_buffer, address, port) ∷ []);
        signals =
            s.signals
            ++ (contact_received (record { login = m.source_login; public_key_id = D.get_id key })
                ∷ message_received m
                ∷ []);
      }

  accept-on_received :
      (c : Config D) (m : Message) (key : D.PublicKey) (remote : Endpoint N) (address : N.Address)
      (s : Node D N)
      → D.of_string m.source_public_key ≡ some key
      → D.of_string m.destination_public_key ≡ some (D.public_key c.private_key)
      → D.same_key (D.public_key c.private_key) (D.public_key c.private_key) ≡ true
      → N.make_address (entered_at D J N m remote).0 ≡ some address
      → N.send_fails s.sent (c.punch_buffer, address, (entered_at D J N m remote).1) ≡ false
      → accept D J N c (on_received D N c) m remote s ≡ (ok tt, accepted c m key remote address s)
  unfolding accept put_metadata start_hole_punching hole_punch send_to on_received
  accept-on_received c m key remote address s e1 e2 e3 e4 e5 = rw (e1, e4, e5, e2, e3, append_assoc)

  accept_unpunched :
      (c : Config D) (handler : Message → Program (Node D N) (Unit {0})) (m : Message)
      (key : D.PublicKey) (remote : Endpoint N) (s : Node D N)
      → D.of_string m.source_public_key ≡ some key
      → N.make_address (entered_at D J N m remote).0 ≡ none
      → accept D J N c handler m remote s ≡ (throw system_error, entered m key remote s)
  unfolding accept put_metadata start_hole_punching
  accept_unpunched c handler m key remote s e1 e2 = rw (e1, e2)

  -- The io_context gives a datagram to a receiver that waits; one that throws is not lost on the way.
  receive_lem :
      (c : Config D) (buffer : Bytes) (remote : Endpoint N) (s t : Node D N)
      → s.waiting ≡ true
      → receive_message D J N c (on_received D N c) buffer remote (record s { waiting = false })
        ≡ (ok tt, t)
      → receive D J N c (datagram (length buffer) buffer remote) s
        ≡ (ok tt, record t { waiting = true })
  unfolding receive deliver async_wait_handler async_wait
  receive_lem c buffer remote s t e1 e2 =
      rw (e1, (==_iff (length buffer) (length buffer)).1 refl, e2)

module _ (D : OpenDht) (J : Json) (LD : IsLawfulDht D) (LJ : IsLawfulJson J) (N : Net) where
  -- From node to node: for a datagram that fits UDP and that `c` sealed for `c'`, of a message whose
  -- fields fit and that names the two keys, a receiver that waits adds the line to the chat of the
  -- sender's key and enters the sender's address, punches a hole to it, tells of the contact and of
  -- the message, in this order, and waits again; provided that the address can be parsed and that
  -- the socket takes the hole puncher's datagram.
  pub receive-sealed :
      (c c' : Config D) (m : Message) (buffer : Bytes) (remote : Endpoint N) (address : N.Address)
      (s : Node D N)
      → MessageFits m
      → PayloadFits J m.payload
      → m.source_public_key ≡ D.to_string (D.public_key c.private_key)
      → m.destination_public_key ≡ D.to_string (D.public_key c'.private_key)
      → sealed D J c (D.public_key c'.private_key) m ≡ ok buffer
      → length buffer < 2 ^ 16
      → s.waiting ≡ true
      → N.make_address (entered_at D J N m remote).0 ≡ some address
      → N.send_fails s.sent (c'.punch_buffer, address, (entered_at D J N m remote).1) ≡ false
      → receive D J N c' (datagram (length buffer) buffer remote) s
        ≡ (ok tt, accepted D J N c' m (D.public_key c.private_key) remote address s)
  receive-sealed c c' m buffer remote address s fits json src dst e small waits known taken =
      receive_lem D J N c' buffer remote s
        (accepted D J N c' m (D.public_key c.private_key) remote address
          (record s { waiting = false }))
        waits
        (receive_message-sealed D J LD LJ N c c' (on_received D N c') m buffer remote _ fits json
            src dst e small
          ∙ rw (
              accept-on_received D J N c' m (D.public_key c.private_key) remote address
                (record s { waiting = false })
                (rw src (LD.of_string-to_string (D.public_key c.private_key)))
                (rw dst (LD.of_string-to_string (D.public_key c'.private_key)))
                (LD.same_key_self (D.public_key c'.private_key)) known taken))
      ∙ rw waits

  -- When no address can be made of the text under which the sender is entered, such a message is
  -- dropped at a receiver that waits: the receiver has the metadata, no line and no signal, and
  -- waits again.
  pub receive_unpunched :
      (c c' : Config D) (m : Message) (buffer : Bytes) (remote : Endpoint N) (s : Node D N)
      → MessageFits m
      → PayloadFits J m.payload
      → m.source_public_key ≡ D.to_string (D.public_key c.private_key)
      → m.destination_public_key ≡ D.to_string (D.public_key c'.private_key)
      → sealed D J c (D.public_key c'.private_key) m ≡ ok buffer
      → length buffer < 2 ^ 16
      → s.waiting ≡ true
      → N.make_address (entered_at D J N m remote).0 ≡ none
      → receive D J N c' (datagram (length buffer) buffer remote) s
        ≡ (ok tt, entered D J N m (D.public_key c.private_key) remote s)
  receive_unpunched c c' m buffer remote s fits json src dst e small waits unknown =
      receive_lem D J N c' buffer remote s
        (entered D J N m (D.public_key c.private_key) remote (record s { waiting = false })) waits
        (receive_message-sealed D J LD LJ N c c' (on_received D N c') m buffer remote _ fits json
            src dst e small
          ∙ rw (
              accept_unpunched D J N c' (on_received D N c') m (D.public_key c.private_key) remote
                (record s { waiting = false })
                (rw src (LD.of_string-to_string (D.public_key c.private_key))) unknown))
      ∙ rw waits
