-- ===== src/Node/Receiver.antt =====
-- message_receiver.cpp.
use p2p_messenger.Prelude.{
  ℕ, true, false, Option, none, some, if◌then◌else◌, bytes_eq, ◌==◌, length,
}
use p2p_messenger.Prelude.Bytes.{Bytes}
use p2p_messenger.Prelude.Outcome.{Outcome, ok, throw, logic_error, system_error}
use p2p_messenger.Prelude.Program.{Program, ◌>>=◌, ◌>>◌, lift, modify, read, return, try_catch}
use p2p_messenger.External.{OpenDht, Json, Net}
use p2p_messenger.Wire.Message.{Message, SignedMessage}
use p2p_messenger.Wire.Deserializer.{
  signed_message_from_buffer, destinantion_public_key_from_buffer, message_from_buffer,
  message_with_not_decrypted_payload_from_buffer, metadata_from_buffer, check_signature,
}
use p2p_messenger.Address.{get_ip_and_port_from_address}
use p2p_messenger.Resolver.Book.{resolve}
use p2p_messenger.Resolver.Metadata
use p2p_messenger.Node.State.{Config, Node, Endpoint, public_key_of, send_to, make_address}
use p2p_messenger.Node.HolePuncher.{start_hole_punching}

module _ (D : OpenDht) (N : Net) where
  -- The constructor waits for the socket.
  abbrev pub make_message_receiver : Node D N → Node D N
  make_message_receiver s = record s { waiting = true }

module _ (D : OpenDht) (J : Json) (N : Net) where
  -- `metadata_ip_resolver_.put`
  unfoldable pub put_metadata : Bytes → D.PublicKey → Bytes → ℕ → Program (Node D N) (Unit {0})
  put_metadata login public_key ip port =
      modify λ s. record s { metadata = Metadata.put D login public_key ip port s.metadata }

  -- The address and the port under which the source is entered: those that the datagram came from,
  -- where the source names the same address, and else those that it names.
  abbrev pub entered_at : Message → Endpoint N → Bytes × ℕ
  entered_at message remote =
      if bytes_eq.beq message.source_ip (N.address_to_string remote.0)
      then (N.address_to_string remote.0, remote.1)
      else (message.source_ip, message.source_port)

  -- A message for this node, and with a good signature.
  unfoldable pub accept :
      Config D
      → (Message → Program (Node D N) (Unit {0}))
      → Message
      → Endpoint N
      → Program (Node D N) (Unit {0})
  accept c handler message remote = do
    let (ip, port) = entered_at message remote
    source_key ← lift (public_key_of D message.source_public_key)
    put_metadata message.source_login source_key ip port
    start_hole_punching D N c.punch_buffer ip port
    handler message

  -- The inner `try` of the first branch: a message whose key is this node's.
  unfoldable pub receive_own :
      Config D
      → (Message → Program (Node D N) (Unit {0}))
      → SignedMessage
      → Endpoint N
      → Program (Node D N) (Unit {0})
  receive_own c handler signed remote =
      try_catch
        (do
          message ← lift (message_from_buffer D J signed.message c.private_key)
          source_key ← lift (public_key_of D message.source_public_key)
          if check_signature D signed source_key
              then accept c handler message remote
              else return tt)
        (λ e. return tt)

  -- Where a message for somebody else goes on to.
  unfoldable pub next_hop : Message → Option Bytes → Outcome (Bytes × ℕ)
  next_hop message none = ok (message.destination_ip, message.destination_port)
  next_hop message (some address) = get_ip_and_port_from_address address

  -- The `try` under `if (relay_)`: the datagram goes on unchanged.
  unfoldable pub forward : Message → Bytes → Program (Node D N) (Unit {0})
  forward message buffer =
      try_catch
        (do
          destination_key ← lift (public_key_of D message.destination_public_key)
          address ←
              read λ s. resolve D message.destination_login (D.get_id destination_key) s.metadata
          (ip, port) ← lift (next_hop message address)
          destination ← lift (make_address D N ip)
          send_to D N buffer (destination, port))
        (λ e. return tt)

  -- The second branch: a message for somebody else.
  unfoldable pub receive_other : Config D → SignedMessage → Bytes → Program (Node D N) (Unit {0})
  receive_other c signed buffer = do
    message ← lift (message_with_not_decrypted_payload_from_buffer signed.message)
    source_key ← lift (public_key_of D message.source_public_key)
    if check_signature D signed source_key
        then (if c.relay then forward message buffer else return tt)
        else return tt

  -- The body of the outer `try`.
  unfoldable pub receive_message :
      Config D
      → (Message → Program (Node D N) (Unit {0}))
      → Bytes
      → Endpoint N
      → Program (Node D N) (Unit {0})
  receive_message c handler buffer remote = do
    signed ← lift (signed_message_from_buffer buffer)
    destination_key ← lift (destinantion_public_key_from_buffer signed.message)
    if bytes_eq.beq destination_key (D.to_string (D.public_key c.private_key))
        then receive_own c handler signed remote
        else receive_other c signed buffer

  -- The handler of the outer `try`: what is no message is taken for metadata.
  unfoldable pub receive_metadata : Bytes → Endpoint N → Program (Node D N) (Unit {0})
  receive_metadata buffer remote = do
    (login, public_key) ← lift (metadata_from_buffer buffer)
    key ← lift (public_key_of D public_key)
    put_metadata login key (N.address_to_string remote.0) remote.1

  unfoldable pub async_wait : Program (Node D N) (Unit {0})
  async_wait = modify λ s. record s { waiting = true }

  -- What a wait ends with: an error; an exception of `available` or of `receive_from`; or a datagram,
  -- with the number of bytes that were announced.
  pub data Event : Type 0 where
    failed unread : Event
    datagram : ℕ → Bytes → Endpoint N → Event

  unfoldable pub async_wait_handler :
      Config D → (Message → Program (Node D N) (Unit {0})) → Event → Program (Node D N) (Unit {0})
  async_wait_handler c handler failed = async_wait
  async_wait_handler c handler unread = lift (throw system_error)
  async_wait_handler c handler (datagram available buffer remote) =
      if available == length buffer
      then (do
        try_catch (receive_message c handler buffer remote) (λ e. receive_metadata buffer remote)
        async_wait)
      else lift (throw logic_error)

  -- The io_context ends a pending wait with an event; without one nothing happens.
  unfoldable pub deliver :
      Config D → (Message → Program (Node D N) (Unit {0})) → Event → Program (Node D N) (Unit {0})
  deliver c handler event s =
      if s.waiting
      then async_wait_handler c handler event (record s { waiting = false })
      else (ok tt, s)
