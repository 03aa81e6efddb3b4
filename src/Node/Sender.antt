-- ===== src/Node/Sender.antt =====
-- message_sender.cpp.
use p2p_messenger.Prelude.{ℕ, not, ◌&&◌, Option, none, some, [], if◌then◌else◌, bytes_eq}
use p2p_messenger.Prelude.Bytes.{Bytes}
use p2p_messenger.Prelude.Outcome
use p2p_messenger.Prelude.Outcome.{Outcome, ok, throw, undefined}
use p2p_messenger.Prelude.Program.{Program, ◌>>=◌, ◌>>◌, lift, return, try_catch}
use p2p_messenger.External.{OpenDht, Json, Net}
use p2p_messenger.Wire.Message.{Message}
use p2p_messenger.Wire.Serializer.{message_to_buffer, sign, signed_message_to_buffer}
use p2p_messenger.Address.{get_ip_and_port_from_address}
use p2p_messenger.Node.State.{Config, Node, send_to, make_address}

-- `*p` of a pointer that may be null.
abbrev pub dereference : {A : Type 0} → Option A → Outcome A
dereference none = undefined
dereference (some a) = ok a

module _ (D : OpenDht) (J : Json) where
  -- The message that `send_message` makes. Its id and its time are constants.
  unfoldable pub outgoing : Config D → Bytes → ℕ → Bytes → D.PublicKey → Bytes → Message
  outgoing c ip port login public_key text = record {
    id = 1;
    source_ip = c.my_ip;
    source_port = c.my_port;
    source_login = c.my_login;
    source_public_key = D.to_string (D.public_key c.private_key);
    destination_ip = ip;
    destination_port = port;
    destination_login = login;
    destination_public_key = D.to_string public_key;
    payload = record { time = 1700000000; text = text };
  }

  -- The bytes of a message, encrypted and signed.
  unfoldable pub sealed : Config D → D.PublicKey → Message → Outcome Bytes
  sealed c public_key message =
      Outcome.◌>>=◌ (message_to_buffer D J message (some public_key)) λ buffer.
        Outcome.◌>>=◌ (sign D buffer c.private_key)
          λ signature. signed_message_to_buffer (record { message = buffer; signature = signature })

module _ (D : OpenDht) (J : Json) (N : Net) where
  -- The second datagram, to the relay node.
  unfoldable pub send_to_relay_node : Config D → Bytes → Bytes → Program (Node D N) (Unit {0})
  send_to_relay_node c destination_ip buffer =
      if not (bytes_eq.beq c.relay_node_ip []) && not (bytes_eq.beq destination_ip c.relay_node_ip)
      then (do
        relay_address ← lift (make_address D N c.relay_node_ip)
        send_to D N buffer (relay_address, c.relay_node_port))
      else return tt

  -- The body of the `try`.
  unfoldable pub send :
      Config D
      → (Message → Program (Node D N) (Unit {0}))
      → Bytes
      → Bytes
      → Option D.PublicKey
      → Bytes
      → Program (Node D N) (Unit {0})
  send c handler address login public_key text = do
    (ip, port) ← lift (get_ip_and_port_from_address address)
    key ← lift (dereference public_key)
    let message = outgoing D J c ip port login key text
    buffer ← lift (sealed D J c key message)
    destination ← lift (make_address D N ip)
    send_to D N buffer (destination, port)
    send_to_relay_node c ip buffer
    handler message

  unfoldable pub send_message :
      Config D
      → (Message → Program (Node D N) (Unit {0}))
      → Bytes
      → Bytes
      → Option D.PublicKey
      → Bytes
      → Program (Node D N) (Unit {0})
  send_message c handler address login public_key text =
      try_catch (send c handler address login public_key text) (λ e. return tt)
