-- ===== src/Node/Sending.antt =====
-- message_sender.cpp and the handler that p2p_messenger_impl.cpp gives it: what goes out, and what the
-- sending node keeps.
use p2p_messenger.Prelude.{
  ℕ, ◌≡◌, Bool, true, false, not, ◌&&◌, some, List, [], ◌∷◌, ◌++◌, append_assoc, bytes_eq,
}
use p2p_messenger.Prelude.Bytes.{Bytes}
use p2p_messenger.Prelude.Outcome.{ok}
use p2p_messenger.External.{OpenDht, IsLawfulDht, Json, Net}
use p2p_messenger.Address.{get_ip_and_port_from_address}
use p2p_messenger.Wire.Message.{Message}
use p2p_messenger.ChatHistory
use p2p_messenger.ChatHistory.{or_empty}
use p2p_messenger.Node.State.{Config, Node, Sent, message_sent, send_to}
use p2p_messenger.Node.Sender
use p2p_messenger.Node.Sender.{outgoing, sealed, send, send_to_relay_node}
use p2p_messenger.Node.Messenger.{on_sent, resolve, get_public_key_by_public_key_id, send_message}

-- A copy goes to the relay node: there is one, and the message is not for its address.
abbrev pub copies_to_relay : {D : OpenDht} → Config D → Bytes → Bool
copies_to_relay c ip =
    not (bytes_eq.beq c.relay_node_ip []) && not (bytes_eq.beq ip c.relay_node_ip)

-- Whom `send_message` finds: an address that can be taken apart, and the key.
pub record IsFound (D : OpenDht) (N : Net) (login : Bytes) (id : D.InfoHash) (s : Node D N)
    (ip : Bytes) (port : ℕ) (k : D.PublicKey) : Type 0 where
  pub address : Bytes
  pub resolved : resolve D N login id s ≡ some address
  pub parsed : get_ip_and_port_from_address address ≡ ok (ip, port)
  pub key : get_public_key_by_public_key_id D N id s ≡ some k

module _ (D : OpenDht) (J : Json) (LD : IsLawfulDht D) (N : Net) where
  -- The node after its user has sent a message: the datagrams, the line and the signal.
  abbrev pub after_sending : Config D → D.PublicKey → Message → List (Sent N) → Node D N → Node D N
  after_sending c k m datagrams s = record s {
    sent = s.sent ++ datagrams;
    history = ChatHistory.append D (D.get_id k) m.source_login m.payload.text s.history;
    signals = s.signals ++ (message_sent m ∷ []);
  }

  -- To a receiver that is found, with a datagram that can be made, an address that can be made and
  -- a socket that takes it, and with no copy for a relay: one datagram goes to the address; then
  -- the line is added to the chat of the receiver's key and the message is announced.
  pub send_message_direct :
      (c : Config D) (login : Bytes) (id : D.InfoHash) (ip text b : Bytes) (port : ℕ)
      (k : D.PublicKey) (address : N.Address) (s : Node D N)
      → IsFound D N login id s ip port k
      → sealed D J c k (outgoing D J c ip port login k text) ≡ ok b
      → N.make_address ip ≡ some address
      → N.send_fails s.sent (b, address, port) ≡ false
      → copies_to_relay c ip ≡ false
      → send_message D J N c login id text s ≡ (
        ok tt,
        after_sending c k (outgoing D J c ip port login k text) ((b, address, port) ∷ []) s,
      )
  unfolding send_message Sender.send_message send send_to send_to_relay_node on_sent outgoing
  send_message_direct c login id ip text b port k address s found e1 e2 e3 e4 = rw (
    found.resolved,
    send_message,
    found.key,
    found.parsed,
    e1,
    e2,
    e3,
    e4,
    LD.of_string-to_string k,
  )

  -- With a relay node at another address, whose own address can be made, and a socket that takes
  -- both datagrams, the same datagram goes to it, after the first.
  pub send_message_copied :
      (c : Config D) (login : Bytes) (id : D.InfoHash) (ip text b : Bytes) (port : ℕ)
      (k : D.PublicKey) (address relay : N.Address) (s : Node D N)
      → IsFound D N login id s ip port k
      → sealed D J c k (outgoing D J c ip port login k text) ≡ ok b
      → N.make_address ip ≡ some address
      → N.send_fails s.sent (b, address, port) ≡ false
      → copies_to_relay c ip ≡ true
      → N.make_address c.relay_node_ip ≡ some relay
      → N.send_fails (s.sent ++ ((b, address, port) ∷ [])) (b, relay, c.relay_node_port) ≡ false
      → send_message D J N c login id text s ≡ (
        ok tt,
        after_sending c k
            (outgoing D J c ip port login k text)
            ((b, address, port) ∷ (b, relay, c.relay_node_port) ∷ [])
            s,
      )
  unfolding send_message Sender.send_message send send_to send_to_relay_node on_sent outgoing
  send_message_copied c login id ip text b port k address relay s found e1 e2 e3 e4 e5 e6 = rw (
    found.resolved,
    send_message,
    found.key,
    found.parsed,
    e1,
    e2,
    e3,
    e4,
    e5,
    e6,
    LD.of_string-to_string k,
    append_assoc,
  )

  -- When the socket takes the first datagram and refuses the copy for the relay node, the first is
  -- out all the same, but the node keeps no line of it and announces nothing.
  pub send_message_unrecorded :
      (c : Config D) (login : Bytes) (id : D.InfoHash) (ip text b : Bytes) (port : ℕ)
      (k : D.PublicKey) (address relay : N.Address) (s : Node D N)
      → IsFound D N login id s ip port k
      → sealed D J c k (outgoing D J c ip port login k text) ≡ ok b
      → N.make_address ip ≡ some address
      → N.send_fails s.sent (b, address, port) ≡ false
      → copies_to_relay c ip ≡ true
      → N.make_address c.relay_node_ip ≡ some relay
      → N.send_fails (s.sent ++ ((b, address, port) ∷ [])) (b, relay, c.relay_node_port) ≡ true
      → send_message D J N c login id text s
        ≡ (ok tt, record s { sent = s.sent ++ ((b, address, port) ∷ []) })
  unfolding send_message Sender.send_message send send_to send_to_relay_node
  send_message_unrecorded c login id ip text b port k address relay s found e1 e2 e3 e4 e5 e6 =
      rw (found.resolved, send_message, found.key, found.parsed, e1, e2, e3, e4, e5, e6)
