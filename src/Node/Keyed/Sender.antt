-- ===== src/Node/Keyed/Sender.antt =====
-- message_sender.cpp keeps the invariant of the node.
use p2p_messenger.Prelude.{not, ◌&&◌, Option, [], Option-cases, inl, inr, bytes_eq}
use p2p_messenger.Prelude.Bytes.{Bytes}
use p2p_messenger.Prelude.Outcome.{ok}
use p2p_messenger.Prelude.Rules.{Keeps, Keeps->>=, Keeps-lift, Keeps-try_catch, Keeps-if}
use p2p_messenger.External.{OpenDht, Json, Net}
use p2p_messenger.Node.State.{Config, Node, make_address}
use p2p_messenger.Node.Sender
use p2p_messenger.Node.Sender.{send, send_to_relay_node, dereference, outgoing, sealed}
use p2p_messenger.Address.{get_ip_and_port_from_address}
use p2p_messenger.Node.Messenger.{on_sent, send_message, resolve, get_public_key_by_public_key_id}
use p2p_messenger.Node.Keyed.{NodeIsKeyed, Keeps-send_to, Keeps-on_sent}

module _ (D : OpenDht) (J : Json) (N : Net) where
  Keeps-send_to_relay_node :
      (c : Config D) (ip b : Bytes) → Keeps (NodeIsKeyed D N) (send_to_relay_node D J N c ip b)
  unfolding send_to_relay_node
  Keeps-send_to_relay_node c ip b =
      Keeps-if (not (bytes_eq.beq c.relay_node_ip []) && not (bytes_eq.beq ip c.relay_node_ip))
        (Keeps->>= (Keeps-lift (make_address D N c.relay_node_ip))
          λ address. Keeps-send_to D N b (address, c.relay_node_port))
        (Keeps-lift (ok tt))

  Keeps-send :
      (c : Config D) (address login : Bytes) (key : Option D.PublicKey) (text : Bytes)
      → Keeps (NodeIsKeyed D N) (send D J N c (on_sent D N) address login key text)
  unfolding send
  Keeps-send c address login key text =
      Keeps->>= (Keeps-lift (get_ip_and_port_from_address address)) λ to.
        Keeps->>= (Keeps-lift (dereference key)) λ k.
          Keeps->>= (Keeps-lift (sealed D J c k (outgoing D J c to.0 to.1 login k text))) λ b.
            Keeps->>= (Keeps-lift (make_address D N to.0)) λ destination.
              Keeps->>= (Keeps-send_to D N b (destination, to.1)) λ _.
                Keeps->>= (Keeps-send_to_relay_node c to.0 b)
                  λ _. Keeps-on_sent D N (outgoing D J c to.0 to.1 login k text)

  pub send_message-NodeIsKeyed :
      (c : Config D) (login : Bytes) (id : D.InfoHash) (text : Bytes) (s : Node D N)
      → NodeIsKeyed D N s
      → NodeIsKeyed D N (send_message D J N c login id text s).1
  unfolding send_message Sender.send_message
  send_message-NodeIsKeyed c login id text s v = elim (Option-cases (resolve D N login id s)) [
    | inl unknown ↦ rw (unknown, send_message) v
    | inr (address, e) ↦
        rw (e, send_message)
          ((Keeps-try_catch
              (Keeps-send c address login (get_public_key_by_public_key_id D N id s) text)
              (λ x. Keeps-lift (ok tt))).keeps
            s v)
  ]
