-- ===== src/Node/Origin/Task.antt =====
-- message_sender.cpp: the line that a task of `send_message` adds.
use p2p_messenger.Prelude.{◌≡◌, refl, subst, some, Option-cases, inl, inr, bytes_eq}
use p2p_messenger.Prelude.Bytes.{Bytes}
use p2p_messenger.Prelude.Outcome.{ok}
use p2p_messenger.Prelude.Rules.{Keeps, Keeps->>=, Keeps-lift, Keeps-if}
use p2p_messenger.External.{OpenDht, IsLawfulDht, Json, Net}
use p2p_messenger.ChatHistory.{ChatHistory, Line}
use p2p_messenger.Address.{get_ip_and_port_from_address}
use p2p_messenger.Node.State.{Config, Node, message_sent, make_address, public_key_of}
use p2p_messenger.Node.Sender
use p2p_messenger.Node.Sender.{send, send_to_relay_node, dereference, outgoing, sealed}
use p2p_messenger.Node.Messenger.{on_sent, send_message, resolve}
use p2p_messenger.Node.Keyed.{NodeIsKeyed}
use p2p_messenger.Node.Keyed.Steps.{resolve_keyed}
use p2p_messenger.Node.Origin.{
  HistoryIs, Extends, AddsLine, AddsLine-append_line, AddsLine-first, AddsLine-lift, AddsLine-then,
  AddsLine-try_catch,
}
use p2p_messenger.Node.Origin.Datagram.{Keeps-send_to, Keeps-signal}

ruleset program_rules = (Keeps->>=, Keeps-lift, Keeps-if)

module _ (D : OpenDht) (J : Json) (LD : IsLawfulDht D) (N : Net) where
  -- The line of a task: what was asked for, in the chat that was named, under the node's own login.
  pub data WroteAs (c : Config D) (id : D.InfoHash) (text : Bytes)
      : D.InfoHash → Line → Type 0 where
    wrote_as : WroteAs c id text id (c.my_login, text)

  Keeps-send_to_relay_node :
      (c : Config D) (ip b : Bytes) (h : ChatHistory D)
      → Keeps (HistoryIs D N h) (send_to_relay_node D J N c ip b)
  unfolding send_to_relay_node
  Keeps-send_to_relay_node c ip b h = search (program_rules, Keeps-send_to) depth 12

  own_line :
      (c : Config D) (k k' : D.PublicKey) (text : Bytes)
      → public_key_of D (D.to_string k) ≡ ok k'
      → WroteAs c (D.get_id k) text (D.get_id k') (c.my_login, text)
  own_line c k k' text e =
      subst (λ x. WroteAs c (D.get_id k) text (D.get_id x) (c.my_login, text))
        (cc (rw (LD.of_string-to_string k) at e)) wrote_as

  send-AddsLine :
      (c : Config D) (address login : Bytes) (k : D.PublicKey) (text : Bytes)
      → AddsLine D N
          (WroteAs c (D.get_id k) text)
          (send D J N c (on_sent D N) address login (some k) text)
  unfolding send on_sent outgoing
  send-AddsLine c address login k text =
      AddsLine-lift (get_ip_and_port_from_address address) λ to e1.
        let m = outgoing D J c to.0 to.1 login k text in
        AddsLine-lift (sealed D J c k m) λ b e2.
          AddsLine-lift (make_address D N to.0) λ destination e3.
            AddsLine-first (Keeps-send_to D N b (destination, to.1)) λ _.
              AddsLine-first (Keeps-send_to_relay_node c to.0 b) λ _.
                AddsLine-lift (public_key_of D (D.to_string k)) λ k' e4.
                  AddsLine-then
                    (AddsLine-append_line (D.get_id k') (c.my_login, text)
                      (own_line c k k' text e4))
                    λ _. Keeps-signal D N (message_sent m)

  -- Where both books are keyed, a task of `send_message` adds at most one line to the history: the
  -- text under the node's own login, in the chat that was named.
  pub send_message-Extends :
      (c : Config D) (login : Bytes) (id : D.InfoHash) (text : Bytes) (s : Node D N)
      → NodeIsKeyed D N s
      → Extends D N (WroteAs c id text) s.history (send_message D J N c login id text s).1.history
  unfolding send_message Sender.send_message
  send_message-Extends c login id text s v = elim (Option-cases (resolve D N login id s)) [
    | inl unknown ↦ rw (unknown, send_message) (inl refl)
    | inr (address, e) ↦
        let (k, f, same) = resolve_keyed D J N login id address s v e in
        rw (e, send_message, f, ← same)
          ((AddsLine-try_catch (send-AddsLine c address login k text)
              λ x h. Keeps-lift (ok tt)).adds
            s)
  ]
