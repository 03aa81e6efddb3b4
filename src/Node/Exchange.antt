-- ===== src/Node/Exchange.antt =====
-- From `send_message` on one node to the chat history of another.
use p2p_messenger.Prelude.{
  ℕ, ◌^◌, ◌<◌, ◌≡◌, refl, true, false, some, [], ◌∷◌, ◌++◌, length, beq_refl,
}
use p2p_messenger.Prelude.Bytes.{Bytes}
use p2p_messenger.Prelude.Outcome.{ok}
use p2p_messenger.External.{OpenDht, IsLawfulDht, Json, IsLawfulJson, Net}
use p2p_messenger.Wire.Message.{MessageFits}
use p2p_messenger.Wire.Payload.{PayloadFits}
use p2p_messenger.ChatHistory
use p2p_messenger.ChatHistory.{or_empty, Line}
use p2p_messenger.ChatHistory.Log.{find-append}
use p2p_messenger.Node.State.{Config, Node, Endpoint}
use p2p_messenger.Node.Sender.{outgoing, sealed}
use p2p_messenger.Node.Receiver.{entered_at, datagram}
use p2p_messenger.Node.Messenger.{send_message, receive}
use p2p_messenger.Node.Inbox.{receive-sealed}
use p2p_messenger.Node.Sending.{IsFound, copies_to_relay, send_message_direct}

module _ (D : OpenDht) (J : Json) (LD : IsLawfulDht D) (LJ : IsLawfulJson J) (N : Net) where
  -- A node that sends a text to the key of another node, whose address and key it finds, hands one
  -- more datagram to its socket, for that address and port; provided that no relay is configured or
  -- the address is the relay's, the fields and the payload fit the wire, the message can be sealed
  -- into less than 2 ^ 16 bytes, an address can be made of the text that was found and the socket
  -- takes the datagram. Brought to the other node, the datagram adds the sender's login and the text
  -- to the chat of the sender's key there, behind all its lines; provided that the other node waits,
  -- can make an address of the text under which it enters the sender, and that its socket takes the
  -- datagram of its hole puncher.
  pub message_arrives :
      (c c' : Config D) (login : Bytes) (id : D.InfoHash) (ip text b : Bytes) (port : ℕ)
      (address entered : N.Address) (remote : Endpoint N) (s t : Node D N)
      → let k = D.public_key c'.private_key in
        let m = outgoing D J c ip port login k text in
        let me = D.get_id (D.public_key c.private_key) in
        IsFound D N login id s ip port k
        → sealed D J c k m ≡ ok b
        → N.make_address ip ≡ some address
        → N.send_fails s.sent (b, address, port) ≡ false
        → copies_to_relay c ip ≡ false
        → MessageFits m
        → PayloadFits J m.payload
        → length b < 2 ^ 16
        → t.waiting ≡ true
        → N.make_address (entered_at D J N m remote).0 ≡ some entered
        → N.send_fails t.sent (c'.punch_buffer, entered, (entered_at D J N m remote).1) ≡ false
        → ((send_message D J N c login id text s).1.sent ≡ s.sent ++ ((b, address, port) ∷ []))
          × (ChatHistory.get D me (receive D J N c' (datagram (length b) b remote) t).1.history
              ≡ some (or_empty (ChatHistory.get D me t.history) ++ ((c.my_login, text) ∷ [])))
  unfolding outgoing
  message_arrives c c' login id ip text b port address entered remote s t found e1 e2 e3 e4 fits
        json small waits e5 e6 =
      let k : D.PublicKey = D.public_key c'.private_key in
      let me : D.InfoHash = D.get_id (D.public_key c.private_key) in
      (
        rw (send_message_direct D J LD N c login id ip text b port k address s found e1 e2 e3 e4),
        rw (
          receive-sealed D J LD LJ N c c' (outgoing D J c ip port login k text) b remote entered t
              fits json refl refl e1 small waits e5 e6,
          find-append D me me (c.my_login, text) t.history,
          beq_refl ⦃e = D.id_eq⦄ me,
        ),
      )
