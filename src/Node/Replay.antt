-- ===== src/Node/Replay.antt =====
-- message_receiver.cpp and p2p_messenger_impl.cpp: a datagram that comes again.
use p2p_messenger.Prelude.{
  ◌^◌, ◌<◌, ◌≡◌, true, false, some, List, [], ◌∷◌, ◌++◌, append_assoc, length, beq_refl,
}
use p2p_messenger.Prelude.Bytes.{Bytes}
use p2p_messenger.Prelude.Outcome.{ok}
use p2p_messenger.External.{OpenDht, IsLawfulDht, Json, IsLawfulJson, Net}
use p2p_messenger.Wire.Message.{Message, MessageFits}
use p2p_messenger.Wire.Payload.{PayloadFits}
use p2p_messenger.ChatHistory.{Line, or_empty}
use p2p_messenger.ChatHistory.Log.{find-append}
use p2p_messenger.Node.State.{Config, Node, Endpoint, Sent}
use p2p_messenger.Node.Sender.{sealed}
use p2p_messenger.Node.Receiver.{entered_at, datagram}
use p2p_messenger.Node.Messenger.{receive, get}
use p2p_messenger.Node.Inbox.{accepted, receive-sealed}

module _ (D : OpenDht) (J : Json) (LD : IsLawfulDht D) (LJ : IsLawfulJson J) (N : Net) where
  -- A sealed datagram that comes twice, the second time from any endpoint, adds its line twice to the
  -- chat of the sender's key, behind the lines that the chat had; under the conditions of a first
  -- arrival at a receiver that waits, for both endpoints, and provided that the socket takes every
  -- datagram.
  pub receive_twice :
      (c c' : Config D) (m : Message) (buffer : Bytes) (remote remote' : Endpoint N)
      (address address' : N.Address) (s : Node D N)
      → MessageFits m
      → PayloadFits J m.payload
      → m.source_public_key ≡ D.to_string (D.public_key c.private_key)
      → m.destination_public_key ≡ D.to_string (D.public_key c'.private_key)
      → sealed D J c (D.public_key c'.private_key) m ≡ ok buffer
      → length buffer < 2 ^ 16
      → s.waiting ≡ true
      → N.make_address (entered_at D J N m remote).0 ≡ some address
      → N.make_address (entered_at D J N m remote').0 ≡ some address'
      → ((before : List (Sent N)) (d : Sent N) → N.send_fails before d ≡ false)
      → let id = D.get_id (D.public_key c.private_key) in
        let line : Line = (m.source_login, m.payload.text) in
        let t = (receive D J N c' (datagram (length buffer) buffer remote) s).1 in
        get D N id (receive D J N c' (datagram (length buffer) buffer remote') t).1
        ≡ some (or_empty (get D N id s) ++ (line ∷ line ∷ []))
  unfolding get
  receive_twice c c' m buffer remote remote' address address' s fits json src dst e small waits
        known known' free =
      let k = D.public_key c.private_key in
      let line : Line = (m.source_login, m.payload.text) in
      let t = accepted D J N c' m k remote address s in
      rw (
        receive-sealed D J LD LJ N c c' m buffer remote address s fits json src dst e small waits
            known (free _ _),
        receive-sealed D J LD LJ N c c' m buffer remote' address' t fits json src dst e small waits
            known' (free _ _),
        find-append D (D.get_id k) (D.get_id k) line t.history,
        find-append D (D.get_id k) (D.get_id k) line s.history,
        beq_refl ⦃e = D.id_eq⦄ (D.get_id k),
        append_assoc,
      )
