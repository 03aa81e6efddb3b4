-- ===== src/Node/State.antt =====
-- p2p_messenger_impl.h: what the sender, the receiver and the hole puncher hold references to.
use p2p_messenger.Prelude.{ℕ, Bool, List, [], ◌∷◌, ◌++◌, if◌then◌else◌}
use p2p_messenger.Prelude.Bytes.{Bytes}
use p2p_messenger.Prelude.Outcome.{Outcome, ok, throw, system_error, crypto_error, or_throw}
use p2p_messenger.Prelude.Program.{Program, modify}
use p2p_messenger.External.{OpenDht, Net}
use p2p_messenger.Wire.Message.{Message}
use p2p_messenger.ChatHistory.{ChatHistory}
use p2p_messenger.Resolver.Book.{Book}
use p2p_messenger.Resolver.Dht.{DhtIpResolver, Contact}

-- What a `P2PMessengerImpl` is made with and never changes. `punch_buffer` is the buffer that its
-- hole puncher made once.
pub record Config (D : OpenDht) : Type 0 where
  pub my_login : Bytes
  pub my_ip : Bytes
  pub my_port : ℕ
  pub private_key : D.PrivateKey
  pub relay_node_ip : Bytes
  pub relay_node_port : ℕ
  pub relay : Bool
  pub punch_buffer : Bytes

-- The three handlers that the user interface gives.
pub data Signal (D : OpenDht) : Type 0 where
  message_sent : Message → Signal D
  message_received : Message → Signal D
  contact_received : Contact D → Signal D

abbrev pub Endpoint : Net → Type 0
Endpoint N = N.Address × ℕ

-- A datagram and where it went.
abbrev pub Sent : Net → Type 0
Sent N = Bytes × N.Address × ℕ

pub record Node (D : OpenDht) (N : Net) : Type 0 where
  pub metadata : Book D
  pub dht : DhtIpResolver D
  pub history : ChatHistory D
  -- the endpoints of the hole puncher's timers
  pub timers : List (Endpoint N)
  pub sent : List (Sent N)
  pub signals : List (Signal D)
  -- a wait for the socket is pending
  pub waiting : Bool

-- `std::make_shared<dht::crypto::PublicKey>(string)`
abbrev pub public_key_of : (D : OpenDht) → Bytes → Outcome D.PublicKey
public_key_of D s = or_throw (D.of_string s) crypto_error

module _ (D : OpenDht) (N : Net) where
  -- `socket_.send_to(net::buffer(buffer), endpoint)`
  unfoldable pub send_to : Bytes → Endpoint N → Program (Node D N) (Unit {0})
  send_to buffer endpoint s =
      let datagram : Sent N = (buffer, endpoint.0, endpoint.1) in
      if N.send_fails s.sent datagram
      then (throw system_error, s)
      else (ok tt, record s { sent = s.sent ++ (datagram ∷ []) })

  -- `net::ip::make_address(ip)`
  abbrev pub make_address : Bytes → Outcome N.Address
  make_address ip = or_throw (N.make_address ip) system_error

  abbrev pub signal : Signal D → Program (Node D N) (Unit {0})
  signal x = modify λ s. record s { signals = s.signals ++ (x ∷ []) }
