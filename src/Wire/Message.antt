-- ===== src/Wire/Message.antt =====
-- message.h, payload.h, signed_message.h. Strings and vectors are byte lists; integers are numbers
-- whose range is a hypothesis where it matters.
use p2p_messenger.Prelude.{ℕ, ◌%◌, ◌^◌, ◌<◌, ◌≡◌, [], arith, length, take, take-length}
use p2p_messenger.Prelude.Bytes.{Bytes}
use native.Mathlib.Nat.{mod-eq_of_lt}

pub record Payload : Type 0 where
  pub time : ℕ
  pub text : Bytes

pub record Message : Type 0 where
  pub id : ℕ
  pub source_ip : Bytes
  pub source_port : ℕ
  pub source_login : Bytes
  pub source_public_key : Bytes
  pub destination_ip : Bytes
  pub destination_port : ℕ
  pub destination_login : Bytes
  pub destination_public_key : Bytes
  pub payload : Payload

pub record SignedMessage : Type 0 where
  pub message : Bytes
  pub signature : Bytes

-- `Payload{}`
abbrev pub empty_payload : Payload
empty_payload = record { time = 0; text = [] }

-- The four fields that a message has for its source, and again for its destination.
pub record Peer : Type 0 where
  pub ip : Bytes
  pub port : ℕ
  pub login : Bytes
  pub public_key : Bytes

abbrev pub source : Message → Peer
source m = record {
  ip = m.source_ip;
  port = m.source_port;
  login = m.source_login;
  public_key = m.source_public_key;
}

abbrev pub destination : Message → Peer
destination m = record {
  ip = m.destination_ip;
  port = m.destination_port;
  login = m.destination_login;
  public_key = m.destination_public_key;
}

abbrev pub of_peers : ℕ → Peer → Peer → Payload → Message
of_peers id s d payload = record {
  id = id;
  source_ip = s.ip;
  source_port = s.port;
  source_login = s.login;
  source_public_key = s.public_key;
  destination_ip = d.ip;
  destination_port = d.port;
  destination_login = d.login;
  destination_public_key = d.public_key;
  payload = payload;
}

-- The part of a string whose size is written in `w` bytes: the size wraps, and so many bytes go out.
unfoldable pub clip : ℕ → Bytes → Bytes
clip w s = take (length s % 256 ^ w) s

pub clip_fits : (w : ℕ) (s : Bytes) → length s < 256 ^ w → clip w s ≡ s
unfolding clip
clip_fits w s h = rw (mod-eq_of_lt h) (take-length s)

unfoldable pub clip_peer : Peer → Peer
clip_peer p = record {
  ip = clip 1 p.ip;
  port = p.port % 2 ^ 16;
  login = clip 1 p.login;
  public_key = clip 2 p.public_key;
}

-- The values fit the fields of the wire format.
pub record PeerFits (p : Peer) : Type 0 where
  pub ip : length p.ip < 2 ^ 8
  pub port : p.port < 2 ^ 16
  pub login : length p.login < 2 ^ 8
  pub public_key : length p.public_key < 2 ^ 16

pub clip_peer_fits : (p : Peer) → PeerFits p → clip_peer p ≡ p
unfolding clip_peer
clip_peer_fits p h = ground (arith, clip_fits 1 p.ip, clip_fits 1 p.login, clip_fits 2 p.public_key)

pub record MessageFits (m : Message) : Type 0 where
  pub id : m.id < 2 ^ 64
  pub source : PeerFits (source m)
  pub destination : PeerFits (destination m)

-- What is left of a message on the wire, its payload apart.
abbrev pub clip_message : Message → Payload → Message
clip_message m payload =
    of_peers (m.id % 2 ^ 64) (clip_peer (source m)) (clip_peer (destination m)) payload

pub clip_message_fits :
    (m : Message) (payload : Payload)
    → MessageFits m
    → clip_message m payload ≡ record m { payload = payload }
clip_message_fits m payload h = rw (
  clip_peer_fits (source m) h.source,
  clip_peer_fits (destination m) h.destination,
  mod-eq_of_lt h.id,
)
