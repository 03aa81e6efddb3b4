-- ===== src/Node/Messenger.antt =====
-- p2p_messenger_impl.cpp: the parts put together.
use p2p_messenger.Prelude.{
  ℕ, Bool, false, Option, none, some, List, [], ◌++◌, map, if◌then◌else◌, bytes_eq,
}
use p2p_messenger.Prelude.Bytes.{Bytes}
use p2p_messenger.Prelude.Outcome
use p2p_messenger.Prelude.Outcome.{Outcome, ok}
use p2p_messenger.Prelude.Program.{Program, ◌>>=◌, ◌>>◌, lift, modify, return}
use p2p_messenger.External.{OpenDht, Json, Net}
use p2p_messenger.Wire.Message.{Message}
use p2p_messenger.ChatHistory
use p2p_messenger.ChatHistory.{Line}
use p2p_messenger.Resolver.Book
use p2p_messenger.Resolver.Book.{empty_book}
use p2p_messenger.Resolver.Dht
use p2p_messenger.Resolver.Dht.{Contact, Value, dht_ip_resolver}
use p2p_messenger.Node.State.{
  Config, Node, message_sent, message_received, contact_received, public_key_of, signal,
}
use p2p_messenger.Node.HolePuncher.{udp_hole_puncher, start_hole_punching}
use p2p_messenger.Node.Sender
use p2p_messenger.Node.Receiver.{Event, deliver, make_message_receiver}

module _ (D : OpenDht) (N : Net) where
  -- The members before the body of the constructor runs.
  unfoldable pub initial_node : ℕ → Bytes → ℕ → Node D N
  initial_node dht_port bootstrap_node_ip bootstrap_node_port = make_message_receiver D N (record {
    metadata = empty_book D;
    dht = dht_ip_resolver D dht_port bootstrap_node_ip bootstrap_node_port;
    history = [];
    timers = [];
    sent = [];
    signals = [];
    waiting = false;
  })

  -- The member `udp_hole_puncher_` makes its buffer.
  unfoldable pub configure :
      Bytes → Bytes → ℕ → D.PrivateKey → Bytes → ℕ → Bool → Outcome (Config D)
  configure my_login my_ip my_port private_key relay_node_ip relay_node_port relay =
      Outcome.◌>>=◌ (udp_hole_puncher my_login (D.to_string (D.public_key private_key)))
        λ punch_buffer. ok (record {
          my_login = my_login;
          my_ip = my_ip;
          my_port = my_port;
          private_key = private_key;
          relay_node_ip = relay_node_ip;
          relay_node_port = relay_node_port;
          relay = relay;
          punch_buffer = punch_buffer;
        })

  -- The body of the constructor; `token` is what the DHT node returns.
  unfoldable pub start : Config D → ℕ → Program (Node D N) (Unit {0})
  start c token = do
    modify λ s. record s { dht = Dht.put_signed D c.my_login c.my_ip c.my_port s.dht }
    modify λ s. record s { dht = Dht.listen D c.my_login token s.dht }
    if bytes_eq.beq c.relay_node_ip []
        then return tt
        else start_hole_punching D N c.punch_buffer c.relay_node_ip c.relay_node_port

  abbrev pub append_line : D.InfoHash → Bytes → Bytes → Program (Node D N) (Unit {0})
  append_line id login text =
      modify λ s. record s { history = ChatHistory.append D id login text s.history }

  -- The handler that the sender is given.
  unfoldable pub on_sent : Message → Program (Node D N) (Unit {0})
  on_sent message = do
    key ← lift (public_key_of D message.destination_public_key)
    append_line (D.get_id key) message.source_login message.payload.text
    signal D N (message_sent message)

  -- The handler that the receiver is given.
  unfoldable pub on_received : Config D → Message → Program (Node D N) (Unit {0})
  on_received c message = do
    destination_key ← lift (public_key_of D message.destination_public_key)
    if D.same_key destination_key (D.public_key c.private_key)
        then (do
          source_key ← lift (public_key_of D message.source_public_key)
          append_line (D.get_id source_key) message.source_login message.payload.text
          signal D N (
              contact_received
                (record { login = message.source_login; public_key_id = D.get_id source_key }))
          signal D N (message_received message))
        else return tt

  abbrev pub or_else {ℓ} : {A : Type ℓ} → Option A → Option A → Option A
  or_else none b = b
  or_else (some a) b = some a

  -- First the metadata, then the DHT.
  unfoldable pub resolve : Bytes → D.InfoHash → Node D N → Option Bytes
  unfolding Dht.resolve
  resolve login id s = or_else (Book.resolve D login id s.metadata) (Dht.resolve D login id s.dht)

  unfoldable pub get_public_key_by_public_key_id : D.InfoHash → Node D N → Option D.PublicKey
  unfolding Dht.get_public_key_by_public_key_id
  get_public_key_by_public_key_id id s =
      or_else (Book.get_public_key_by_public_key_id D id s.metadata)
        (Dht.get_public_key_by_public_key_id D id s.dht)

  -- The list as it is at the call. The code returns a pointer to it, and whoever walks it does so
  -- without the lock, while other threads may append.
  unfoldable pub get : D.InfoHash → Node D N → Option (List Line)
  get id s = ChatHistory.get D id s.history

  unfoldable pub listen : Bytes → ℕ → Node D N → Node D N
  listen login token s = record s { dht = Dht.listen D login token s.dht }

  -- The node's call of the callback of `listen`, whose handler tells the user interface.
  unfoldable pub on_found_values : Bytes → List (Value D) → Bool → Program (Node D N) Bool
  on_found_values login values expired s =
      let (result, dht, contacts) = Dht.listen_callback D login values expired s.dht in
      (result, record s { dht = dht; signals = s.signals ++ map contact_received contacts })

module _ (D : OpenDht) (J : Json) (N : Net) where
  -- The body of the task that `send_message` posts.
  unfoldable pub send_message :
      Config D → Bytes → D.InfoHash → Bytes → Program (Node D N) (Unit {0})
  send_message c login id text s = elim (resolve D N login id s) [
    | none ↦ (ok tt, s)
    | some address ↦
        Sender.send_message D J N c (on_sent D N) address login
          (get_public_key_by_public_key_id D N id s) text s
  ]

  -- The receiver with its handler.
  unfoldable pub receive : Config D → Event D J N → Program (Node D N) (Unit {0})
  receive c event = deliver D J N c (on_received D N c) event
