-- ===== src/Node/Keyed/Steps.antt =====
-- All that can happen to a node of p2p_messenger_impl.cpp, in any order, and what it means for
-- `send_message`: the two lookups are one critical section each, and agree all the same.
use p2p_messenger.Prelude.{
  ℕ, ◌≡◌, refl, Bool, some, List, [], ◌∷◌, bytes_eq, Bool-cases, Option-cases, inl, inr,
}
use p2p_messenger.Prelude.Bytes.{Bytes}
use p2p_messenger.Prelude.Outcome.{ok}
use p2p_messenger.Prelude.Program.{modify}
use p2p_messenger.Prelude.Rules.{Keeps, Keeps->>=, Keeps-lift, Keeps-if}
use p2p_messenger.External.{OpenDht, Json, Net}
use p2p_messenger.Resolver.Book
use p2p_messenger.Resolver.Dht
use p2p_messenger.Resolver.Dht.{Value, dht_ip_resolver}
use p2p_messenger.Resolver.Keyed.{empty_book-IsKeyed, on_values-IsKeyed}
use p2p_messenger.Node.State.{Config, Node}
use p2p_messenger.Node.HolePuncher.{on_timer}
use p2p_messenger.Node.Receiver.{Event}
use p2p_messenger.Node.Messenger.{
  initial_node, resolve, get_public_key_by_public_key_id, listen, on_found_values, send_message,
  receive, start,
}
use p2p_messenger.Node.Keyed.{NodeIsKeyed, on_timer-NodeIsKeyed, Keeps-start_hole_punching}
use p2p_messenger.Node.Keyed.Receiver.{receive-NodeIsKeyed}
use p2p_messenger.Node.Keyed.Sender.{send_message-NodeIsKeyed}

module _ (D : OpenDht) (J : Json) (N : Net) where
  -- One handler of the io_context or of the DHT node, run to its end.
  pub data Step (c : Config D) (s : Node D N) : Node D N → Type 0 where
    starts : (token : ℕ) → Step c s (start D N c token s).1
    sends :
        (login : Bytes) (id : D.InfoHash) (text : Bytes)
        → Step c s (send_message D J N c login id text s).1
    receives : (event : Event D J N) → Step c s (receive D J N c event s).1
    listens : (login : Bytes) (token : ℕ) → Step c s (listen D N login token s)
    finds :
        (login : Bytes) (values : List (Value D)) (expired : Bool)
        → Step c s (on_found_values D N login values expired s).1
    punches : (ec : Bool) → Step c s (on_timer D N c.punch_buffer ec s).1
    republishes : (ec : Bool) → Step c s (record s { dht = Dht.fire D ec s.dht })

  pub data Reach (c : Config D) (s : Node D N) : Node D N → Type 0 where
    here : Reach c s s
    next : {t u : Node D N} → Reach c s t → Step c t u → Reach c s u

  listen_book :
      (login : Bytes) (token : ℕ) (r : Dht.DhtIpResolver D)
      → (Dht.listen D login token r).book ≡ r.book
  unfolding Dht.listen Dht.start_listening
  listen_book login token r = elim (Bool-cases (Dht.is_listening D login r)) [
    | inl old ↦ rw old
    | inr new ↦ rw new
  ]

  fire_book : (ec : Bool) (r : Dht.DhtIpResolver D) → (Dht.fire D ec r).book ≡ r.book
  unfolding Dht.fire Dht.on_timer
  fire_book ec r = book_after r.timer refl
    where
      book_after :
          (timer : List (Dht.Pending D)) → r.timer ≡ timer → (Dht.fire D ec r).book ≡ r.book
      book_after [] e = rw (e, Dht.fire)
      book_after (Dht.puts login address ∷ rest) e = rw (e, Dht.fire)
      book_after (Dht.puts_signed login address ∷ rest) e = rw (e, Dht.fire)

  on_found_values-NodeIsKeyed :
      (login : Bytes) (values : List (Value D)) (expired : Bool) (s : Node D N)
      → NodeIsKeyed D N s
      → NodeIsKeyed D N (on_found_values D N login values expired s).1
  unfolding on_found_values Dht.listen_callback
  on_found_values-NodeIsKeyed login values expired s v = record {
    metadata = v.metadata;
    dht = on_values-IsKeyed D login expired values s.dht.book _ v.dht;
  }

  Keeps-dht :
      (f : Dht.DhtIpResolver D → Dht.DhtIpResolver D)
      → ((r : Dht.DhtIpResolver D) → (f r).book ≡ r.book)
      → Keeps (NodeIsKeyed D N) (modify λ s. record s { dht = f s.dht })
  Keeps-dht f h = record {
    keeps = λ s v. record { metadata = v.metadata; dht = rw (h s.dht) v.dht };
  }

  Keeps-start : (c : Config D) (token : ℕ) → Keeps (NodeIsKeyed D N) (start D N c token)
  unfolding start Dht.put_signed
  Keeps-start c token =
      Keeps->>= (Keeps-dht (Dht.put_signed D c.my_login c.my_ip c.my_port) λ r. refl) λ _.
        Keeps->>= (Keeps-dht (Dht.listen D c.my_login token) (listen_book c.my_login token)) λ _.
          Keeps-if (bytes_eq.beq c.relay_node_ip []) (Keeps-lift (ok tt))
            (Keeps-start_hole_punching D N c.punch_buffer c.relay_node_ip c.relay_node_port)

  pub Step-NodeIsKeyed :
      {c : Config D} {s t : Node D N} → Step c s t → NodeIsKeyed D N s → NodeIsKeyed D N t
  unfolding listen
  Step-NodeIsKeyed {c} {s} (starts token) v = (Keeps-start c token).keeps s v
  Step-NodeIsKeyed {c} {s} (sends login id text) v =
      send_message-NodeIsKeyed D J N c login id text s v
  Step-NodeIsKeyed {c} {s} (receives event) v = receive-NodeIsKeyed D J N c event s v
  Step-NodeIsKeyed {s} (listens login token) v =
      (Keeps-dht (Dht.listen D login token) (listen_book login token)).keeps s v
  Step-NodeIsKeyed {s} (finds login values expired) v =
      on_found_values-NodeIsKeyed login values expired s v
  Step-NodeIsKeyed {c} {s} (punches ec) v = on_timer-NodeIsKeyed D N c.punch_buffer ec s v
  Step-NodeIsKeyed {s} (republishes ec) v = (Keeps-dht (Dht.fire D ec) (fire_book ec)).keeps s v

  -- In every state that a node comes to from its start, by any sequence of steps, both books are
  -- keyed.
  pub Reach-NodeIsKeyed :
      {c : Config D} (port : ℕ) (ip : Bytes) (bootstrap_port : ℕ) {s : Node D N}
      → Reach c (initial_node D N port ip bootstrap_port) s
      → NodeIsKeyed D N s
  unfolding initial_node dht_ip_resolver
  Reach-NodeIsKeyed port ip bootstrap_port here = record {
    metadata = empty_book-IsKeyed D;
    dht = empty_book-IsKeyed D;
  }
  Reach-NodeIsKeyed port ip bootstrap_port (next w step) =
      Step-NodeIsKeyed step (Reach-NodeIsKeyed port ip bootstrap_port w)

  -- Where both books are keyed, who is resolved has a key, and it is the key of the id.
  pub resolve_keyed :
      (login : Bytes) (id : D.InfoHash) (address : Bytes) (s : Node D N)
      → NodeIsKeyed D N s
      → resolve D N login id s ≡ some address
      → (k : D.PublicKey) × (get_public_key_by_public_key_id D N id s ≡ some k) × (D.get_id k ≡ id)
  unfolding resolve get_public_key_by_public_key_id
  resolve_keyed login id address s v e =
      elim (Option-cases (Book.get_public_key_by_public_key_id D id s.metadata)) [
        | inr (k, f) ↦ (k, rw f, v.metadata.matching id k f)
        | inl f ↦ elim (Option-cases (Book.resolve D login id s.metadata)) [
          | inr (a, g) ↦ let (k, h) = v.metadata.keyed login id a g in absurd (cc (f, h))
          | inl g ↦
              let (k, h) = v.dht.keyed login id address (rw g at e) in
              (k, rw f h, v.dht.matching id k h)
        ]
      ]
