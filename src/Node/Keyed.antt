-- ===== src/Node/Keyed.antt =====
-- The invariant of the running node: whom it can resolve, it has the key of. All that happens to a
-- node keeps it.
pub mod Receiver
pub mod Sender
pub mod Steps
use p2p_messenger.Prelude.{
  ℕ, ◌≡◌, refl, Bool, true, false, not, ◌&&◌, Option, none, some, List, [], ◌∷◌, ◌++◌, map, arith,
  if◌then◌else◌, Bool-cases, Option-cases, inl, inr, bytes_eq, ◌==◌, length,
}
use p2p_messenger.Prelude.Bytes.{Bytes}
use p2p_messenger.Prelude.Outcome.{Outcome, ok, throw, undefined, Exception}
use p2p_messenger.Prelude.Program.{Program, ◌>>=◌, ◌>>◌, lift, modify, read, return, try_catch}
use p2p_messenger.Prelude.Rules.{Keeps, Keeps->>=, Keeps-lift, Keeps-try_catch, Keeps-if}
use p2p_messenger.External.{OpenDht, Json, Net}
use p2p_messenger.Wire.Message.{Message, SignedMessage}
use p2p_messenger.Wire.Deserializer.{
  message_from_buffer, check_signature, signed_message_from_buffer,
  destinantion_public_key_from_buffer, message_with_not_decrypted_payload_from_buffer,
  metadata_from_buffer,
}
use p2p_messenger.Resolver.Book.{Book, resolve}
use p2p_messenger.Resolver.Metadata
use p2p_messenger.Resolver.Dht
use p2p_messenger.Resolver.Dht.{Value}
use p2p_messenger.Resolver.Keyed.{IsKeyed, put-IsKeyed, on_values-IsKeyed, empty_book-IsKeyed}
use p2p_messenger.Node.State.{
  Config, Node, Endpoint, Signal, message_sent, contact_received, message_received, send_to,
  make_address, signal, public_key_of,
}
use p2p_messenger.Node.HolePuncher.{hole_punch, start_hole_punching, on_timer}
use p2p_messenger.Node.Receiver.{
  put_metadata, accept, receive_own, forward, receive_other, receive_message, receive_metadata,
  async_wait, async_wait_handler, deliver, Event, failed, datagram, entered_at,
}
use p2p_messenger.Node.Messenger.{
  on_sent, on_received, append_line, start, listen, on_found_values, send_message, receive,
}

module _ (D : OpenDht) (N : Net) where
  pub record NodeIsKeyed (s : Node D N) : Type 0 where
    pub metadata : IsKeyed D s.metadata
    pub dht : IsKeyed D s.dht.book

  pub Keeps-append_line :
      (id : D.InfoHash) (login text : Bytes) → Keeps NodeIsKeyed (append_line D N id login text)
  Keeps-append_line id login text = record {
    keeps = λ s v. record { metadata = v.metadata; dht = v.dht };
  }

  pub Keeps-signal : (x : Signal D) → Keeps NodeIsKeyed (signal D N x)
  Keeps-signal x = record { keeps = λ s v. record { metadata = v.metadata; dht = v.dht } }

  pub Keeps-send_to : (b : Bytes) (e : Endpoint N) → Keeps NodeIsKeyed (send_to D N b e)
  unfolding send_to
  Keeps-send_to b e = record {
    keeps = λ s v. elim (Bool-cases (N.send_fails s.sent (b, e.0, e.1))) [
      | inl fails ↦ rw fails v
      | inr goes ↦ rw goes (record { metadata = v.metadata; dht = v.dht })
    ];
  }

  pub Keeps-hole_punch : (b : Bytes) (e : Endpoint N) → Keeps NodeIsKeyed (hole_punch D N b e)
  unfolding hole_punch
  Keeps-hole_punch b e =
      Keeps->>= (Keeps-send_to b e)
        λ _. record { keeps = λ s v. record { metadata = v.metadata; dht = v.dht } }

  pub Keeps-start_hole_punching :
      (b ip : Bytes) (port : ℕ) → Keeps NodeIsKeyed (start_hole_punching D N b ip port)
  unfolding start_hole_punching
  Keeps-start_hole_punching b ip port =
      Keeps->>= (Keeps-lift (make_address D N ip)) λ address. Keeps-hole_punch b (address, port)

  pub Keeps-on_sent : (m : Message) → Keeps NodeIsKeyed (on_sent D N m)
  unfolding on_sent
  Keeps-on_sent m = Keeps->>= (Keeps-lift (public_key_of D m.destination_public_key)) λ key.
      Keeps->>= (Keeps-append_line (D.get_id key) m.source_login m.payload.text)
        λ _. Keeps-signal (message_sent m)

  pub Keeps-on_received : (c : Config D) (m : Message) → Keeps NodeIsKeyed (on_received D N c m)
  unfolding on_received
  Keeps-on_received c m = Keeps->>= (Keeps-lift (public_key_of D m.destination_public_key)) λ key.
      Keeps-if (D.same_key key (D.public_key c.private_key))
        (Keeps->>= (Keeps-lift (public_key_of D m.source_public_key)) λ source.
          Keeps->>= (Keeps-append_line (D.get_id source) m.source_login m.payload.text) λ _.
            Keeps->>=
              (Keeps-signal (
                contact_received
                  (record { login = m.source_login; public_key_id = D.get_id source })))
              λ _. Keeps-signal (message_received m))
        (Keeps-lift (ok tt))

  -- A timer that ends.
  pub on_timer-NodeIsKeyed :
      (b : Bytes) (ec : Bool) (s : Node D N) → NodeIsKeyed s → NodeIsKeyed (on_timer D N b ec s).1
  unfolding on_timer
  on_timer-NodeIsKeyed b ec s v = on_timers s.timers refl
    where
      on_timers :
          (timers : List (Endpoint N)) → s.timers ≡ timers → NodeIsKeyed (on_timer D N b ec s).1
      on_timers [] e = rw (e, on_timer) v
      on_timers (endpoint ∷ rest) e =
          rw (e, on_timer)
            ((Keeps-hole_punch b endpoint).keeps (record s { timers = rest })
              (record { metadata = v.metadata; dht = v.dht }))
