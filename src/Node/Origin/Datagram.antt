-- ===== src/Node/Origin/Datagram.antt =====
-- message_receiver.cpp: the line that a datagram adds, and what it took.
use p2p_messenger.Prelude.{
  ℕ, ◌≡◌, refl, arith, true, false, some, Bool-cases, inl, inr, bytes_eq, ◌==◌, length,
}
use p2p_messenger.Prelude.Bytes.{Bytes}
use p2p_messenger.Prelude.Outcome.{ok, crypto_error}
use p2p_messenger.Prelude.Rules.{
  Keeps, Keeps->>=, Keeps-lift, Keeps-read, Keeps-try_catch, Keeps-if,
}
use p2p_messenger.External.{OpenDht, Json, Net}
use p2p_messenger.Wire.Message.{Message, SignedMessage}
use p2p_messenger.Wire.Deserializer.{
  signed_message_from_buffer, destinantion_public_key_from_buffer, message_from_buffer,
  check_signature,
}
use p2p_messenger.ChatHistory.{ChatHistory, Line}
use p2p_messenger.Node.State.{
  Config, Node, Endpoint, Signal, message_received, contact_received, send_to, make_address,
  public_key_of, signal,
}
use p2p_messenger.Node.HolePuncher.{hole_punch, start_hole_punching}
use p2p_messenger.Node.Receiver.{
  put_metadata, accept, receive_own, forward, receive_other, receive_message, receive_metadata,
  async_wait, async_wait_handler, deliver, Event, failed, unread, datagram, entered_at,
}
use p2p_messenger.Node.Messenger.{on_received, receive}
use p2p_messenger.Node.Delivery.{or_throw-eq-ok}
use p2p_messenger.Node.Origin.{
  HistoryIs, Extends, AddsLine, AddsLine-silent, AddsLine-append_line, AddsLine-first,
  AddsLine-lift, AddsLine-then, AddsLine-try_catch, AddsLine-if,
}

ruleset program_rules = (Keeps->>=, Keeps-lift, Keeps-read, Keeps-try_catch, Keeps-if)

module _ (D : OpenDht) (N : Net) where
  pub Keeps-send_to :
      (b : Bytes) (e : Endpoint N) (h : ChatHistory D) → Keeps (HistoryIs D N h) (send_to D N b e)
  unfolding send_to
  Keeps-send_to b e h = record {
    keeps = λ s same. elim (Bool-cases (N.send_fails s.sent (b, e.0, e.1))) [
      | inl fails ↦ rw fails same
      | inr goes ↦ rw goes same
    ];
  }

  pub Keeps-signal : (x : Signal D) (h : ChatHistory D) → Keeps (HistoryIs D N h) (signal D N x)
  Keeps-signal x h = record { keeps = λ s same. same }

  pub Keeps-start_hole_punching :
      (b ip : Bytes) (port : ℕ) (h : ChatHistory D)
      → Keeps (HistoryIs D N h) (start_hole_punching D N b ip port)
  unfolding start_hole_punching hole_punch
  Keeps-start_hole_punching b ip port h = Keeps->>= (Keeps-lift (make_address D N ip)) λ address.
      Keeps->>= (Keeps-send_to b (address, port) h) λ _. record { keeps = λ s same. same }

module _ (D : OpenDht) (J : Json) (N : Net) where
  -- The datagram carries, for the node's key, a message that says the line, under a signature that
  -- is good for the key with the id.
  pub record Authored (c : Config D) (b : Bytes) (id : D.InfoHash) (line : Line) : Type 0 where
    pub signed : SignedMessage
    pub message : Message
    pub key : D.PublicKey
    pub is_signed : signed_message_from_buffer b ≡ ok signed
    pub opened : message_from_buffer D J signed.message c.private_key ≡ ok message
    pub from_key : D.of_string message.source_public_key ≡ some key
    pub good : check_signature D signed key ≡ true
    pub of_id : D.get_id key ≡ id
    pub says : line ≡ (message.source_login, message.payload.text)

  on_received-AddsLine :
      (c : Config D) (m : Message) (P : D.InfoHash → Line → Type 0)
      → ((key : D.PublicKey)
          → D.of_string m.source_public_key ≡ some key
          → P (D.get_id key) (m.source_login, m.payload.text))
      → AddsLine D N P (on_received D N c m)
  unfolding on_received
  on_received-AddsLine c m P p = AddsLine-lift (public_key_of D m.destination_public_key) λ own e.
      AddsLine-if (D.same_key own (D.public_key c.private_key))
        (λ mine. AddsLine-lift (public_key_of D m.source_public_key) λ key f.
          AddsLine-then
            (AddsLine-append_line (D.get_id key) (m.source_login, m.payload.text)
              (p key (or_throw-eq-ok (D.of_string m.source_public_key) crypto_error f)))
            λ _ h.
              Keeps->>=
                (Keeps-signal D N
                  (contact_received
                    (record { login = m.source_login; public_key_id = D.get_id key }))
                  h)
                λ _. Keeps-signal D N (message_received m) h)
        (AddsLine-silent λ h. Keeps-lift (ok tt))

  Keeps-put_metadata :
      (login : Bytes) (k : D.PublicKey) (ip : Bytes) (port : ℕ) (h : ChatHistory D)
      → Keeps (HistoryIs D N h) (put_metadata D J N login k ip port)
  unfolding put_metadata
  Keeps-put_metadata login k ip port h = record { keeps = λ s same. same }

  accept-AddsLine :
      (c : Config D) (m : Message) (remote : Endpoint N) (P : D.InfoHash → Line → Type 0)
      → ((key : D.PublicKey)
          → D.of_string m.source_public_key ≡ some key
          → P (D.get_id key) (m.source_login, m.payload.text))
      → AddsLine D N P (accept D J N c (on_received D N c) m remote)
  unfolding accept
  accept-AddsLine c m remote P p =
      let (ip, port) = entered_at D J N m remote in
      AddsLine-lift (public_key_of D m.source_public_key) λ key e.
        AddsLine-first (Keeps-put_metadata m.source_login key ip port) λ _.
          AddsLine-first (Keeps-start_hole_punching D N c.punch_buffer ip port)
            λ _. on_received-AddsLine c m P p

  receive_own-AddsLine :
      (c : Config D) (b : Bytes) (signed : SignedMessage) (remote : Endpoint N)
      → signed_message_from_buffer b ≡ ok signed
      → AddsLine D N (Authored c b) (receive_own D J N c (on_received D N c) signed remote)
  unfolding receive_own
  receive_own-AddsLine c b signed remote e =
      AddsLine-try_catch
        (AddsLine-lift (message_from_buffer D J signed.message c.private_key) λ m e1.
          AddsLine-lift (public_key_of D m.source_public_key) λ key e2.
            AddsLine-if (check_signature D signed key)
              (λ good. accept-AddsLine c m remote (Authored c b) λ key' e3. record {
                signed = signed;
                message = m;
                key = key';
                is_signed = e;
                opened = e1;
                from_key = e3;
                good = ground arith;
                of_id = refl;
                says = refl;
              })
              (AddsLine-silent λ h. Keeps-lift (ok tt)))
        (λ x h. Keeps-lift (ok tt))

  Keeps-forward :
      (m : Message) (b : Bytes) (h : ChatHistory D) → Keeps (HistoryIs D N h) (forward D J N m b)
  unfolding forward
  Keeps-forward m b h = search (program_rules, Keeps-send_to) depth 12

  Keeps-receive_other :
      (c : Config D) (signed : SignedMessage) (b : Bytes) (h : ChatHistory D)
      → Keeps (HistoryIs D N h) (receive_other D J N c signed b)
  unfolding receive_other
  Keeps-receive_other c signed b h = search (program_rules, Keeps-forward) depth 12

  Keeps-receive_metadata :
      (b : Bytes) (remote : Endpoint N) (h : ChatHistory D)
      → Keeps (HistoryIs D N h) (receive_metadata D J N b remote)
  unfolding receive_metadata
  Keeps-receive_metadata b remote h = search (program_rules, Keeps-put_metadata) depth 12

  receive_message-AddsLine :
      (c : Config D) (b : Bytes) (remote : Endpoint N)
      → AddsLine D N (Authored c b) (receive_message D J N c (on_received D N c) b remote)
  unfolding receive_message
  receive_message-AddsLine c b remote = AddsLine-lift (signed_message_from_buffer b) λ signed e.
      AddsLine-lift (destinantion_public_key_from_buffer signed.message) λ key e1.
        AddsLine-if (bytes_eq.beq key (D.to_string (D.public_key c.private_key)))
          (λ own. receive_own-AddsLine c b signed remote e)
          (AddsLine-silent (Keeps-receive_other c signed b))

  Keeps-async_wait : (h : ChatHistory D) → Keeps (HistoryIs D N h) (async_wait D J N)
  unfolding async_wait
  Keeps-async_wait h = record { keeps = λ s same. same }

  -- The line of an event: only a datagram has one.
  abbrev pub HeardAs : Config D → Event D J N → D.InfoHash → Line → Type 0
  HeardAs c failed id line = ⊥
  HeardAs c unread id line = ⊥
  HeardAs c (datagram available b remote) id line = Authored c b id line

  async_wait_handler-AddsLine :
      (c : Config D) (event : Event D J N)
      → AddsLine D N (HeardAs c event) (async_wait_handler D J N c (on_received D N c) event)
  unfolding async_wait_handler
  async_wait_handler-AddsLine c failed = AddsLine-silent Keeps-async_wait
  async_wait_handler-AddsLine c unread = AddsLine-silent λ h. Keeps-lift _
  async_wait_handler-AddsLine c (datagram available b remote) =
      AddsLine-if (available == length b)
        (λ whole.
          AddsLine-then
            (AddsLine-try_catch (receive_message-AddsLine c b remote)
              λ x h. Keeps-receive_metadata b remote h)
            λ _ h. Keeps-async_wait h)
        (AddsLine-silent λ h. Keeps-lift _)

  -- Whatever event the io_context gives to the receiver, the history gets at most one line, and that
  -- one is what the datagram says, under a signature of the key to whose chat it goes.
  pub receive-Extends :
      (c : Config D) (event : Event D J N) (s : Node D N)
      → Extends D N (HeardAs c event) s.history (receive D J N c event s).1.history
  unfolding receive deliver
  receive-Extends c event s = elim (Bool-cases s.waiting) [
    | inl waits ↦
        rw waits ((async_wait_handler-AddsLine c event).adds (record s { waiting = false }))
    | inr busy ↦ rw busy (inl refl)
  ]
