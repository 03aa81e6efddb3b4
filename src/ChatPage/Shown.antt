-- ===== src/ChatPage/Shown.antt =====
-- The lines that the chat page shows against the history of the selected contact.
use p2p_messenger.Prelude.{
  ◌≡◌, refl, true, false, some, List, [], ◌∷◌, ◌++◌, map, if◌then◌else◌, Bool-cases, inl, inr, sym,
  ◌∙◌, subst, beq_refl, ℕ, ◌+◌, ◌≢◌, arith, ap, length, length-append, bytes_eq,
}
use p2p_messenger.Prelude.Outcome.{Outcome, ok}
use p2p_messenger.External.{OpenDht, Net, Texts}
use p2p_messenger.Wire.Message.{Message}
use p2p_messenger.ChatHistory
use p2p_messenger.ChatHistory.{Line, or_empty, ChatHistory}
use p2p_messenger.ChatHistory.Log.{find-append}
use p2p_messenger.Resolver.Dht.{Contact}
use p2p_messenger.Node.State.{Config, Node, message_sent}
use p2p_messenger.Node.Messenger.{on_sent, on_received, get}
use p2p_messenger.ChatPage.Page.{
  paragraph, Page, Messenger, set_bold, address_text, contact_of, show_contact, on_signal,
  update_chat_with_sent_message, on_contacts_item_clicked,
}
use p2p_messenger.ChatPage.Distinct.{beq_ne_sym}
use p2p_messenger.ChatPage.Notify.{
  show_address_lem, Selected, somebody, shown_after, both_signals, both_signals_lem,
}

module _ (Q : Texts) where
  map-append :
      (xs ys : List Line)
      → map (paragraph Q) (xs ++ ys) ≡ map (paragraph Q) xs ++ map (paragraph Q) ys
  map-append [] ys = refl
  map-append (x ∷ xs) ys = rw (map-append xs ys)

module _ (D : OpenDht) (N : Net) (Q : Texts) where
  -- The paragraphs are the lines of the history with the id.
  unfoldable pub Shows : D.InfoHash → Node D N → Page D N Q → Type 0
  Shows id node p = p.chat ≡ map (paragraph Q) (or_empty (get D N id node))

  -- A click on an item leaves the item selected and not bold, and the page with what the
  -- messenger has of the contact: its login, its address, or `Not found`, and its history.
  pub click_lem :
      (text : Q.QString) (contact : Contact D) (p : Page D N Q) (m : Messenger D N)
      → p.messenger ≡ some m
      → contact_of D N Q text ≡ ok contact
      → on_contacts_item_clicked D N Q text p ≡ (
        ok tt,
        record p {
          contacts = set_bold Q false text p.contacts;
          current = some text;
          chat = map (paragraph Q) (or_empty (get D N contact.public_key_id m.node));
          destination_login = Q.from_std_string contact.login;
          destination_address = address_text D N Q contact m;
        },
      )
  unfolding on_contacts_item_clicked show_contact
  click_lem text contact p m e r = rw r (
      rw
        (show_address_lem D N Q contact
          (record p { current = some text; destination_login = Q.from_std_string contact.login }) m
          e)
        (simp e))

  pub click-Shows :
      (text : Q.QString) (contact : Contact D) (p : Page D N Q) (m : Messenger D N)
      → p.messenger ≡ some m
      → contact_of D N Q text ≡ ok contact
      → Shows contact.public_key_id m.node (on_contacts_item_clicked D N Q text p).1
  unfolding Shows
  click-Shows text contact p m e r = rw (click_lem text contact p m e r)

  -- The history of one id after a line was added to that of another, as the page shows it.
  append_lem :
      (id j : D.InfoHash) (line : Line) (chat : List Q.QString) (h : ChatHistory D)
      → chat ≡ map (paragraph Q) (or_empty (ChatHistory.get D id h))
      → (if D.id_eq.beq id j then chat ++ (paragraph Q line ∷ []) else chat)
        ≡ map
            (paragraph Q)
            (or_empty (ChatHistory.get D id (ChatHistory.append D j line.0 line.1 h)))
  append_lem id j line chat h e =
      rw (find-append D id j line h) (elim (Bool-cases (D.id_eq.beq id j)) [
        | inl same ↦ rw (
          sym ((D.id_eq.beq_iff id j).0 same),
          beq_refl ⦃e = D.id_eq⦄ id,
          map-append Q (or_empty (ChatHistory.get D id h)) (line ∷ []),
          e,
        )
        | inr other ↦ rw (other, beq_ne_sym ⦃e = D.id_eq⦄ id j other) e
      ])

  chat-shown_after :
      (message : Message) (id : D.InfoHash) (selected : Contact D) (p : Page D N Q)
      → (shown_after D N Q message id (some selected) p).chat ≡ (
          if D.id_eq.beq selected.public_key_id id
          then p.chat ++ (paragraph Q (message.source_login, message.payload.text) ∷ [])
          else p.chat)
  chat-shown_after message id selected p =
      elim (Bool-cases (D.id_eq.beq selected.public_key_id id)) [
        | inl same ↦ rw same
        | inr other ↦ rw other
      ]

  signals_show :
      (message : Message) (key : D.PublicKey) (text : Q.QString) (selected : Contact D)
      (p : Page D N Q) (m : Messenger D N) (h : ChatHistory D)
      → p.messenger ≡ some m
      → p.current ≡ some text
      → contact_of D N Q text ≡ ok selected
      → D.of_string message.source_public_key ≡ some key
      → D.id_is_set (D.get_id key) ≡ true
      → p.chat ≡ map (paragraph Q) (or_empty (ChatHistory.get D selected.public_key_id h))
      → m.node.history
        ≡ ChatHistory.append D (D.get_id key) message.source_login message.payload.text h
      → let shown : Outcome (Unit {0}) × Page D N Q = both_signals D N Q message (D.get_id key) p in
        (shown.0 ≡ ok tt) × Shows selected.public_key_id m.node shown.1
  unfolding Shows get
  signals_show message key text selected p m h e f r k set shows added =
      rw
        (both_signals_lem D N Q message key p m {selected = some selected} e
          (subst (λ t. Selected D N Q t (some selected)) (sym f) (somebody r)) k set)
        (
          refl,
          chat-shown_after message (D.get_id key) selected _
              ∙ rw added (
                  append_lem selected.public_key_id (D.get_id key)
                    (message.source_login, message.payload.text) p.chat h shows),
        )

  -- While the node receives a message for it and the page handles the two signals, the page goes on
  -- showing the history of the selected contact, whoever sent the message. The source's key must be a
  -- key, and its id not zero; the selected text must be a contact's.
  pub received_shown :
      (c : Config D) (message : Message) (key own : D.PublicKey) (text : Q.QString)
      (selected : Contact D) (p : Page D N Q) (m : Messenger D N)
      → D.of_string message.destination_public_key ≡ some own
      → D.same_key own (D.public_key c.private_key) ≡ true
      → D.of_string message.source_public_key ≡ some key
      → D.id_is_set (D.get_id key) ≡ true
      → p.current ≡ some text
      → contact_of D N Q text ≡ ok selected
      → Shows selected.public_key_id m.node p
      → let node : Node D N = (on_received D N c message m.node).1 in
        let shown : Outcome (Unit {0}) × Page D N Q =
          both_signals D N Q message
            (D.get_id key)
            (record p { messenger = some (record m { node = node }) }) in
        (shown.0 ≡ ok tt) × Shows selected.public_key_id node shown.1
  unfolding Shows on_received get
  received_shown c message key own text selected p m d same k set e r shows =
      rw (d, same, k)
        (signals_show message key text selected _ _ m.node.history refl e r k set shows refl)

  one_more : (xs : List Q.QString) (x : Q.QString) → (xs ++ (x ∷ [])) ≢ xs
  one_more xs x e = absurd (nat_ne (length xs) (rw (length-append xs (x ∷ [])) at (ap length e)))
    where
      nat_ne : (n : ℕ) → n + 1 ≢ n
      nat_ne n = λ q. omega (arith, q)

  -- A page shows the history of an id. After the node has sent a message to another key than its own
  -- and the page has handled the signal, the page shows the history still, if the message went to that
  -- id. If it went to another, the page shows a line that the history does not have.
  pub sent_shown :
      (message : Message) (key : D.PublicKey) (id : D.InfoHash) (p : Page D N Q) (node : Node D N)
      → D.of_string message.destination_public_key ≡ some key
      → bytes_eq.beq message.source_public_key message.destination_public_key ≡ false
      → Shows id node p
      → let after : Node D N = (on_sent D N message node).1 in
        let shown : Outcome (Unit {0}) × Page D N Q = on_signal D N Q (message_sent message) p in
        (shown.0 ≡ ok tt)
        × (D.id_eq.beq id (D.get_id key) ≡ true → Shows id after shown.1)
        × (D.id_eq.beq id (D.get_id key) ≡ false → ¬ Shows id after shown.1)
  unfolding Shows on_sent get on_signal update_chat_with_sent_message
  sent_shown message key id p node k other shows =
      let line : Line = (message.source_login, message.payload.text) in
      let added : (if D.id_eq.beq id (D.get_id key)
            then p.chat ++ (paragraph Q line ∷ [])
            else p.chat)
          ≡ map (paragraph Q) (
              or_empty (
                ChatHistory.get D id
                  (ChatHistory.append D (D.get_id key) line.0 line.1 node.history))) =
        append_lem id (D.get_id key) line p.chat node.history shows in
      rw (k, other)
        (
          refl,
          λ same. rw same at added,
          λ elsewhere e. one_more p.chat (paragraph Q line) (e ∙ sym (rw elsewhere at added)),
        )
