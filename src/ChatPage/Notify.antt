-- ===== src/ChatPage/Notify.antt =====
-- The item that `notify` makes bold: is it there?
use p2p_messenger.Prelude.{
  ◌≡◌, true, Option, none, some, List, [], ◌∷◌, ◌++◌, if◌then◌else◌, Bool-cases, inl, inr, beq_refl,
}
use p2p_messenger.Prelude.Outcome.{ok, undefined}
use p2p_messenger.Prelude.Program.{◌>>◌}
use p2p_messenger.External.{OpenDht, Net, Texts}
use p2p_messenger.Wire.Message.{Message}
use p2p_messenger.Resolver.Dht.{Contact}
use p2p_messenger.Node.State.{message_received, contact_received}
use p2p_messenger.ChatPage.Distinct.{has_item-with_item}
use p2p_messenger.ChatPage.Page.{
  Slot, paragraph, Page, Item, has_item, set_bold, Messenger, with_item, address_text, is_current,
  item_text, contact_of, notify, notify_item, receive_at, show_address,
  update_chat_with_received_message, update_contacts_list_with_received_contact, on_signal,
  on_logout_clicked,
}

has_item_after :
    (Q : Texts) (text : Q.QString) (items : List (Item Q))
    → has_item Q text (with_item Q text items) ≡ true
has_item_after Q text items =
    rw (has_item-with_item Q text text items, beq_refl ⦃e = Q.string_eq⦄ text)
      (elim (Bool-cases (has_item Q text items)) [ inl old ↦ rw old | inr new ↦ rw new ])

module _ (D : OpenDht) (N : Net) (Q : Texts) where
  pub show_address_lem :
      (contact : Contact D) (p : Page D N Q) (m : Messenger D N)
      → p.messenger ≡ some m
      → show_address D N Q contact p
        ≡ (ok tt, record p { destination_address = address_text D N Q contact m })
  unfolding show_address
  show_address_lem contact p m e = simp e

  -- The label, if the contact is the selected one.
  abbrev pub label_after : Contact D → Messenger D N → Page D N Q → Q.QString
  label_after contact m p =
      if is_current D N Q (item_text D N Q contact) p.current
      then address_text D N Q contact m
      else p.destination_address

  pub update_contacts_lem :
      (contact : Contact D) (p : Page D N Q) (m : Messenger D N)
      → p.messenger ≡ some m
      → D.id_is_set contact.public_key_id ≡ true
      → update_contacts_list_with_received_contact D N Q contact p ≡ (
        ok tt,
        record p {
          contacts = with_item Q (item_text D N Q contact) p.contacts;
          destination_address = label_after contact m p;
        },
      )
  unfolding update_contacts_list_with_received_contact
  update_contacts_lem contact p m e set =
      elim (Bool-cases (is_current D N Q (item_text D N Q contact) p.current)) [
        | inl same ↦ rw (set, same) (show_address_lem contact _ m e)
        | inr other ↦ rw (set, other)
      ]

  abbrev pub source_text : Message → D.InfoHash → Q.QString
  source_text message id =
      item_text D N Q (record { login = message.source_login; public_key_id = id })

  abbrev source_in_bold : Message → D.InfoHash → Page D N Q → Page D N Q
  source_in_bold message id p = record p {
    contacts = set_bold Q true (source_text message id) p.contacts;
  }

  -- What a page shows of a message that is received: the line, if the selected contact has the
  -- source's id, and else the item of the source in bold.
  abbrev pub shown_after : Message → D.InfoHash → Option (Contact D) → Page D N Q → Page D N Q
  shown_after message id none p = source_in_bold message id p
  shown_after message id (some contact) p =
      if D.id_eq.beq contact.public_key_id id
      then record p {
        chat = p.chat ++ (paragraph Q (message.source_login, message.payload.text) ∷ []);
      }
      else source_in_bold message id p

  -- The contact that is selected, if any.
  pub data Selected : Option Q.QString → Option (Contact D) → Type 0 where
    nobody : Selected none none
    somebody :
        {text : Q.QString} {c : Contact D}
        → contact_of D N Q text ≡ ok c
        → Selected (some text) (some c)

  pub notify_lem :
      (message : Message) (key : D.PublicKey) (p : Page D N Q)
      → D.of_string message.source_public_key ≡ some key
      → has_item Q (source_text message (D.get_id key)) p.contacts ≡ true
      → notify D N Q message p ≡ (ok tt, shown_after message (D.get_id key) none p)
  unfolding notify notify_item
  notify_lem message key p e h = rw (e, h)

  receive_at_lem :
      (message : Message) (key : D.PublicKey) (p : Page D N Q) {current : Option Q.QString}
      {selected : Option (Contact D)}
      → Selected current selected
      → D.of_string message.source_public_key ≡ some key
      → has_item Q (source_text message (D.get_id key)) p.contacts ≡ true
      → receive_at D N Q message current p ≡ (ok tt, shown_after message (D.get_id key) selected p)
  unfolding receive_at
  receive_at_lem message key p nobody k h = notify_lem message key p k h
  receive_at_lem message key p (somebody {c} r) k h =
      rw (r, k)
        (elim (Bool-cases (D.id_eq.beq c.public_key_id (D.get_id key))) [
          | inl same ↦ rw same
          | inr other ↦ rw other (notify_lem message key p k h)
        ])

  -- The two signals of a message that the node receives, handled in their order.
  abbrev pub both_signals : Message → D.InfoHash → Slot D N Q
  both_signals message id = do
    on_signal D N Q (contact_received (record { login = message.source_login; public_key_id = id }))
    on_signal D N Q (message_received message)

  -- When the page handles the two signals of a received message, nothing is undefined: the source is
  -- listed, and the message is appended to the chat if the source's id is the selected
  -- contact's, or else the source's item is bold. The messenger must be there, the selected text
  -- must be a contact's, the source's key must be a key, and its id must not be zero.
  pub both_signals_lem :
      (message : Message) (key : D.PublicKey) (p : Page D N Q) (m : Messenger D N)
      {selected : Option (Contact D)}
      → p.messenger ≡ some m
      → Selected p.current selected
      → D.of_string message.source_public_key ≡ some key
      → D.id_is_set (D.get_id key) ≡ true
      → let contact : Contact D = record {
        login = message.source_login;
        public_key_id = D.get_id key;
      } in
        both_signals message (D.get_id key) p ≡ (
          ok tt,
          shown_after message (D.get_id key) selected (record p {
            contacts = with_item Q (item_text D N Q contact) p.contacts;
            destination_address = label_after contact m p;
          }),
        )
  unfolding on_signal update_chat_with_received_message
  both_signals_lem message key p m e r k set =
      let contact : Contact D = record {
        login = message.source_login;
        public_key_id = D.get_id key;
      } in
      rw (update_contacts_lem contact p m e set)
        (receive_at_lem message key _ r k (has_item_after Q (item_text D N Q contact) p.contacts))

  -- A received message whose signal is handled after the user logged out is undefined behaviour:
  -- the contact list is empty, and `notify` asks the empty list of items for its first. The
  -- source's key must be a key.
  pub received_after_logout :
      (message : Message) (key : D.PublicKey) (p : Page D N Q)
      → D.of_string message.source_public_key ≡ some key
      → (on_signal D N Q (message_received message) (on_logout_clicked D N Q p).1).0 ≡ undefined
  unfolding on_signal on_logout_clicked update_chat_with_received_message receive_at notify
      notify_item has_item
  received_after_logout message key p k = rw k
