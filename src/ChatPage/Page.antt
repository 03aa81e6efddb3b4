-- ===== src/ChatPage/Page.antt =====
-- chatpage.cpp: what its widgets hold, and its slots. The texts of the contact list are distinct
-- (Steps.antt), so an item is known by its text; in which row the sorted list puts a new item is
-- Qt's, and a parameter. The history that a click shows is read in one piece here, where the code
-- walks a list that the io_context's threads may append to meanwhile.
use p2p_messenger.Prelude.{
  ℕ, zero, suc, Bool, true, false, Option, none, some, List, [], ◌∷◌, ◌++◌, map, if◌then◌else◌,
  bytes_eq,
}
use p2p_messenger.Prelude.Bytes.{Bytes}
use p2p_messenger.Prelude.Outcome.{Outcome, ok, undefined}
use p2p_messenger.Prelude.Program.{Program, ◌>>=◌, ◌>>◌, lift, modify, read, return}
use p2p_messenger.External.{OpenDht, Net, Texts}
use p2p_messenger.Wire.Message.{Message}
use p2p_messenger.ChatHistory.{Line, or_empty}
use p2p_messenger.Resolver.Dht.{Contact}
use p2p_messenger.Node.State.{
  Config, Node, Signal, message_sent, message_received, contact_received, public_key_of,
}
use p2p_messenger.Node.Sender.{dereference}
use p2p_messenger.Node.Messenger.{resolve, get, listen}
use p2p_messenger.ChatPage.{contact_to_string, contact_from_string}

-- `Not found`
abbrev not_found : Bytes
not_found = b'N' ∷ b'o' ∷ b't' ∷ b' ' ∷ b'f' ∷ b'o' ∷ b'u' ∷ b'n' ∷ b'd' ∷ []

-- What `P2PMessengerImpl::send_message` posts to the io_context.
pub record Task (D : OpenDht) : Type 0 where
  pub login : Bytes
  pub public_key_id : D.InfoHash
  pub message : Bytes

-- A `P2PMessengerImpl` and its tasks that have not run yet.
pub record Messenger (D : OpenDht) (N : Net) : Type 0 where
  pub config : Config D
  pub node : Node D N
  pub posted : List (Task D)

-- A `QListWidgetItem`.
pub record Item (Q : Texts) : Type 0 where
  pub text : Q.QString
  pub bold : Bool

pub record Page (D : OpenDht) (N : Net) (Q : Texts) : Type 0 where
  -- `p2p_messenger_impl_`; `none` is null.
  pub messenger : Option (Messenger D N)
  pub contacts : List (Item Q)
  -- the text of `currentItem()`
  pub current : Option Q.QString
  -- the texts that `chatTextEdit` was given since it was cleared; how it lays them out and what it
  -- takes for rich text is Qt's
  pub chat : List Q.QString
  pub destination_login : Q.QString
  pub destination_address : Q.QString
  pub message_line : Q.QString
  pub search_line : Q.QString

module _ (Q : Texts) where
  -- `findItems(text, Qt::MatchExactly)` is not empty.
  unfoldable pub has_item : Q.QString → List (Item Q) → Bool
  has_item text [] = false
  has_item text (item ∷ items) =
      let rest = has_item text items in if Q.string_eq.beq item.text text then true else rest

  -- The font of the first item with the text.
  unfoldable pub set_bold : Bool → Q.QString → List (Item Q) → List (Item Q)
  set_bold bold text [] = []
  set_bold bold text (item ∷ items) =
      if Q.string_eq.beq item.text text
      then record item { bold = bold } ∷ items
      else item ∷ set_bold bold text items

  unfoldable pub put_item : ℕ → Item Q → List (Item Q) → List (Item Q)
  put_item row item [] = item ∷ []
  put_item zero item (other ∷ items) = item ∷ other ∷ items
  put_item (suc row) item (other ∷ items) = other ∷ put_item row item items

  -- `addItem`: the item comes to the row that Qt finds for it.
  unfoldable pub add_item : Q.QString → List (Item Q) → List (Item Q)
  unfolding put_item
  add_item text items =
      put_item (Q.row_of text (map (λ (item : Item Q). item.text) items))
        (record { text = text; bold = false }) items

  abbrev pub with_item : Q.QString → List (Item Q) → List (Item Q)
  with_item text items = if has_item text items then items else add_item text items

  -- `login + ": " + text`
  abbrev pub paragraph : Line → Q.QString
  paragraph (login, text) = Q.from_std_string (login ++ (b':' ∷ b' ' ∷ text))

module _ (D : OpenDht) (N : Net) (Q : Texts) where
  abbrev pub Slot : Type 0
  Slot = Program (Page D N Q) (Unit {0})

  abbrev pub append_paragraph : Line → Slot
  append_paragraph line = modify λ p. record p { chat = p.chat ++ (paragraph Q line ∷ []) }

  abbrev pub item_text : Contact D → Q.QString
  item_text contact = Q.from_std_string (contact_to_string D contact)

  abbrev pub contact_of : Q.QString → Outcome (Contact D)
  contact_of text = contact_from_string D (Q.to_std_string text)

  -- Behind the search for the item. After `addItem`, `items` is empty as before, and has no first.
  unfoldable pub notify_item : Q.QString → Slot
  notify_item text p =
      if has_item Q text p.contacts
      then (ok tt, record p { contacts = set_bold Q true text p.contacts })
      else (undefined, record p { contacts = add_item Q text p.contacts })

  unfoldable pub notify : Message → Slot
  unfolding notify_item
  notify message = do
    key ← lift (public_key_of D message.source_public_key)
    notify_item (item_text (record { login = message.source_login; public_key_id = D.get_id key }))

  unfoldable pub update_chat_with_sent_message : Message → Slot
  update_chat_with_sent_message message =
      if bytes_eq.beq message.source_public_key message.destination_public_key
      then return tt
      else append_paragraph (message.source_login, message.payload.text)

  -- With the text of the selected item, if one is.
  unfoldable pub receive_at : Message → Option Q.QString → Slot
  receive_at message none = notify message
  receive_at message (some text) = do
    contact ← lift (contact_of text)
    key ← lift (public_key_of D message.source_public_key)
    if D.id_eq.beq contact.public_key_id (D.get_id key)
        then append_paragraph (message.source_login, message.payload.text)
        else notify message

  unfoldable pub update_chat_with_received_message : Message → Slot
  update_chat_with_received_message message p = receive_at message p.current p

  -- What `destinationAddressLabel` says of a contact.
  unfoldable pub address_text : Contact D → Messenger D N → Q.QString
  address_text contact m = elim (resolve D N contact.login contact.public_key_id m.node) [
    | none ↦ Q.from_std_string not_found
    | some address ↦ Q.from_std_string address
  ]

  unfoldable pub show_address : Contact D → Slot
  show_address contact = do
    messenger ← read λ p. p.messenger
    m ← lift (dereference messenger)
    modify λ p. record p { destination_address = address_text contact m }

  abbrev pub is_current : Q.QString → Option Q.QString → Bool
  is_current text none = false
  is_current text (some t) = Q.string_eq.beq text t

  unfoldable pub update_contacts_list_with_received_contact : Contact D → Slot
  unfolding show_address
  update_contacts_list_with_received_contact contact =
      if D.id_is_set contact.public_key_id
      then (do
        let text = item_text contact
        modify λ p. record p { contacts = with_item Q text p.contacts }
        current ← read λ p. p.current
        if is_current text current then show_address contact else return tt)
      else return tt

  -- The handlers that the messenger calls emit signals, which these slots are connected to.
  unfoldable pub on_signal : Signal D → Slot
  on_signal (message_sent message) = update_chat_with_sent_message message
  on_signal (message_received message) = update_chat_with_received_message message
  on_signal (contact_received contact) = update_contacts_list_with_received_contact contact

  -- The slot, which is given the clicked item.
  unfoldable pub show_contact : Q.QString → Slot
  show_contact text = do
    contact ← lift (contact_of text)
    modify λ p. record p { destination_login = Q.from_std_string contact.login }
    show_address contact
    modify λ p. record p { contacts = set_bold Q false text p.contacts }
    messenger ← read λ p. p.messenger
    m ← lift (dereference messenger)
    let lines = or_empty (get D N contact.public_key_id m.node)
    modify λ p. record p { chat = map (paragraph Q) lines }

  -- Qt makes a clicked item the current one, and calls the slot.
  unfoldable pub on_contacts_item_clicked : Q.QString → Slot
  on_contacts_item_clicked text p = show_contact text (record p { current = some text })

  -- `p2p_messenger_impl_->send_message(…)`
  unfoldable pub post : Task D → Slot
  post task = do
    messenger ← read λ p. p.messenger
    m ← lift (dereference messenger)
    modify λ p. record p { messenger = some (record m { posted = m.posted ++ (task ∷ []) }) }

  -- With the text of the selected item, if one is, and that of the line.
  unfoldable pub send_text : Option Q.QString → Bytes → Slot
  send_text none text = return tt
  send_text (some item) text = do
    contact ← lift (contact_of item)
    if bytes_eq.beq text [] then return tt else (do
      modify λ p. record p { message_line = Q.from_std_string [] }
      post
          (record { login = contact.login; public_key_id = contact.public_key_id; message = text }))

  -- The send button, and return in the line.
  unfoldable pub send_message : Slot
  send_message p = send_text p.current (Q.to_std_string p.message_line) p

  -- `token` is what the DHT node returns.
  unfoldable pub on_search_clicked : ℕ → Slot
  on_search_clicked token = do
    login ← read λ p. Q.to_std_string p.search_line
    if bytes_eq.beq login [] then return tt else (do
      modify λ p. record p { search_line = Q.from_std_string [] }
      messenger ← read λ p. p.messenger
      m ← lift (dereference messenger)
      modify λ p. record p { messenger = some (record m { node = listen D N login token m.node }) })

  unfoldable pub on_logout_clicked : Slot
  on_logout_clicked = modify λ p. record p {
    messenger = none;
    contacts = [];
    current = none;
    chat = [];
    destination_login = Q.from_std_string [];
    destination_address = Q.from_std_string [];
    message_line = Q.from_std_string [];
    search_line = Q.from_std_string [];
  }
