-- ===== src/ChatPage/Readable.antt =====
-- Runs of the chat page in which every contact's text is read back, and what its slots keep of that.
use p2p_messenger.Prelude.{
  ℕ, zero, suc, map, ◌≡◌, refl, Bool, true, false, Option, none, some, List, [], ◌∷◌, ◌++◌, All,
  Bool-cases, Option-cases, inl, inr, bytes_eq,
}
use p2p_messenger.Prelude.Bytes.{Bytes}
use p2p_messenger.Prelude.Outcome.{ok}
use p2p_messenger.Prelude.Program.{modify, return}
use p2p_messenger.Prelude.Rules.{Keeps, Keeps->>=, Keeps-lift, Keeps-read, Keeps-if}
use p2p_messenger.External.{OpenDht, Net, Texts}
use p2p_messenger.Address.Parse.{Lacks}
use p2p_messenger.Wire.Message.{Message}
use p2p_messenger.Resolver.Dht.{Contact}
use p2p_messenger.Node.State.{
  public_key_of, Signal, message_sent, message_received, contact_received,
}
use p2p_messenger.ChatPage.{contact_to_string, contact_from_string-contact_to_string}
use p2p_messenger.ChatPage.Page.{
  Page, paragraph, is_current, Item, Task, has_item, set_bold, add_item, put_item, with_item,
  item_text, contact_of, notify, notify_item, receive_at, show_address,
  update_chat_with_sent_message, update_chat_with_received_message,
  update_contacts_list_with_received_contact, on_signal, on_contacts_item_clicked, post, send_text,
  show_contact, send_message, on_search_clicked, on_logout_clicked,
}
use p2p_messenger.ChatPage.Steps.{
  Step, handles, clicks, selects, sends, searches, logs_out, types, works, empty_page,
}

ruleset program_rules = (Keeps->>=, Keeps-lift, Keeps-read, Keeps-if)

module _ (D : OpenDht) (N : Net) (Q : Texts) where
  -- A text is a contact's.
  abbrev pub IsContact : Q.QString → Type 0
  IsContact text = (contact : Contact D) × (contact_of D N Q text ≡ ok contact)

  -- The text of a contact is, if it survives the conversions, and the id's text does.
  pub item_text-IsContact :
      (contact : Contact D)
      → Lacks b']' (D.id_to_string contact.public_key_id)
      → D.id_of_string (D.id_to_string contact.public_key_id) ≡ contact.public_key_id
      → Q.to_std_string (item_text D N Q contact) ≡ contact_to_string D contact
      → IsContact (item_text D N Q contact)
  item_text-IsContact contact h e s =
      (contact, rw s (contact_from_string-contact_to_string D contact h e))

  unfoldable pub IsReadable : Page D N Q → Type 0
  IsReadable p = All (λ (item : Item Q). IsContact item.text) p.contacts

  -- The contacts that a signal adds are read back.
  abbrev pub Reads : Signal D → Type 0
  Reads (message_sent message) = Unit
  Reads (message_received message) =
      (key : D.PublicKey)
      → D.of_string message.source_public_key ≡ some key
      → IsContact
          (item_text D N Q (record { login = message.source_login; public_key_id = D.get_id key }))
  Reads (contact_received contact) = IsContact (item_text D N Q contact)

  abbrev pub StepReads : {p q : Page D N Q} → Step D N Q p q → Type 0
  StepReads (handles x) = Reads x
  StepReads (clicks text h) = Unit
  StepReads (selects text h) = Unit
  StepReads sends = Unit
  StepReads (searches token) = Unit
  StepReads logs_out = Unit
  StepReads (types line login) = Unit
  StepReads (works m) = Unit

  -- A run all of whose signals read.
  pub data Run : Page D N Q → Type 0 where
    begin : Run (empty_page D N Q)
    next : {p q : Page D N Q} → Run p → (s : Step D N Q p q) → StepReads s → Run q

  All-set_bold :
      (b : Bool) (text : Q.QString) (items : List (Item Q))
      → All (λ (item : Item Q). IsContact item.text) items
      → All (λ (item : Item Q). IsContact item.text) (set_bold Q b text items)
  unfolding set_bold
  All-set_bold b text [] h = h
  All-set_bold b text (item ∷ items) h = elim (Bool-cases (Q.string_eq.beq item.text text)) [
    | inl same ↦ rw same h
    | inr other ↦ rw other (h.0, All-set_bold b text items h.1)
  ]

  All-put_item :
      (row : ℕ) (new : Item Q) (items : List (Item Q))
      → IsContact new.text
      → All (λ (item : Item Q). IsContact item.text) items
      → All (λ (item : Item Q). IsContact item.text) (put_item Q row new items)
  unfolding put_item
  All-put_item row new [] c h = (c, tt)
  All-put_item zero new (item ∷ items) c h = (c, h)
  All-put_item (suc row) new (item ∷ items) c h = (h.0, All-put_item row new items c h.1)

  All-add_item :
      (text : Q.QString) (items : List (Item Q))
      → IsContact text
      → All (λ (item : Item Q). IsContact item.text) items
      → All (λ (item : Item Q). IsContact item.text) (add_item Q text items)
  unfolding add_item
  All-add_item text items c h =
      All-put_item (Q.row_of text (map (λ (item : Item Q). item.text) items))
        (record { text = text; bold = false }) items c h

  Keeps-elsewhere :
      (f : Page D N Q → Page D N Q)
      → ((p : Page D N Q) → (f p).contacts ≡ p.contacts)
      → Keeps IsReadable (modify f)
  unfolding IsReadable
  Keeps-elsewhere f h = record { keeps = λ p i. rw (h p) i }

  Keeps-bold :
      (b : Bool) (text : Q.QString)
      → Keeps IsReadable
          (modify λ (p : Page D N Q). record p { contacts = set_bold Q b text p.contacts })
  unfolding IsReadable
  Keeps-bold b text = record { keeps = λ p i. All-set_bold b text p.contacts i }

  Keeps-with_item :
      (text : Q.QString)
      → IsContact text
      → Keeps IsReadable
          (modify λ (p : Page D N Q). record p { contacts = with_item Q text p.contacts })
  unfolding IsReadable
  Keeps-with_item text c = record {
    keeps = λ p i. elim (Bool-cases (has_item Q text p.contacts)) [
      | inl old ↦ rw old i
      | inr new ↦ rw new (All-add_item text p.contacts c i)
    ];
  }

  Keeps-notify_item :
      (text : Q.QString) → IsContact text → Keeps IsReadable (notify_item D N Q text)
  unfolding IsReadable notify_item
  Keeps-notify_item text c = record {
    keeps = λ p i. elim (Bool-cases (has_item Q text p.contacts)) [
      | inl old ↦ rw old (All-set_bold true text p.contacts i)
      | inr new ↦ rw new (All-add_item text p.contacts c i)
    ];
  }

  Keeps-notify :
      (message : Message)
      → Reads (message_received message)
      → Keeps IsReadable (notify D N Q message)
  unfolding notify
  Keeps-notify message c = elim (Option-cases (D.of_string message.source_public_key)) [
    | inl no_key ↦ rw no_key (record { keeps = λ p i. i })
    | inr (key, e) ↦ rw e (Keeps-notify_item _ (c key e))
  ]

  Keeps-return : Keeps IsReadable (return {S = Page D N Q} tt)
  Keeps-return = record { keeps = λ p i. i }

  Keeps-receive_at :
      (message : Message) (current : Option Q.QString)
      → Reads (message_received message)
      → Keeps IsReadable (receive_at D N Q message current)
  unfolding receive_at
  Keeps-receive_at message none c = Keeps-notify message c
  Keeps-receive_at message (some text) c = Keeps->>= (Keeps-lift (contact_of D N Q text)) λ contact.
      Keeps->>= (Keeps-lift (public_key_of D message.source_public_key)) λ key.
        Keeps-if (D.id_eq.beq contact.public_key_id (D.get_id key))
          (Keeps-elsewhere
            (λ p. record p {
              chat = p.chat ++ (paragraph Q (message.source_login, message.payload.text) ∷ []);
            })
            λ p. refl)
          (Keeps-notify message c)

  Keeps-show_address : (contact : Contact D) → Keeps IsReadable (show_address D N Q contact)
  unfolding show_address
  Keeps-show_address contact = search (program_rules, Keeps-elsewhere)

  Keeps-on_signal : (x : Signal D) → Reads x → Keeps IsReadable (on_signal D N Q x)
  unfolding on_signal update_chat_with_sent_message update_chat_with_received_message
      update_contacts_list_with_received_contact
  Keeps-on_signal (message_sent message) c = search (program_rules, Keeps-return, Keeps-elsewhere)
  Keeps-on_signal (message_received message) c = record {
    keeps = λ p i. (Keeps-receive_at message p.current c).keeps p i;
  }
  Keeps-on_signal (contact_received contact) c =
      Keeps-if (D.id_is_set contact.public_key_id)
        (Keeps->>= (Keeps-with_item (item_text D N Q contact) c) λ t.
          Keeps->>= (Keeps-read λ p. p.current) λ current.
            Keeps-if (is_current D N Q (item_text D N Q contact) current)
              (Keeps-show_address contact) Keeps-return)
        Keeps-return

  Keeps-post : (task : Task D) → Keeps IsReadable (post D N Q task)
  unfolding post
  Keeps-post task = search (program_rules, Keeps-elsewhere)

  Keeps-send_text :
      (current : Option Q.QString) (text : Bytes) → Keeps IsReadable (send_text D N Q current text)
  unfolding send_text
  Keeps-send_text none text = Keeps-return
  Keeps-send_text (some item) text =
      search (program_rules, Keeps-return, Keeps-elsewhere, Keeps-post) depth 12

  Keeps-on_search_clicked : (token : ℕ) → Keeps IsReadable (on_search_clicked D N Q token)
  unfolding on_search_clicked
  Keeps-on_search_clicked token = search (program_rules, Keeps-return, Keeps-elsewhere) depth 12

  Keeps-show_contact : (text : Q.QString) → Keeps IsReadable (show_contact D N Q text)
  unfolding show_contact
  Keeps-show_contact text =
      search (program_rules, Keeps-show_address, Keeps-bold, Keeps-elsewhere) depth 12

  pub IsReadable-Step :
      {p q : Page D N Q} → IsReadable p → (s : Step D N Q p q) → StepReads s → IsReadable q
  unfolding IsReadable on_contacts_item_clicked send_message on_logout_clicked
  IsReadable-Step {p} i (handles x) c = (Keeps-on_signal x c).keeps p i
  IsReadable-Step {p} i (clicks text h) c =
      (Keeps-show_contact text).keeps (record p { current = some text }) i
  IsReadable-Step {p} i (selects text h) c = i
  IsReadable-Step {p} i sends c = (Keeps-send_text p.current _).keeps p i
  IsReadable-Step {p} i (searches token) c = (Keeps-on_search_clicked token).keeps p i
  IsReadable-Step i logs_out c = tt
  IsReadable-Step i (types line login) c = i
  IsReadable-Step i (works m) c = i
