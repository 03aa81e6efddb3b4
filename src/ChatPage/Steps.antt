-- ===== src/ChatPage/Steps.antt =====
-- Runs of the chat page: what the user, the messenger and Qt's event loop do to it, in any order.
use p2p_messenger.Prelude.{
  ℕ, ◌≡◌, refl, Bool, true, false, Option, none, some, List, [], Bool-cases, inl, inr, bytes_eq,
}
use p2p_messenger.Prelude.Bytes.{Bytes}
use p2p_messenger.Prelude.Program.{modify, return}
use p2p_messenger.Prelude.Rules.{Keeps, Keeps->>=, Keeps-lift, Keeps-read, Keeps-if}
use p2p_messenger.External.{OpenDht, Net, Texts}
use p2p_messenger.Wire.Message.{Message}
use p2p_messenger.Resolver.Dht.{Contact}
use p2p_messenger.Node.State.{Signal, message_sent, message_received, contact_received}
use p2p_messenger.ChatPage.Page.{
  Page, Item, Messenger, Task, has_item, set_bold, add_item, with_item, notify, notify_item,
  receive_at, show_address, update_chat_with_sent_message, update_chat_with_received_message,
  update_contacts_list_with_received_contact, on_signal, on_contacts_item_clicked, post, send_text,
  show_contact, send_message, on_search_clicked, on_logout_clicked,
}
use p2p_messenger.ChatPage.Distinct.{
  Distinct, Distinct-set_bold, Distinct-add_item, has_item-set_bold, has_item-add_item,
}

ruleset program_rules = (Keeps->>=, Keeps-lift, Keeps-read, Keeps-if)

module _ (D : OpenDht) (N : Net) (Q : Texts) where
  -- The page before anybody has logged in.
  unfoldable pub empty_page : Page D N Q
  empty_page = record {
    messenger = none;
    contacts = [];
    current = none;
    chat = [];
    destination_login = Q.from_std_string [];
    destination_address = Q.from_std_string [];
    message_line = Q.from_std_string [];
    search_line = Q.from_std_string [];
  }

  pub data Step (p : Page D N Q) : Page D N Q → Type 0 where
    -- A signal is handled, however late.
    handles : (x : Signal D) → Step p (on_signal D N Q x p).1
    -- The user clicks an item that is there.
    clicks :
        (text : Q.QString)
        → has_item Q text p.contacts ≡ true
        → Step p (on_contacts_item_clicked D N Q text p).1
    -- The selection moves by the keyboard, without a click.
    selects :
        (text : Q.QString)
        → has_item Q text p.contacts ≡ true
        → Step p (record p { current = some text })
    sends : Step p (send_message D N Q p).1
    searches : (token : ℕ) → Step p (on_search_clicked D N Q token p).1
    logs_out : Step p (on_logout_clicked D N Q p).1
    -- The user types.
    types :
        (line login : Q.QString) → Step p (record p { message_line = line; search_line = login })
    -- A messenger is made, or goes on.
    works : (m : Messenger D N) → Step p (record p { messenger = some m })

  -- The pages that a run comes to.
  pub data Reachable : Page D N Q → Type 0 where
    start : Reachable empty_page
    step : {p q : Page D N Q} → Reachable p → Step p q → Reachable q

  abbrev pub is_listed : Option Q.QString → List (Item Q) → Bool
  is_listed none items = true
  is_listed (some text) items = has_item Q text items

  -- Something holds of the contact list, and the selected text is in it.
  abbrev pub IsListed : (List (Item Q) → Type 0) → Page D N Q → Type 0
  IsListed I p = I p.contacts × (is_listed p.current p.contacts ≡ true)

  -- What holds of the empty list, and still where a font is changed and where a text is added that
  -- is not there.
  pub record IsKept (I : List (Item Q) → Type 0) : Type 0 where
    pub nil : I []
    pub bold :
        (b : Bool) (text : Q.QString) (items : List (Item Q))
        → I items
        → I (set_bold Q b text items)
    pub add :
        (text : Q.QString) (items : List (Item Q))
        → has_item Q text items ≡ false
        → I items
        → I (add_item Q text items)

  is_listed-set_bold :
      (b : Bool) (text : Q.QString) (current : Option Q.QString) (items : List (Item Q))
      → is_listed current items ≡ true
      → is_listed current (set_bold Q b text items) ≡ true
  is_listed-set_bold b text none items h = refl
  is_listed-set_bold b text (some t) items h = rw (has_item-set_bold Q b t text items) h

  is_listed-add_item :
      (text : Q.QString) (current : Option Q.QString) (items : List (Item Q))
      → is_listed current items ≡ true
      → is_listed current (add_item Q text items) ≡ true
  is_listed-add_item text none items h = refl
  is_listed-add_item text (some t) items h = rw (has_item-add_item Q t text items, h)

module _ (D : OpenDht) (N : Net) (Q : Texts) (I : List (Item Q) → Type 0) (K : IsKept D N Q I) where
  Keeps-bold :
      (b : Bool) (text : Q.QString)
      → Keeps
          (IsListed D N Q I)
          (modify λ (p : Page D N Q). record p { contacts = set_bold Q b text p.contacts })
  Keeps-bold b text = record {
    keeps = λ p i.
        (K.bold b text p.contacts i.0, is_listed-set_bold D N Q b text p.current p.contacts i.1);
  }

  Keeps-with_item :
      (text : Q.QString)
      → Keeps
          (IsListed D N Q I)
          (modify λ (p : Page D N Q). record p { contacts = with_item Q text p.contacts })
  Keeps-with_item text = record {
    keeps = λ p i. elim (Bool-cases (has_item Q text p.contacts)) [
      | inl old ↦ rw old i
      | inr new ↦
          rw new
            (K.add text p.contacts new i.0, is_listed-add_item D N Q text p.current p.contacts i.1)
    ];
  }

  -- A change of neither the list nor the selection.
  Keeps-elsewhere :
      (f : Page D N Q → Page D N Q)
      → ((p : Page D N Q) → (f p).contacts ≡ p.contacts)
      → ((p : Page D N Q) → (f p).current ≡ p.current)
      → Keeps (IsListed D N Q I) (modify f)
  Keeps-elsewhere f h k = record { keeps = λ p i. rw (h p, k p) i }

  Keeps-notify_item : (text : Q.QString) → Keeps (IsListed D N Q I) (notify_item D N Q text)
  unfolding notify_item
  Keeps-notify_item text = record {
    keeps = λ p i. elim (Bool-cases (has_item Q text p.contacts)) [
      | inl old ↦ rw old ((Keeps-bold true text).keeps p i)
      | inr new ↦
          rw new
            (K.add text p.contacts new i.0, is_listed-add_item D N Q text p.current p.contacts i.1)
    ];
  }

  Keeps-notify : (message : Message) → Keeps (IsListed D N Q I) (notify D N Q message)
  unfolding notify
  Keeps-notify message = Keeps->>= (Keeps-lift _) λ key. Keeps-notify_item _

  Keeps-return : Keeps (IsListed D N Q I) (return {S = Page D N Q} tt)
  Keeps-return = record { keeps = λ p i. i }

  Keeps-receive_at :
      (message : Message) (current : Option Q.QString)
      → Keeps (IsListed D N Q I) (receive_at D N Q message current)
  unfolding receive_at
  Keeps-receive_at message none = Keeps-notify message
  Keeps-receive_at message (some text) = search (program_rules, Keeps-elsewhere, Keeps-notify)

  Keeps-show_address : (contact : Contact D) → Keeps (IsListed D N Q I) (show_address D N Q contact)
  unfolding show_address
  Keeps-show_address contact = search (program_rules, Keeps-elsewhere)

  Keeps-update_contacts :
      (contact : Contact D)
      → Keeps (IsListed D N Q I) (update_contacts_list_with_received_contact D N Q contact)
  unfolding update_contacts_list_with_received_contact
  Keeps-update_contacts contact = search (program_rules, Keeps-with_item, Keeps-show_address)

  Keeps-on_signal : (x : Signal D) → Keeps (IsListed D N Q I) (on_signal D N Q x)
  unfolding on_signal update_chat_with_sent_message update_chat_with_received_message
  Keeps-on_signal (message_sent message) = search (program_rules, Keeps-return, Keeps-elsewhere)
  Keeps-on_signal (message_received message) = record {
    keeps = λ p i. (Keeps-receive_at message p.current).keeps p i;
  }
  Keeps-on_signal (contact_received contact) = Keeps-update_contacts contact

  Keeps-post : (task : Task D) → Keeps (IsListed D N Q I) (post D N Q task)
  unfolding post
  Keeps-post task = search (program_rules, Keeps-elsewhere)

  Keeps-send_text :
      (current : Option Q.QString) (text : Bytes)
      → Keeps (IsListed D N Q I) (send_text D N Q current text)
  unfolding send_text
  Keeps-send_text none text = Keeps-return
  Keeps-send_text (some item) text =
      search (program_rules, Keeps-return, Keeps-elsewhere, Keeps-post)

  Keeps-on_search_clicked : (token : ℕ) → Keeps (IsListed D N Q I) (on_search_clicked D N Q token)
  unfolding on_search_clicked
  Keeps-on_search_clicked token = search (program_rules, Keeps-return, Keeps-elsewhere) depth 12

  Keeps-show_contact : (text : Q.QString) → Keeps (IsListed D N Q I) (show_contact D N Q text)
  unfolding show_contact
  Keeps-show_contact text =
      search (program_rules, Keeps-show_address, Keeps-bold, Keeps-elsewhere) depth 12

  IsListed-Step : {p q : Page D N Q} → IsListed D N Q I p → Step D N Q p q → IsListed D N Q I q
  unfolding on_contacts_item_clicked send_message on_logout_clicked
  IsListed-Step {p} i (handles x) = (Keeps-on_signal x).keeps p i
  IsListed-Step {p} i (clicks text h) =
      (Keeps-show_contact text).keeps (record p { current = some text }) (i.0, h)
  IsListed-Step {p} i (selects text h) = (i.0, h)
  IsListed-Step {p} i sends = (Keeps-send_text p.current _).keeps p i
  IsListed-Step {p} i (searches token) = (Keeps-on_search_clicked token).keeps p i
  IsListed-Step i logs_out = (K.nil, refl)
  IsListed-Step i (types line login) = i
  IsListed-Step i (works m) = i

  -- Whatever runs, what an empty list has and each change keeps holds of the contact list.
  pub Reachable-IsListed : {p : Page D N Q} → Reachable D N Q p → IsListed D N Q I p
  unfolding empty_page
  Reachable-IsListed start = (K.nil, refl)
  Reachable-IsListed (step r s) = IsListed-Step (Reachable-IsListed r) s

module _ (D : OpenDht) (N : Net) (Q : Texts) where
  Distinct-IsKept : IsKept D N Q (Distinct Q)
  unfolding Distinct
  Distinct-IsKept = record { nil = tt; bold = Distinct-set_bold Q; add = Distinct-add_item Q }

  -- The texts are distinct, and the selected one is among them.
  unfoldable pub IsValid : Page D N Q → Type 0
  IsValid = IsListed D N Q (Distinct Q)

  -- Whatever runs, no text stands twice in the contact list, and the selected item is in it.
  pub Reachable-IsValid : {p : Page D N Q} → Reachable D N Q p → IsValid p
  unfolding IsValid
  Reachable-IsValid r = Reachable-IsListed D N Q (Distinct Q) Distinct-IsKept r
