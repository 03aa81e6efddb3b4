-- ===== src/Window/Slots.antt =====
-- The slots of chatpage.cpp against the messenger that is there or not.
use p2p_messenger.Prelude.{
  ℕ, ◌≡◌, ◌≢◌, refl, sym, ◌∙◌, Bool, true, false, Option, none, some, Bool-cases, Option-cases, ap,
  inl, inr, bytes_eq,
}
use p2p_messenger.Prelude.Bytes.{Bytes}
use p2p_messenger.Prelude.Outcome.{undefined}
use p2p_messenger.Prelude.Program.{Program, ◌>>=◌, lift, modify, read, return}
use p2p_messenger.Prelude.Rules.{
  Keeps, Keeps->>=, Keeps-lift, Keeps-read, Keeps-if, Avoids, Avoids->>=, Avoids-lift, Avoids-if,
}
use p2p_messenger.External.{OpenDht, Net, Texts}
use p2p_messenger.Wire.Message.{Message}
use p2p_messenger.Resolver.Dht.{Contact}
use p2p_messenger.Node.State.{Signal, message_sent, message_received, contact_received}
use p2p_messenger.Node.Sender.{dereference}
use p2p_messenger.ChatPage.Page.{
  Page, Messenger, Task, has_item, notify, notify_item, receive_at, show_address,
  update_chat_with_sent_message, update_chat_with_received_message,
  update_contacts_list_with_received_contact, on_signal, post, send_text, show_contact,
  on_search_clicked,
}
use p2p_messenger.ChatPage.Notify.{update_contacts_lem}
use p2p_messenger.Window.{is_set}
use p2p_messenger.ChatPage.Contacts.{contact_from_string_defined, or_throw_defined}

ruleset program_rules = (
  Keeps->>=, Keeps-lift, Keeps-read, Keeps-if, Avoids->>=, Avoids-lift, Avoids-if, or_throw_defined,
  contact_from_string_defined,
)

module _ (D : OpenDht) (N : Net) (Q : Texts) where
  -- Whether a messenger is there; without one, no item is selected.
  abbrev pub Has : Bool → Page D N Q → Type 0
  Has b p = (is_set p.messenger ≡ b) × (b ≡ false → p.current ≡ none)

  Keeps-elsewhere :
      (b : Bool) (f : Page D N Q → Page D N Q)
      → ((p : Page D N Q) → (f p).messenger ≡ p.messenger)
      → ((p : Page D N Q) → (f p).current ≡ p.current)
      → Keeps (Has b) (modify f)
  Keeps-elsewhere b f h k = record { keeps = λ p i. rw (h p, k p) i }

  Avoids-modify : (b : Bool) (f : Page D N Q → Page D N Q) → Avoids (Has b) (modify f)
  Avoids-modify b f = record { avoids = λ p i q. absurd (cc q) }

  Avoids-return : (b : Bool) → Avoids (Has b) (return {S = Page D N Q} tt)
  Avoids-return b = record { avoids = λ p i q. absurd (cc q) }

  -- A call of the messenger, where it is there.
  Avoids-messenger :
      {A : Type 0} (f : Messenger D N → Program (Page D N Q) A)
      → ((m : Messenger D N) → Avoids (Has true) (f m))
      → Avoids (Has true) (
          read (λ (p : Page D N Q). p.messenger) >>= λ messenger.
          lift (dereference messenger) >>= f)
  Avoids-messenger f h = record {
    avoids = λ p i. elim (Option-cases p.messenger) [
      | inl none_there ↦ absurd (cc (rw none_there at i.0))
      | inr (m, e) ↦ simp e ((h m).avoids p i)
    ];
  }

  Avoids-read : {b : Bool} {A : Type 0} (f : Page D N Q → A) → Avoids (Has b) (read f)
  Avoids-read f = record { avoids = λ p i q. absurd (cc q) }

  Keeps-put :
      (f : Page D N Q → Messenger D N)
      → Keeps (Has true) (modify λ (p : Page D N Q). record p { messenger = some (f p) })
  Keeps-put f = record { keeps = λ p i. (refl, λ q. absurd (cc q)) }

  Avoids-post : (task : Task D) → Avoids (Has true) (post D N Q task)
  unfolding post
  Avoids-post task = Avoids-messenger _ λ m. Avoids-modify true _

  pub Avoids-send_text :
      (current : Option Q.QString) (text : Bytes) → Avoids (Has true) (send_text D N Q current text)
  unfolding send_text
  Avoids-send_text none text = Avoids-return true
  Avoids-send_text (some item) text =
      search (program_rules, Avoids-return, Avoids-modify, Avoids-post, Keeps-elsewhere) depth 12

  pub Avoids-on_search_clicked : (token : ℕ) → Avoids (Has true) (on_search_clicked D N Q token)
  unfolding on_search_clicked
  Avoids-on_search_clicked token =
      search
        (
          program_rules, Avoids-return, Avoids-read, Avoids-modify, Avoids-messenger,
          Keeps-elsewhere,
        )
        depth 12

  Avoids-show_address : (contact : Contact D) → Avoids (Has true) (show_address D N Q contact)
  unfolding show_address
  Avoids-show_address contact = Avoids-messenger _ λ m. Avoids-modify true _

  Keeps-show_address : (b : Bool) (contact : Contact D) → Keeps (Has b) (show_address D N Q contact)
  unfolding show_address
  Keeps-show_address b contact = search (program_rules, Keeps-elsewhere)

  pub Avoids-show_contact : (text : Q.QString) → Avoids (Has true) (show_contact D N Q text)
  unfolding show_contact
  Avoids-show_contact text =
      search
        (
          program_rules, Avoids-show_address, Keeps-show_address, Avoids-modify, Avoids-messenger,
          Keeps-elsewhere,
        )
        depth 12

  Keeps-notify_item : (b : Bool) (text : Q.QString) → Keeps (Has b) (notify_item D N Q text)
  unfolding notify_item
  Keeps-notify_item b text = record {
    keeps = λ p i. elim (Bool-cases (has_item Q text p.contacts)) [
      | inl old ↦ rw old i
      | inr new ↦ rw new i
    ];
  }

  Keeps-notify : (b : Bool) (message : Message) → Keeps (Has b) (notify D N Q message)
  unfolding notify
  Keeps-notify b message = search (program_rules, Keeps-notify_item)

  Keeps-receive_at :
      (b : Bool) (message : Message) (current : Option Q.QString)
      → Keeps (Has b) (receive_at D N Q message current)
  unfolding receive_at
  Keeps-receive_at b message none = Keeps-notify b message
  Keeps-receive_at b message (some text) = search (program_rules, Keeps-elsewhere, Keeps-notify)

  Keeps-return : (b : Bool) → Keeps (Has b) (return {S = Page D N Q} tt)
  Keeps-return b = record { keeps = λ p i. i }

  pub Keeps-on_signal : (b : Bool) (x : Signal D) → Keeps (Has b) (on_signal D N Q x)
  unfolding on_signal update_chat_with_sent_message update_chat_with_received_message
      update_contacts_list_with_received_contact
  Keeps-on_signal b (message_sent message) = search (program_rules, Keeps-return, Keeps-elsewhere)
  Keeps-on_signal b (message_received message) = record {
    keeps = λ p i. (Keeps-receive_at b message p.current).keeps p i;
  }
  Keeps-on_signal b (contact_received contact) =
      search (program_rules, Keeps-show_address, Keeps-return, Keeps-elsewhere) depth 12

  Keeps-post : (task : Task D) → Keeps (Has true) (post D N Q task)
  unfolding post
  Keeps-post task = search (program_rules, Keeps-put)

  pub Keeps-send_text :
      (current : Option Q.QString) (text : Bytes) → Keeps (Has true) (send_text D N Q current text)
  unfolding send_text
  Keeps-send_text none text = Keeps-return true
  Keeps-send_text (some item) text =
      search (program_rules, Keeps-return, Keeps-elsewhere, Keeps-post) depth 12

  pub Keeps-on_search_clicked : (token : ℕ) → Keeps (Has true) (on_search_clicked D N Q token)
  unfolding on_search_clicked
  Keeps-on_search_clicked token =
      search (program_rules, Keeps-return, Keeps-elsewhere, Keeps-put) depth 12

  pub Keeps-show_contact : (text : Q.QString) → Keeps (Has true) (show_contact D N Q text)
  unfolding show_contact
  Keeps-show_contact text = search (program_rules, Keeps-show_address, Keeps-elsewhere) depth 12

  pub Avoids-message_sent :
      (b : Bool) (message : Message) → Avoids (Has b) (on_signal D N Q (message_sent message))
  unfolding on_signal update_chat_with_sent_message
  Avoids-message_sent b message = search (program_rules, Avoids-return, Avoids-modify)

  -- Without a messenger there is no selected item, and so no call of it.
  pub contact_received_defined :
      (b : Bool) (contact : Contact D) (p : Page D N Q)
      → Has b p
      → (on_signal D N Q (contact_received contact) p).0 ≢ undefined
  unfolding on_signal update_contacts_list_with_received_contact
  contact_received_defined b contact p i = elim (Bool-cases (D.id_is_set contact.public_key_id)) [
    | inl set ↦ elim (Option-cases p.messenger) [
      | inl absent ↦ simp (set, i.1 (sym i.0 ∙ ap is_set absent)) λ q. absurd (cc q)
      | inr (m, e) ↦ rw (update_contacts_lem D N Q contact p m e set) λ q. absurd (cc q)
    ]
    | inr null ↦ rw null λ q. absurd (cc q)
  ]
