-- ===== src/Examples/ChatPage.antt =====
-- The chat page with one contact.
use p2p_messenger.Prelude.{
  ◌≡◌, refl, true, false, some, [], ◌∷◌, arith, bytes_eq, bytes_beq, map, List,
}
use p2p_messenger.Prelude.Bytes.{Bytes}
use p2p_messenger.Prelude.Outcome.{Outcome, ok}
use p2p_messenger.Address.{find_char, substr_from}
use p2p_messenger.Wire.Message.{Message}
use p2p_messenger.ChatHistory
use p2p_messenger.Prelude.Map.{find}
use p2p_messenger.Resolver.Dht.{Contact}
use p2p_messenger.Node.State.{Node, contact_received, message_sent}
use p2p_messenger.Node.Messenger.{initial_node, on_received, on_sent, get}
use p2p_messenger.ChatPage.{
  contact_from_string, contact_between, contact_to_string, substr,
  contact_from_string-contact_to_string,
}
use p2p_messenger.ChatPage.Page.{Page, Messenger, with_item, item_text, on_signal}
use p2p_messenger.ChatPage.Readable.{item_text-IsContact, Run, begin, next}
use p2p_messenger.ChatPage.Returns.{slots_return}
use p2p_messenger.ChatPage.Page.{
  contact_of, send_message, on_contacts_item_clicked, has_item,
  update_contacts_list_with_received_contact,
}
use p2p_messenger.ChatPage.Notify.{
  both_signals, both_signals_lem, shown_after, label_after, somebody,
}
use p2p_messenger.ChatPage.Shown.{Shows, received_shown, sent_shown}
use p2p_messenger.ChatPage.Steps.{
  empty_page, start, step, works, handles, IsValid, Reachable-IsValid,
}
use p2p_messenger.ChatPage.Sending.{send_texts, send_texts-say, run_tasks, say}
use p2p_messenger.Examples.Libraries.{dht, json, net, qt}
use p2p_messenger.Examples.Nodes.{bob, start_of}

-- From Alice, whose key is 5, to Bob, whose key is 6; and the other way.
abbrev note : Message
note = record {
  id = 1;
  source_ip = b'1' ∷ [];
  source_port = 4660;
  source_login = b'a' ∷ [];
  source_public_key = b'k' ∷ 5 ∷ [];
  destination_ip = b'2' ∷ [];
  destination_port = 4660;
  destination_login = b'b' ∷ [];
  destination_public_key = b'k' ∷ 6 ∷ [];
  payload = record { time = 1; text = b'h' ∷ [] };
}

abbrev answer : Message
answer = record note {
  source_login = b'b' ∷ [];
  source_public_key = b'k' ∷ 6 ∷ [];
  destination_login = b'a' ∷ [];
  destination_public_key = b'k' ∷ 5 ∷ [];
}

abbrev alice : Contact dht
alice = record { login = b'a' ∷ []; public_key_id = 5 ∷ [] }

abbrev alice_text : Bytes
alice_text = b'[' ∷ 5 ∷ b']' ∷ b' ' ∷ b'a' ∷ []

abbrev messenger : Messenger dht net
messenger = record { config = bob; node = start_of net; posted = [] }

-- Alice is selected.
abbrev page : Page dht net qt
page = record {
  messenger = some messenger;
  contacts = record { text = alice_text; bold = false } ∷ [];
  current = some alice_text;
  chat = [];
  destination_login = b'a' ∷ [];
  destination_address = [];
  message_line = [];
  search_line = [];
}

both_signals_lem_example : both_signals dht net qt note (5 ∷ []) page ≡ (
  ok tt,
  shown_after dht net qt note (5 ∷ []) (some alice) (record page {
    contacts = with_item qt (item_text dht net qt alice) page.contacts;
    destination_address = label_after dht net qt alice messenger page;
  }),
)
unfolding contact_from_string contact_between substr substr_from find_char
both_signals_lem_example =
    both_signals_lem dht net qt note (5 ∷ []) page messenger refl (somebody refl) refl refl

page-Shows : Shows dht net qt (5 ∷ []) (start_of net) page
unfolding Shows get ChatHistory.get find initial_node
page-Shows = refl

received_shown_example :
    let node : Node dht net = (on_received dht net bob note (start_of net)).1 in
    let shown : Outcome (Unit {0}) × Page dht net qt =
      both_signals dht net qt note
        (5 ∷ [])
        (record page { messenger = some (record messenger { node = node }) }) in
    (shown.0 ≡ ok tt) × Shows dht net qt (5 ∷ []) node shown.1
unfolding contact_from_string contact_between substr substr_from find_char bytes_beq
received_shown_example =
    received_shown dht net qt bob note (5 ∷ []) (6 ∷ []) alice_text alice page messenger refl refl
      refl refl refl refl page-Shows

sent_shown_example :
    let after : Node dht net = (on_sent dht net answer (start_of net)).1 in
    let shown : Outcome (Unit {0}) × Page dht net qt =
      on_signal dht net qt (message_sent answer) page in
    (shown.0 ≡ ok tt)
    × (bytes_eq.beq (5 ∷ []) (5 ∷ []) ≡ true → Shows dht net qt (5 ∷ []) after shown.1)
    × (bytes_eq.beq (5 ∷ []) (5 ∷ []) ≡ false → ¬ Shows dht net qt (5 ∷ []) after shown.1)
unfolding bytes_beq
sent_shown_example =
    sent_shown dht net qt answer (5 ∷ []) (5 ∷ []) page (start_of net) refl refl page-Shows

-- A messenger is made, and Alice becomes known.
abbrev later : Page dht net qt
later =
    (on_signal dht net qt (contact_received alice)
      (record (empty_page dht net qt) { messenger = some messenger })).1

Reachable-IsValid_example : IsValid dht net qt later
Reachable-IsValid_example =
    Reachable-IsValid dht net qt {p = later}
      (step (step start (works messenger)) (handles (contact_received alice)))

abbrev texts : List Bytes
texts = (b'h' ∷ []) ∷ [] ∷ (b'i' ∷ []) ∷ []

send_texts-say_example :
    ((send_texts dht net qt texts page).0 ≡ ok tt)
    × (after : Messenger dht net) × ((send_texts dht net qt texts page).1.messenger ≡ some after)
    × (run_tasks dht json net after.config after.posted after.node
        ≡ say dht json net bob alice (map (λ s. s) texts) (start_of net))
unfolding contact_from_string contact_between substr substr_from find_char
send_texts-say_example =
    send_texts-say dht net qt json texts alice_text alice page messenger refl refl refl refl

later_messenger : later.messenger ≡ some messenger
unfolding on_signal update_contacts_list_with_received_contact empty_page
later_messenger = refl

alice_known : Run dht net qt later
alice_known =
    next (next begin (works messenger) tt) (handles (contact_received alice))
      (item_text-IsContact dht net qt alice (ground arith) refl refl)

slots_return_example :
    ((text : Bytes)
      → has_item qt text later.contacts ≡ true
      → (contact : Contact dht) × (contact_of dht net qt text ≡ ok contact)
        × ((on_contacts_item_clicked dht net qt text later).0 ≡ ok tt)
        × Shows dht net qt contact.public_key_id
            (start_of net)
            (on_contacts_item_clicked dht net qt text later).1)
    × ((send_message dht net qt later).0 ≡ ok tt)
slots_return_example = slots_return dht net qt later messenger alice_known later_messenger

contact_from_string-contact_to_string_example :
    contact_from_string dht (contact_to_string dht alice) ≡ ok alice
contact_from_string-contact_to_string_example =
    contact_from_string-contact_to_string dht alice (ground arith) refl
