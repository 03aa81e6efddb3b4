-- ===== src/Examples/Window.antt =====
-- A window in which a user logged in.
use p2p_messenger.Prelude.{ℕ, ◌≡◌, ◌≢◌, refl, []}
use p2p_messenger.Prelude.Outcome.{ok, undefined}
use p2p_messenger.Wire.Message.{Message}
use p2p_messenger.Resolver.Dht.{Contact}
use p2p_messenger.Node.State.{message_sent, contact_received}
use p2p_messenger.ChatPage.Page.{Messenger, on_signal, send_message, on_search_clicked}
use p2p_messenger.Window.{
  Window, chat_page, login_page, Reachable, opened, step, acts, logs_in, log_in,
}
use p2p_messenger.ChatPage.Steps.{empty_page}
use p2p_messenger.Window.Safety.{
  MatchesMessenger, Reachable-MatchesMessenger, reachable_slots_defined,
}
use p2p_messenger.Examples.Libraries.{dht, net, qt}
use p2p_messenger.Examples.LoginPage.{page}
use p2p_messenger.Examples.Nodes.{bob, start_of}

abbrev messenger : Messenger dht net
messenger = record { config = bob; node = start_of net; posted = [] }

abbrev closed : Window dht net qt
closed = record { shown = login_page; login = page; chat = empty_page dht net qt }

abbrev later : Window dht net qt
later = (log_in dht net qt (ok messenger) closed).1

later-Reachable : Reachable dht net qt page later
later-Reachable = step opened (acts (logs_in (ok messenger) refl))

Reachable-MatchesMessenger_example : MatchesMessenger dht net qt later
Reachable-MatchesMessenger_example = Reachable-MatchesMessenger dht net qt later-Reachable

reachable_slots_defined_example :
    (later.shown ≡ chat_page
      → ((send_message dht net qt later.chat).0 ≢ undefined)
        × ((token : ℕ) → (on_search_clicked dht net qt token later.chat).0 ≢ undefined))
    × ((message : Message) → (on_signal dht net qt (message_sent message) later.chat).0 ≢ undefined)
    × ((contact : Contact dht)
        → (on_signal dht net qt (contact_received contact) later.chat).0 ≢ undefined)
reachable_slots_defined_example = reachable_slots_defined dht net qt page later later-Reachable
