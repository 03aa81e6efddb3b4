-- ===== src/Window/Safety.antt =====
-- The page that is shown and the messenger that is there, over a run of the window.
use p2p_messenger.Prelude.{ℕ, ◌≡◌, ◌≢◌, refl, sym, ◌∙◌, Bool, true, false, some, ap, subst}
use p2p_messenger.Prelude.Outcome.{Outcome, ok, throw, undefined}
use p2p_messenger.Prelude.Program.{Program}
use p2p_messenger.External.{OpenDht, Net, Texts}
use p2p_messenger.Wire.Message.{Message}
use p2p_messenger.Resolver.Dht.{Contact}
use p2p_messenger.Node.State.{message_sent, contact_received}
use p2p_messenger.LoginPage
use p2p_messenger.ChatPage.Page.{
  Messenger, on_signal, on_contacts_item_clicked, send_message, on_search_clicked,
  on_logout_clicked,
}
use p2p_messenger.ChatPage.Steps.{empty_page}
use p2p_messenger.Window.{
  Shown, login_page, chat_page, Window, Action, resolves, logs_in, clicks, sends, searches,
  logs_out, Step, acts, selects, handles, works, types, Reachable, opened, step, log_in, log_out,
  switch_to_chat_page, switch_to_login_page,
}
use p2p_messenger.Window.Slots.{
  Avoids-send_text, Avoids-on_search_clicked, Avoids-message_sent, contact_received_defined, Has,
  Keeps-on_signal, Keeps-send_text, Keeps-on_search_clicked, Keeps-show_contact,
}

abbrev page_for : Bool → Shown
page_for false = login_page
page_for true = chat_page

for_chat_page : {shown : Shown} (b : Bool) → shown ≡ page_for b → shown ≡ chat_page → b ≡ true
for_chat_page true h k = refl
for_chat_page false h k = absurd (cc (h, k))

module _ (D : OpenDht) (N : Net) (Q : Texts) where
  -- The chat page is shown just while a messenger is there. Without one, no item is selected.
  unfoldable pub MatchesMessenger : Window D N Q → Type 0
  MatchesMessenger w = (b : Bool) × (w.shown ≡ page_for b) × Has D N Q b w.chat

  -- The page of a valid window that shows the chat has a messenger.
  Has-chat_page :
      (w : Window D N Q) → MatchesMessenger w → w.shown ≡ chat_page → Has D N Q true w.chat
  unfolding MatchesMessenger
  Has-chat_page w (b, s, i) shown = subst (λ c. Has D N Q c w.chat) (for_chat_page b s shown) i

  MatchesMessenger-log_in :
      (made : Outcome (Messenger D N)) (w : Window D N Q)
      → MatchesMessenger w
      → MatchesMessenger (log_in D N Q made w).1
  unfolding MatchesMessenger log_in switch_to_chat_page
  MatchesMessenger-log_in (ok m) w i = (true, refl, (refl, λ q. absurd (cc q)))
  MatchesMessenger-log_in (throw e) w i = i
  MatchesMessenger-log_in undefined w i = i

  MatchesMessenger-act :
      {w : Window D N Q} {action : Program (Window D N Q) (Unit {0})}
      → MatchesMessenger w
      → Action D N Q w action
      → MatchesMessenger (action w).1
  unfolding on_contacts_item_clicked send_message log_out switch_to_login_page on_logout_clicked
      MatchesMessenger
  MatchesMessenger-act {w} i (resolves answer s) = i
  MatchesMessenger-act {w} i (logs_in made s) = MatchesMessenger-log_in made w i
  MatchesMessenger-act {w} i (clicks text h s) = (
    true,
    s,
    (Keeps-show_contact D N Q text).keeps (record w.chat { current = some text })
        ((Has-chat_page w i s).0, λ q. absurd (cc q)),
  )
  MatchesMessenger-act {w} i (sends s) =
      (true, s, (Keeps-send_text D N Q w.chat.current _).keeps w.chat (Has-chat_page w i s))
  MatchesMessenger-act {w} i (searches token s) =
      (true, s, (Keeps-on_search_clicked D N Q token).keeps w.chat (Has-chat_page w i s))
  MatchesMessenger-act {w} i (logs_out s) = (false, refl, (refl, λ q. refl))

  MatchesMessenger-Step :
      {w v : Window D N Q} → MatchesMessenger w → Step D N Q w v → MatchesMessenger v
  unfolding MatchesMessenger
  MatchesMessenger-Step i (acts action) = MatchesMessenger-act i action
  MatchesMessenger-Step {w} i (selects text h s) =
      (true, s, ((Has-chat_page w i s).0, λ q. absurd (cc q)))
  MatchesMessenger-Step {w} i (handles x) =
      (i.0, i.1, (Keeps-on_signal D N Q i.0 x).keeps w.chat i.2)
  MatchesMessenger-Step {w} i (works m h) =
      (true, i.1 ∙ ap page_for (sym i.2.0 ∙ h), (refl, λ q. absurd (cc q)))
  MatchesMessenger-Step i (types login line query) = i

  -- Whatever runs, the window shows the chat page just while a messenger is there.
  pub Reachable-MatchesMessenger :
      {login : LoginPage.Page Q} {w : Window D N Q} → Reachable D N Q login w → MatchesMessenger w
  unfolding MatchesMessenger empty_page
  Reachable-MatchesMessenger opened = (false, refl, (refl, λ q. refl))
  Reachable-MatchesMessenger (step r s) = MatchesMessenger-Step (Reachable-MatchesMessenger r) s

  -- In any window that a run comes to, these slots do not come to undefined behaviour: those of
  -- sending and of searching, run while the chat page is shown, and those for the signals of a sent
  -- message and of a contact, however late the signal is handled.
  pub reachable_slots_defined :
      (login : LoginPage.Page Q) (w : Window D N Q)
      → Reachable D N Q login w
      → (w.shown ≡ chat_page
          → ((send_message D N Q w.chat).0 ≢ undefined)
            × ((token : ℕ) → (on_search_clicked D N Q token w.chat).0 ≢ undefined))
        × ((message : Message) → (on_signal D N Q (message_sent message) w.chat).0 ≢ undefined)
        × ((contact : Contact D)
            → (on_signal D N Q (contact_received contact) w.chat).0 ≢ undefined)
  unfolding send_message MatchesMessenger
  reachable_slots_defined login w r =
      let valid : MatchesMessenger w = Reachable-MatchesMessenger r in
      (
        λ shown.
            let i : Has D N Q true w.chat = Has-chat_page w valid shown in
            (
              (Avoids-send_text D N Q w.chat.current _).avoids w.chat i,
              λ token. (Avoids-on_search_clicked D N Q token).avoids w.chat i,
            ),
        λ message. (Avoids-message_sent D N Q valid.0 message).avoids w.chat valid.2,
        λ contact. contact_received_defined D N Q valid.0 contact w.chat valid.2,
      )
