-- ===== src/Window.antt =====
-- p2pmessenger.cpp: the window with its two pages, how logging in makes a messenger (`log_in` of
-- chatpage.cpp), and what its pages send each other.
pub mod Slots
pub mod Safety
use p2p_messenger.Prelude.{ℕ, ◌≡◌, Bool, true, false, Option, none, some, [], if◌then◌else◌}
use p2p_messenger.Prelude.Outcome
use p2p_messenger.Prelude.Outcome.{Outcome, ok, throw, undefined, system_error}
use p2p_messenger.Prelude.Program.{Program, ◌>>=◌, ◌>>◌, lift, modify, return}
use p2p_messenger.External.{OpenDht, Net, Texts}
use p2p_messenger.Node.State.{Config, Node, Signal}
use p2p_messenger.Node.Messenger.{initial_node, configure, start}
use p2p_messenger.Node.Identity.{KeyFiles, IsLawfulKeyFiles, get_identity, get_identity_again}
use p2p_messenger.LoginPage
use p2p_messenger.LoginPage.{Request, on_resolve_clicked}
use p2p_messenger.ChatPage.Page
use p2p_messenger.ChatPage.Page.{
  Messenger, Slot, has_item, on_signal, on_contacts_item_clicked, send_message, on_search_clicked,
  on_logout_clicked,
}
use p2p_messenger.ChatPage.Steps.{empty_page}
use p2p_messenger.Prelude.Bytes.{Bytes}

module _ (D : OpenDht) (N : Net) where
  -- Only the hole punching for the relay node throws here, and the four threads run by then: the
  -- exception destroys the io_context, which was not stopped, and all else that the threads use
  -- before they are joined.
  abbrev started : Config D → Outcome (Unit {0}) × Node D N → Outcome (Messenger D N)
  started c (ok t, node) = ok (record { config = c; node = node; posted = [] })
  started c (throw e, node) = undefined
  started c (undefined, node) = undefined

  -- The members behind `identity_`, then the body. The socket cannot be bound to every port, and
  -- `token` is what the DHT node returns.
  unfoldable pub messenger_of : (ℕ → Bool) → ℕ → Request → D.PrivateKey → Outcome (Messenger D N)
  messenger_of bind_fails token r private_key =
      Outcome.◌>>◌ (if bind_fails r.port then throw system_error else ok tt) (
        Outcome.◌>>=◌
          (configure D N r.login r.ip r.port private_key r.relay_node_ip r.relay_node_port r.relay)
          λ c. started c (
            start D N c token
              (initial_node D N r.dht_port r.bootstrap_node_ip r.bootstrap_node_port)))

  -- `std::make_shared<P2PMessengerImpl>(…)`
  unfoldable pub make_messenger :
      (K : KeyFiles D) → (ℕ → Bool) → ℕ → Request → Program K.Files (Messenger D N)
  make_messenger K bind_fails token r = do
    private_key ← get_identity D K r.generate_crypto_identity r.crypto_identity_path
    lift (messenger_of bind_fails token r private_key)

  -- Who logs in again without generating an identity, and gives the path of the one generated before,
  -- gets the same messenger, or the same exception.
  pub make_messenger_again :
      (K : KeyFiles D) (L : IsLawfulKeyFiles D K) (bind_fails : ℕ → Bool) (token : ℕ) (r : Request)
      (files : K.Files)
      → let (first, later) =
          make_messenger K bind_fails token (record r { generate_crypto_identity = true }) files in
        make_messenger K bind_fails token (record r { generate_crypto_identity = false }) later
        ≡ (first, later)
  unfolding make_messenger get_identity messenger_of
  make_messenger_again K L bind_fails token r files =
      rw (get_identity_again D K L r.crypto_identity_path files)

abbrev pub is_set {ℓ} : {A : Type ℓ} → Option A → Bool
is_set none = false
is_set (some a) = true

-- The current widget of the stack.
pub data Shown : Type 0 where
  login_page chat_page : Shown

pub record Window (D : OpenDht) (N : Net) (Q : Texts) : Type 0 where
  pub shown : Shown
  pub login : LoginPage.Page Q
  pub chat : Page.Page D N Q

module _ (D : OpenDht) (N : Net) (Q : Texts) where
  abbrev on_chat : Slot D N Q → Program (Window D N Q) (Unit {0})
  on_chat slot w = let (r, chat) = slot w.chat in (r, record w { chat = chat })

  abbrev on_login : Program (LoginPage.Page Q) (Unit {0}) → Program (Window D N Q) (Unit {0})
  on_login slot w = let (r, login) = slot w.login in (r, record w { login = login })

  unfoldable pub switch_to_chat_page : Program (Window D N Q) (Unit {0})
  switch_to_chat_page = modify λ w. record w { shown = chat_page }

  unfoldable pub switch_to_login_page : Program (Window D N Q) (Unit {0})
  switch_to_login_page = modify λ w. record w { shown = login_page }

  -- `ChatPage::log_in`, which the login button's signal calls, and the slot of its `logged_in`.
  unfoldable pub log_in : Outcome (Messenger D N) → Program (Window D N Q) (Unit {0})
  log_in made = do
    m ← lift made
    modify λ w. record w { chat = record w.chat { messenger = some m } }
    switch_to_chat_page

  -- The logout button, and the slot of `logged_out`.
  unfoldable pub log_out : Program (Window D N Q) (Unit {0})
  log_out = on_chat (on_logout_clicked D N Q) >> switch_to_login_page

  -- What the user does to the page that is shown.
  pub data Action (w : Window D N Q) : Program (Window D N Q) (Unit {0}) → Type 0 where
    resolves :
        (answer : Outcome Bytes)
        → w.shown ≡ login_page
        → Action w (on_login (on_resolve_clicked Q answer))
    logs_in : (made : Outcome (Messenger D N)) → w.shown ≡ login_page → Action w (log_in made)
    clicks :
        (text : Q.QString)
        → has_item Q text w.chat.contacts ≡ true
        → w.shown ≡ chat_page
        → Action w (on_chat (on_contacts_item_clicked D N Q text))
    sends : w.shown ≡ chat_page → Action w (on_chat (send_message D N Q))
    searches :
        (token : ℕ) → w.shown ≡ chat_page → Action w (on_chat (on_search_clicked D N Q token))
    logs_out : w.shown ≡ chat_page → Action w log_out

  pub data Step (w : Window D N Q) : Window D N Q → Type 0 where
    acts : {action : Program (Window D N Q) (Unit {0})} → Action w action → Step w (action w).1
    -- The selection moves by the keyboard, without a click.
    selects :
        (text : Q.QString)
        → has_item Q text w.chat.contacts ≡ true
        → w.shown ≡ chat_page
        → Step w (record w { chat = record w.chat { current = some text } })
    -- A signal of a messenger is handled, however late.
    handles : (x : Signal D) → Step w (on_chat (on_signal D N Q x) w).1
    -- The messenger goes on.
    works :
        (m : Messenger D N)
        → is_set w.chat.messenger ≡ true
        → Step w (record w { chat = record w.chat { messenger = some m } })
    -- The user types.
    types :
        (login : LoginPage.Page Q) (line query : Q.QString)
        → Step w (record w {
          login = login;
          chat = record w.chat { message_line = line; search_line = query };
        })

  pub data Reachable (login : LoginPage.Page Q) : Window D N Q → Type 0 where
    opened : Reachable login (record { shown = login_page; login = login; chat = empty_page D N Q })
    step : {w v : Window D N Q} → Reachable login w → Step w v → Reachable login v
