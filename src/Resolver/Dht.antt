-- ===== src/Resolver/Dht.antt =====
-- dht_ip_resolver.cpp. What the resolver asks of `node_` and of its timer is a list of calls; what
-- the node answers (tokens, found values) is an argument.
pub mod Listening
pub mod Values
use p2p_messenger.Prelude.{
  ℕ, Bool, true, false, Option, none, some, List, [], ◌∷◌, ◌++◌, map, if◌then◌else◌, bytes_eq, ltb,
}
use p2p_messenger.Prelude.Bytes.{Bytes}
use p2p_messenger.Prelude.Outcome.{Outcome, ok, throw, undefined, invalid_argument, or_throw, ◌>>=◌}
use p2p_messenger.Prelude.Map.{Map, find, insert}
use p2p_messenger.External.{OpenDht}
use p2p_messenger.Address.{address_of, find_char, to_string}
use p2p_messenger.Resolver.Book
use p2p_messenger.Resolver.Book.{Book, empty_book, put_address, put_public_key}

abbrev pub is_some {ℓ} : {A : Type ℓ} → Option A → Bool
is_some none = false
is_some (some a) = true

-- `operator<` of `std::string`.
pub bytes_less : Bytes → Bytes → Bool
bytes_less xs [] = false
bytes_less [] (y ∷ ys) = true
bytes_less (x ∷ xs) (y ∷ ys) =
    let rest = bytes_less xs ys in if ltb x y then true else if ltb y x then false else rest

pub place : {V : Type 0} → Bytes × V → Map Bytes V → Map Bytes V
place entry [] = entry ∷ []
place entry (other ∷ m) =
    let rest = place entry m in
    if bytes_less other.0 entry.0 then other ∷ rest else entry ∷ other ∷ m

-- The order in which a `std::map` is walked.
pub in_order : {V : Type 0} → Map Bytes V → Map Bytes V
in_order [] = []
in_order (entry ∷ m) = place entry (in_order m)

module _ (D : OpenDht) where
  pub record Contact : Type 0 where
    pub login : Bytes
    pub public_key_id : D.InfoHash

  -- `dht::Value`: its bytes, and the key that signed it.
  pub record Value : Type 0 where
    pub content : Bytes
    pub owner : Option D.PublicKey

  -- The calls of `node_`. The token of `listen_for` is what that call returned, that of
  -- `cancel_listen` an argument.
  pub data NodeCall : Type 0 where
    run : ℕ → NodeCall
    bootstrap : Bytes → Bytes → NodeCall
    put_value : D.InfoHash → Bytes → NodeCall
    put_signed_value : D.InfoHash → Bytes → NodeCall
    listen_for : D.InfoHash → ℕ → NodeCall
    cancel_listen : D.InfoHash → ℕ → NodeCall
    join : NodeCall

  -- Which of the two functions waits on the timer, with the arguments that it captured.
  pub data Pending : Type 0 where
    puts : Bytes → Bytes → Pending
    puts_signed : Bytes → Bytes → Pending

  pub record DhtIpResolver : Type 0 where
    pub book : Book D
    pub login_to_token : Map Bytes ℕ
    pub calls : List NodeCall
    pub timer : List Pending

  -- The constructor.
  unfoldable pub dht_ip_resolver : ℕ → Bytes → ℕ → DhtIpResolver
  dht_ip_resolver port bootstrap_node_ip bootstrap_node_port = record {
    book = empty_book D;
    login_to_token = [];
    calls = run port ∷ bootstrap bootstrap_node_ip (to_string bootstrap_node_port) ∷ [];
    timer = [];
  }

  abbrev pub call : NodeCall → DhtIpResolver → DhtIpResolver
  call c r = record r { calls = r.calls ++ (c ∷ []) }

  -- `timer_.expires_after(interval)` and `timer_.async_wait`: one more handler that will run, when the
  -- time is over or with an error.
  abbrev pub wait : Pending → DhtIpResolver → DhtIpResolver
  wait p r = record r { timer = r.timer ++ (p ∷ []) }

  unfoldable pub put_address_value : Bytes → Bytes → DhtIpResolver → DhtIpResolver
  put_address_value login address r =
      wait (puts login address) (call (put_value (D.hash login) address) r)

  unfoldable pub put_signed_address : Bytes → Bytes → DhtIpResolver → DhtIpResolver
  put_signed_address login address r =
      wait (puts_signed login address) (call (put_signed_value (D.hash login) address) r)

  unfoldable pub put : Bytes → Bytes → ℕ → DhtIpResolver → DhtIpResolver
  unfolding put_address_value
  put login ip port r = put_address_value login (address_of ip port) r

  unfoldable pub put_signed : Bytes → Bytes → ℕ → DhtIpResolver → DhtIpResolver
  unfolding put_signed_address
  put_signed login ip port r = put_signed_address login (address_of ip port) r

  -- The handler of a wait, which puts again whether or not there is an error.
  unfoldable pub on_timer : Pending → Bool → DhtIpResolver → DhtIpResolver
  unfolding put_address_value put_signed_address
  on_timer (puts login address) ec r = put_address_value login address r
  on_timer (puts_signed login address) ec r = put_signed_address login address r

  -- The io_context runs the first handler that is ready.
  unfoldable pub fire : Bool → DhtIpResolver → DhtIpResolver
  unfolding on_timer
  fire ec r = elim r.timer [ [] ↦ r | p ∷ rest ↦ on_timer p ec (record r { timer = rest }) ]

  -- The first critical section of `listen`: is there a token?
  abbrev pub is_listening : Bytes → DhtIpResolver → Bool
  is_listening login r = is_some (find login r.login_to_token)

  -- What `listen` does behind the first critical section; `token` is what the node returns.
  unfoldable pub start_listening : Bytes → ℕ → DhtIpResolver → DhtIpResolver
  start_listening login token r =
      let r' = call (listen_for (D.hash login) token) r in
      record r' { login_to_token = insert login token r'.login_to_token }

  unfoldable pub listen : Bytes → ℕ → DhtIpResolver → DhtIpResolver
  unfolding start_listening
  listen login token r = if is_listening login r then r else start_listening login token r

  -- `if (value->owner) … else …`: the two maps are written and the handler is called, or nothing.
  unfoldable pub on_owner : Bytes → Bytes → Option D.PublicKey → Book D → Book D × List Contact
  on_owner login address none b = (b, [])
  on_owner login address (some owner) b = (
    put_public_key D (D.get_id owner) owner (put_address D login (D.get_id owner) address b),
    record { login = login; public_key_id = D.get_id owner } ∷ [],
  )

  -- One value of the callback of `listen` that is not expired. The second part of the result is what
  -- the handler was called with.
  unfoldable pub on_value : Bytes → Value → Book D → Outcome (Book D × List Contact)
  on_value login value b = do
    pos ← or_throw (find_char b':' value.content) invalid_argument
    ok (on_owner login value.content value.owner b)

  -- The loop of the callback: an exception ends it, and what was stored before stays.
  unfoldable pub on_values :
      Bytes → Bool → List Value → Book D → List Contact → Outcome Bool × Book D × List Contact
  on_values login expired [] b out = (ok true, b, out)
  on_values login expired (value ∷ values) b out =
      elim (if expired then ok (b, []) else on_value login value b) [
        | ok (b', contacts) ↦ on_values login expired values b' (out ++ contacts)
        | throw e ↦ (throw e, b, out)
        | undefined ↦ (undefined, b, out)
      ]

  -- The callback that `listen` gives to the node.
  unfoldable pub listen_callback :
      Bytes → List Value → Bool → DhtIpResolver → Outcome Bool × DhtIpResolver × List Contact
  listen_callback login values expired r =
      let (result, b, contacts) = on_values login expired values r.book [] in
      (result, record r { book = b }, contacts)

  unfoldable pub resolve : Bytes → D.InfoHash → DhtIpResolver → Option Bytes
  resolve login public_key_id r = Book.resolve D login public_key_id r.book

  unfoldable pub get_public_key_by_public_key_id : D.InfoHash → DhtIpResolver → Option D.PublicKey
  get_public_key_by_public_key_id public_key_id r =
      Book.get_public_key_by_public_key_id D public_key_id r.book

  -- The destructor: each token is given back, in the order of the logins, then the node is joined.
  unfoldable pub destroy : DhtIpResolver → DhtIpResolver
  destroy r = record r {
    calls =
        r.calls
        ++ (map (λ (entry : Bytes × ℕ). cancel_listen (D.hash entry.0) entry.1)
              (in_order r.login_to_token)
            ++ (join ∷ []));
  }
