-- ===== src/LoginPage.antt =====
-- loginpage.cpp: the fields of the page, what the login button asks for, and how the answer of the
-- HTTP service that knows the public address is read.
pub mod Input
pub mod Fields
pub mod Response
pub mod Ends
use p2p_messenger.Prelude.{
  ℕ, ◌+◌, Bool, true, false, ◌&&◌, Option, none, some, [], ◌∷◌, length, ◌==◌, if◌then◌else◌,
}
use p2p_messenger.Prelude.Bytes.{Bytes}
use p2p_messenger.Prelude.Outcome.{Outcome, ok, undefined}
use p2p_messenger.Prelude.Program.{Program, ◌>>=◌, ◌>>◌, lift, modify, return, try_catch}
use p2p_messenger.External.{Texts}
use p2p_messenger.Address.{is_space, skip_spaces}
use p2p_messenger.LoginPage.Input.{
  is_empty, stream_of, read_word, read_unsigned, getline, skip_headers,
}

pub record Page (Q : Texts) : Type 0 where
  pub login : Q.QString
  pub dht_port : Q.QString
  pub ip : Q.QString
  pub port : Q.QString
  pub bootstrap_node_ip : Q.QString
  pub bootstrap_node_port : Q.QString
  pub relay_node_ip : Q.QString
  pub relay_node_port : Q.QString
  pub serve_as_relay : Bool
  pub generate_crypto_identity : Bool
  pub crypto_identity_path : Q.QString

-- What the signal `log_in_requsted` carries.
pub record Request : Type 0 where
  pub login : Bytes
  pub dht_port : ℕ
  pub ip : Bytes
  pub port : ℕ
  pub bootstrap_node_ip : Bytes
  pub bootstrap_node_port : ℕ
  pub relay_node_ip : Bytes
  pub relay_node_port : ℕ
  pub relay : Bool
  pub generate_crypto_identity : Bool
  pub crypto_identity_path : Bytes

-- A variable that was never assigned must not be read, and a loop that never ends gives nothing.
abbrev pub defined {ℓ} : {A : Type ℓ} → Option A → Outcome A
defined none = undefined
defined (some a) = ok a

module _ (Q : Texts) where
  unfoldable pub on_login_clicked : Page Q → Request
  on_login_clicked p = record {
    login = Q.to_std_string p.login;
    dht_port = Q.to_ushort p.dht_port;
    ip = Q.to_std_string p.ip;
    port = Q.to_ushort p.port;
    bootstrap_node_ip = Q.to_std_string p.bootstrap_node_ip;
    bootstrap_node_port = Q.to_ushort p.bootstrap_node_port;
    relay_node_ip = Q.to_std_string p.relay_node_ip;
    relay_node_port = Q.to_ushort p.relay_node_port;
    relay = p.serve_as_relay;
    generate_crypto_identity = p.generate_crypto_identity;
    crypto_identity_path = Q.to_std_string p.crypto_identity_path;
  }

  -- What follows once the first part of the answer was received.
  unfoldable pub read_response : Bytes → Program (Page Q) (Unit {0})
  read_response response = do
    let (status_code, headers) = read_unsigned (read_word (stream_of response))
    body ← lift (defined (skip_headers (length response + 1) (getline headers).1))
    code ← lift (defined status_code)
    if code == 200
        then (modify λ p. record p { ip = Q.from_std_string (Q.trim body.rest) })
        else return tt

  -- `answer` is an exception of the sockets, or what `read_until` leaves in the buffer: all that was
  -- received once the empty line was.
  unfoldable pub on_resolve_clicked : Outcome Bytes → Program (Page Q) (Unit {0})
  on_resolve_clicked answer =
      try_catch (lift answer >>= λ response. read_response response) (λ e. return tt)
