-- ===== src/Examples/LoginPage.antt =====
-- The login page and an answer.
use p2p_messenger.Prelude.{
  ℕ, ◌≡◌, refl, ◌++◌, none, some, [], ◌∷◌, arith, List, true, false, if◌then◌else◌, ◌==◌,
}
use p2p_messenger.Prelude.Bytes.{Bytes}
use p2p_messenger.Prelude.Outcome.{ok, undefined}
use p2p_messenger.LoginPage.{Page, on_resolve_clicked}
use p2p_messenger.LoginPage.Response.{response, resolve_takes_word}
use p2p_messenger.LoginPage.Ends.{code_of, resolve_ends}
use p2p_messenger.Examples.Libraries.{qt, qt-IsLawfulTexts}

abbrev pub page : Page qt
page = record {
  login = b'a' ∷ [];
  dht_port = [];
  ip = b'?' ∷ [];
  port = [];
  bootstrap_node_ip = [];
  bootstrap_node_port = [];
  relay_node_ip = [];
  relay_node_port = [];
  serve_as_relay = false;
  generate_crypto_identity = true;
  crypto_identity_path = [];
}

abbrev http : Bytes
http = b'H' ∷ b'1' ∷ []

abbrev ok_text : Bytes
ok_text = b'O' ∷ b'K' ∷ []

abbrev headers : List Bytes
headers = (b'A' ∷ b':' ∷ []) ∷ (b'B' ∷ []) ∷ []

abbrev address : Bytes
address = b'9' ∷ b'.' ∷ b'9' ∷ []

resolve_takes_word_example :
    on_resolve_clicked qt
      (ok (response http 200 ok_text headers ([] ++ (address ++ (10 ∷ [])))))
      page
    ≡ (ok tt, if 200 == 200 then record page { ip = address } else page)
resolve_takes_word_example =
    resolve_takes_word qt qt-IsLawfulTexts http 200 ok_text headers [] address (10 ∷ []) page
      (λ e. cc e) (refl, (refl, tt)) (ground arith) (ground arith)
      (((λ e. cc e), ground arith), (((λ e. cc e), ground arith), tt)) tt (refl, (refl, (refl, tt)))
      (refl, tt)

-- A word and the empty line.
abbrev word : Bytes
word = b'H' ∷ 13 ∷ 10 ∷ 13 ∷ 10 ∷ []

resolve_ends_example :
    ((code : ℕ) → code_of word ≡ some code → (on_resolve_clicked qt (ok word) page).0 ≡ ok tt)
    × (code_of word ≡ none → (on_resolve_clicked qt (ok word) page).0 ≡ undefined)
resolve_ends_example = resolve_ends qt word page
