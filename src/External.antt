-- ===== src/External.antt =====
-- The libraries that the sources call, as records of the operations used (no source of theirs is in
-- the repository): OpenDHT's keys and hashes, and Boost.JSON. `none` is an exception.
use p2p_messenger.Prelude.{
  ℕ, ◌^◌, ◌<◌, ◌≡◌, ◌≢◌, Bool, true, Option, some, List, [], ◌∷◌, Eq, ◌++◌, All, false,
}
use p2p_messenger.Address.{is_space}
use p2p_messenger.Prelude.Bytes.{Bytes}

-- `dht::crypto` and `dht::InfoHash`. Encryption and signing draw random numbers: the functions here
-- stand for one run's draws.
pub record OpenDht : Type 1 where
  pub PublicKey : Type 0
  pub PrivateKey : Type 0
  pub InfoHash : Type 0
  -- `getSharedPublicKey`, `getPublicKey`
  pub public_key : PrivateKey → PublicKey
  -- `PublicKey::toString`, the constructor `PublicKey{string}` and `operator==`
  pub to_string : PublicKey → Bytes
  pub of_string : Bytes → Option PublicKey
  pub same_key : PublicKey → PublicKey → Bool
  pub get_id : PublicKey → InfoHash
  pub id_eq : Eq InfoHash
  -- `InfoHash::toString`, the constructor `InfoHash{string}` and `operator bool`
  pub id_to_string : InfoHash → Bytes
  pub id_of_string : Bytes → InfoHash
  pub id_is_set : InfoHash → Bool
  -- `InfoHash::get`, the hash of a text
  pub hash : Bytes → InfoHash
  pub encrypt : PublicKey → Bytes → Option Bytes
  pub decrypt : PrivateKey → Bytes → Option Bytes
  pub sign : PrivateKey → Bytes → Option Bytes
  pub check_signature : PublicKey → Bytes → Bytes → Bool

-- What OpenDHT documents of them.
pub record IsLawfulDht (D : OpenDht) : Type 0 where
  pub of_string-to_string : (k : D.PublicKey) → D.of_string (D.to_string k) ≡ some k
  pub same_key_self : (k : D.PublicKey) → D.same_key k k ≡ true
  pub decrypt-encrypt :
      (k : D.PrivateKey) (text cipher : Bytes)
      → D.encrypt (D.public_key k) text ≡ some cipher
      → D.decrypt k cipher ≡ some text
  pub check_signature-sign :
      (k : D.PrivateKey) (text signature : Bytes)
      → D.sign k text ≡ some signature
      → D.check_signature (D.public_key k) text signature ≡ true

-- `boost::json`.
pub record Json : Type 1 where
  pub Value : Type 0
  pub Object : Type 0
  -- `json::object { {key, value}, … }`, and the values of a `uint64_t` and a `std::string`
  pub object : List (Bytes × Value) → Object
  pub number : ℕ → Value
  pub string : Bytes → Value
  pub of_object : Object → Value
  pub serialize : Object → Bytes
  pub parse : Bytes → Option Value
  pub as_object : Value → Option Object
  pub at : Object → Bytes → Option Value
  pub to_number_uint64 : Value → Option ℕ
  pub value_to_string : Value → Option Bytes
  -- The texts that the parser accepts inside a string: valid UTF-8.
  pub is_utf8 : Bytes → Bool

abbrev pub time_key : Bytes
time_key = b't' ∷ b'i' ∷ b'm' ∷ b'e' ∷ []

abbrev pub text_key : Bytes
text_key = b't' ∷ b'e' ∷ b'x' ∷ b't' ∷ []

-- What Boost.JSON documents of them. The law of `parse` is needed at flat objects only.
pub record IsLawfulJson (J : Json) : Type 0 where
  pub parse-serialize :
      (k j : Bytes) (n : ℕ) (s : Bytes)
      → n < 2 ^ 64
      → J.is_utf8 s ≡ true
      → let o = J.object ((k, J.number n) ∷ (j, J.string s) ∷ []) in
        J.parse (J.serialize o) ≡ some (J.of_object o)
  pub as_object-of_object : (o : J.Object) → J.as_object (J.of_object o) ≡ some o
  pub at-here :
      (k : Bytes) (v : J.Value) (fs : List (Bytes × J.Value))
      → J.at (J.object ((k, v) ∷ fs)) k ≡ some v
  pub at-there :
      (k j : Bytes) (v : J.Value) (fs : List (Bytes × J.Value))
      → j ≢ k
      → J.at (J.object ((j, v) ∷ fs)) k ≡ J.at (J.object fs) k
  pub to_number_uint64-number : (n : ℕ) → n < 2 ^ 64 → J.to_number_uint64 (J.number n) ≡ some n
  pub value_to_string-string : (s : Bytes) → J.value_to_string (J.string s) ≡ some s

-- `boost::asio`: addresses, and a socket that may refuse a datagram, for whatever happened before.
pub record Net : Type 1 where
  pub Address : Type 0
  pub make_address : Bytes → Option Address
  pub address_to_string : Address → Bytes
  pub send_fails : List (Bytes × Address × ℕ) → Bytes × Address × ℕ → Bool

-- An address is read back from its text.
pub record IsLawfulNet (N : Net) : Type 0 where
  pub make_address-to_string : (a : N.Address) → N.make_address (N.address_to_string a) ≡ some a

-- The texts of the user interface: `QString` and its conversions, and `boost::algorithm::trim`.
pub record Texts : Type 1 where
  pub QString : Type 0
  pub string_eq : Eq QString
  -- the row in which a list widget that sorts puts a new text among those that it has; behind all,
  -- if it has fewer rows
  pub row_of : QString → List QString → ℕ
  pub from_std_string : Bytes → QString
  pub to_std_string : QString → Bytes
  -- `QString::toUShort`
  pub to_ushort : QString → ℕ
  pub trim : Bytes → Bytes

-- No space in it, and nothing but spaces.
abbrev pub IsWord : Bytes → Type 0
IsWord = All λ c. is_space c ≡ false

abbrev pub IsBlank : Bytes → Type 0
IsBlank = All λ c. is_space c ≡ true

-- What Boost documents of trimming: the spaces at both ends go.
pub record IsLawfulTexts (Q : Texts) : Type 0 where
  pub trim_around :
      (before w after : Bytes)
      → IsBlank before
      → IsWord w
      → IsBlank after
      → Q.trim (before ++ (w ++ after)) ≡ w
