-- ===== src/Examples/Libraries.antt =====
-- The libraries of External.antt at their simplest: keys that are their own ids, a cipher that adds a
-- byte, a signature that is the key, JSON objects of one number and one text.
use p2p_messenger.Prelude.{
  suc, ltb, ◌==◌, ◌&&◌, if◌then◌else◌, ℕ, ◌%◌, ◌^◌, ◌<◌, ◌≡◌, refl, Bool, true, false, Option, none,
  some, List, [], ◌∷◌, ◌++◌, length, take, drop, bytes_eq, beq_refl, arith, take-length-append,
  drop-length-append, beq_ne,
}
use p2p_messenger.Prelude.Bytes.{
  Bytes, le_bytes, of_le_bytes, length-le_bytes, of_le_bytes-le_bytes,
}
use p2p_messenger.Prelude.Outcome.{Outcome, ok, throw, undefined}
use p2p_messenger.External.{OpenDht, IsLawfulDht, Json, IsLawfulJson, Net, Texts, IsLawfulTexts}
use p2p_messenger.Examples.Trim.{trim, trim_around}
use native.Mathlib.Nat.{mod-eq_of_lt}

abbrev key_of : Bytes → Option Bytes
key_of [] = none
key_of (x ∷ k) = some k

abbrev pub dht : OpenDht
dht = record {
  PublicKey = Bytes;
  PrivateKey = Bytes;
  InfoHash = Bytes;
  public_key = λ k. k;
  to_string = λ k. b'k' ∷ k;
  of_string = key_of;
  same_key = bytes_eq.beq;
  get_id = λ k. k;
  id_eq = bytes_eq;
  id_to_string = λ i. i;
  id_of_string = λ s. s;
  id_is_set = λ i. true;
  hash = λ s. s;
  encrypt = λ k text. some (1 ∷ text);
  decrypt = λ k cipher. key_of cipher;
  sign = λ k text. some k;
  check_signature = λ k text signature. bytes_eq.beq k signature;
}

pub dht-IsLawfulDht : IsLawfulDht dht
dht-IsLawfulDht = record {
  of_string-to_string = λ k. refl;
  same_key_self = λ k. beq_refl ⦃e = bytes_eq⦄ k;
  decrypt-encrypt = λ k text cipher e. ground arith;
  check_signature-sign = λ k text signature e. ground (arith, beq_refl ⦃e = bytes_eq⦄ k);
}

mutual
  pub data JsonValue : Type 0 where
    number : ℕ → JsonValue
    string : Bytes → JsonValue
    of_object : JsonObject → JsonValue

  pub data JsonObject : Type 0 where
    no_field : JsonObject
    field : Bytes → JsonValue → JsonObject → JsonObject

abbrev object : List (Bytes × JsonValue) → JsonObject
object [] = no_field
object ((k, v) ∷ fs) = field k v (object fs)

abbrev serialize : JsonObject → Bytes
serialize (field k (number n) (field j (string s) no_field)) =
    length k ∷ length j ∷ (le_bytes 8 n ++ (k ++ (j ++ s)))
serialize _ = []

abbrev parse_fields : ℕ → ℕ → ℕ → Bytes → JsonValue
parse_fields a b n r =
    of_object (
      field (take a r) (number n) (field (take b (drop a r)) (string (drop b (drop a r))) no_field))

abbrev parse : Bytes → Option JsonValue
parse (a ∷ b ∷ r) = some (parse_fields a b (of_le_bytes (take 8 r)) (drop 8 r))
parse _ = none

abbrev as_object : JsonValue → Option JsonObject
as_object (of_object o) = some o
as_object _ = none

abbrev at : JsonObject → Bytes → Option JsonValue
at no_field k = none
at (field j v fs) k = let rest = at fs k in if bytes_eq.beq j k then some v else rest

abbrev to_number : JsonValue → Option ℕ
to_number (number n) = some n
to_number _ = none

abbrev to_text : JsonValue → Option Bytes
to_text (string s) = some s
to_text _ = none

abbrev pub json : Json
json = record {
  Value = JsonValue;
  Object = JsonObject;
  object = object;
  number = number;
  string = string;
  of_object = of_object;
  serialize = serialize;
  parse = parse;
  as_object = as_object;
  at = at;
  to_number_uint64 = to_number;
  value_to_string = to_text;
  is_utf8 = λ s. true;
}

parse-serialize :
    (k j : Bytes) (n : ℕ) (s : Bytes)
    → n < 2 ^ 64
    → parse (serialize (object ((k, number n) ∷ (j, string s) ∷ [])))
      ≡ some (of_object (object ((k, number n) ∷ (j, string s) ∷ [])))
parse-serialize k j n s h = rw (
  take_eight,
  drop_eight,
  of_le_bytes-le_bytes 8 n,
  mod-eq_of_lt h,
  take-length-append k (j ++ s),
  drop-length-append k (j ++ s),
  take-length-append j s,
  drop-length-append j s,
)
  where
    take_eight : take 8 (le_bytes 8 n ++ (k ++ (j ++ s))) ≡ le_bytes 8 n
    take_eight = rw (length-le_bytes 8 n) at (take-length-append (le_bytes 8 n) (k ++ (j ++ s)))

    drop_eight : drop 8 (le_bytes 8 n ++ (k ++ (j ++ s))) ≡ k ++ (j ++ s)
    drop_eight = rw (length-le_bytes 8 n) at (drop-length-append (le_bytes 8 n) (k ++ (j ++ s)))

pub json-IsLawfulJson : IsLawfulJson json
json-IsLawfulJson = record {
  parse-serialize = λ k j n s h u. parse-serialize k j n s h;
  as_object-of_object = λ o. refl;
  at-here = λ k v fs. rw (beq_refl ⦃e = bytes_eq⦄ k);
  at-there = λ k j v fs h. rw (beq_ne ⦃e = bytes_eq⦄ j k h);
  to_number_uint64-number = λ n h. refl;
  value_to_string-string = λ s. refl;
}

-- An address is a text that is not empty.
abbrev address_of_text : Bytes → Option Bytes
address_of_text [] = none
address_of_text (x ∷ s) = some (x ∷ s)

-- A socket that takes everything, and one that takes one datagram.
abbrev pub net : Net
net = record {
  Address = Bytes;
  make_address = address_of_text;
  address_to_string = λ a. a;
  send_fails = λ before d. false;
}

abbrev has_sent {ℓ} : {A : Type ℓ} → List A → Bool
has_sent [] = false
has_sent (x ∷ xs) = true

abbrev pub small_net : Net
small_net = record {
  Address = Bytes;
  make_address = address_of_text;
  address_to_string = λ a. a;
  send_fails = λ before d. has_sent before;
}

abbrev pub bytes_of : Outcome Bytes → Bytes
bytes_of (ok b) = b
bytes_of (throw e) = []
bytes_of undefined = []

-- As in a dictionary.
abbrev bytes_less : Bytes → Bytes → Bool
bytes_less xs [] = false
bytes_less [] (y ∷ ys) = true
bytes_less (x ∷ xs) (y ∷ ys) =
    let rest = bytes_less xs ys in if ltb x y then true else ((x == y) && rest)

-- Before the first that is not less.
abbrev row_of : Bytes → List Bytes → ℕ
row_of text [] = 0
row_of text (other ∷ others) =
    let rest = row_of text others in if bytes_less other text then suc rest else 0

-- Texts are bytes, and a number is read as the length of its text.
abbrev pub qt : Texts
qt = record {
  QString = Bytes;
  string_eq = bytes_eq;
  row_of = row_of;
  from_std_string = λ s. s;
  to_std_string = λ s. s;
  to_ushort = λ s. length s % 2 ^ 16;
  trim = trim;
}

pub qt-IsLawfulTexts : IsLawfulTexts qt
qt-IsLawfulTexts = record { trim_around = trim_around }
