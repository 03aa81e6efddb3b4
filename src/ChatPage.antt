-- ===== src/ChatPage.antt =====
-- The texts of the contact list: `contact_to_string` and `contact_from_string` of src/chatpage.cpp.
pub mod Page
pub mod Contacts
pub mod Notify
pub mod Distinct
pub mod Shown
pub mod Steps
pub mod Sending
pub mod Readable
pub mod Returns
use p2p_messenger.Prelude.{
  ℕ, ◌+◌, ◌-◌, ◌≡◌, refl, none, some, [], ◌∷◌, ◌++◌, length, take, drop, leb, lt→not-leb,
  le→not-ltb, if◌then◌else◌, arith, length-append, take-length-append,
}
use p2p_messenger.Prelude.Bytes.{Bytes}
use p2p_messenger.Prelude.Outcome.{Outcome, ok, throw, invalid_argument, ◌>>=◌}
use p2p_messenger.External.{OpenDht}
use p2p_messenger.Address.{find_char, substr_from}
use p2p_messenger.Address.Parse.{Lacks, find_char-append}
use p2p_messenger.Resolver.Dht.{Contact}

-- `s.substr(pos, n)`
unfoldable pub substr : ℕ → ℕ → Bytes → Outcome Bytes
substr pos n s = do rest ← substr_from pos s; ok (take n rest)

module _ (D : OpenDht) where
  -- `"[" + id + "] " + login`
  unfoldable pub contact_to_string : Contact D → Bytes
  contact_to_string contact =
      b'[' ∷ (D.id_to_string contact.public_key_id ++ (b']' ∷ b' ' ∷ contact.login))

  -- Both brackets were found.
  unfoldable pub contact_between : ℕ → ℕ → Bytes → Outcome (Contact D)
  contact_between start end s = if leb end start then throw invalid_argument else (do
    public_key_str ← substr (start + 1) (end - start - 1) s
    login ← substr_from (end + 2) s
    ok (record { login = login; public_key_id = D.id_of_string public_key_str }))

  unfoldable pub contact_from_string : Bytes → Outcome (Contact D)
  contact_from_string s = elim (find_char b'[' s) [
    | none ↦ throw invalid_argument
    | some start ↦ elim (find_char b']' s) [
      | none ↦ throw invalid_argument
      | some end ↦ contact_between start end s
    ]
  ]

  drop_two : (xs login : Bytes) (a b : ℕ) → drop (length xs + 2) (xs ++ (a ∷ b ∷ login)) ≡ login
  drop_two [] login a b = refl
  drop_two (x ∷ xs) login a b = ground (arith, drop_two xs login a b)

  open_bracket : (xs : Bytes) → find_char b'[' (b'[' ∷ xs) ≡ some 0
  unfolding find_char
  open_bracket xs = ground arith

  between_lem :
      (id login : Bytes)
      → let s = (b'[' ∷ id) ++ (b']' ∷ b' ' ∷ login) in
        contact_between 0 (length (b'[' ∷ id)) s
        ≡ ok (record { login = login; public_key_id = D.id_of_string id })
  unfolding contact_between substr substr_from
  between_lem id login =
      let end : ℕ = length {A = ℕ} (b'[' ∷ id) in
      let s : Bytes = (b'[' ∷ id) ++ (b']' ∷ b' ' ∷ login) in
      let size : length s ≡ end + length (b']' ∷ b' ' ∷ login) =
        length-append (b'[' ∷ id) (b']' ∷ b' ' ∷ login) in
      let count : end - 0 - 1 ≡ length id = omega arith in
      rw (
        lt→not-leb end 0 (omega arith),
        le→not-ltb (length s) 1 (omega arith),
        le→not-ltb (length s) (end + 2) (omega (arith, size)),
        drop_two (b'[' ∷ id) login b']' b' ',
        count,
        take-length-append id (b']' ∷ b' ' ∷ login),
      )

  -- The text of a contact is read back as the contact, whatever its login, if the text of its id has
  -- no closing bracket and is read back as the id.
  pub contact_from_string-contact_to_string :
      (contact : Contact D)
      → Lacks b']' (D.id_to_string contact.public_key_id)
      → D.id_of_string (D.id_to_string contact.public_key_id) ≡ contact.public_key_id
      → contact_from_string (contact_to_string contact) ≡ ok contact
  unfolding contact_from_string contact_to_string
  contact_from_string-contact_to_string contact h e = rw (
    open_bracket (D.id_to_string contact.public_key_id ++ (b']' ∷ b' ' ∷ contact.login)),
    contact_from_string,
    find_char-append b']' (b'[' ∷ D.id_to_string contact.public_key_id) (b' ' ∷ contact.login)
        (ground arith),
    between_lem (D.id_to_string contact.public_key_id) contact.login,
    e,
  )
