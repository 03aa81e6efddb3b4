-- ===== src/Resolver/Book.antt =====
-- The two maps that both resolvers keep, and the two lookups that both have.
use p2p_messenger.Prelude.{◌≡◌, refl, Option, none, some, [], if◌then◌else◌, Bool-cases, inl, inr}
use p2p_messenger.Prelude.Bytes.{Bytes}
use p2p_messenger.Prelude.{bytes_eq, ◌&&◌}
use p2p_messenger.Prelude.Map.{Map, find, insert, find-insert}
use p2p_messenger.External.{OpenDht}

module _ (D : OpenDht) where
  pub record Book : Type 0 where
    pub login_to_public_key_id_to_address : Map Bytes (Map D.InfoHash Bytes)
    pub public_key_id_to_public_key : Map D.InfoHash D.PublicKey

  abbrev pub empty_book : Book
  empty_book = record { login_to_public_key_id_to_address = []; public_key_id_to_public_key = [] }

  abbrev pub or_empty_map : Option (Map D.InfoHash Bytes) → Map D.InfoHash Bytes
  or_empty_map none = []
  or_empty_map (some m) = m

  -- `login_to_public_key_id_to_address_[login][public_key_id] = address`, under its own mutex.
  unfoldable pub put_address : Bytes → D.InfoHash → Bytes → Book → Book
  put_address login public_key_id address b = record b {
    login_to_public_key_id_to_address =
        insert login
          (insert ⦃e = D.id_eq⦄ public_key_id address
            (or_empty_map (find login b.login_to_public_key_id_to_address)))
          b.login_to_public_key_id_to_address;
  }

  -- `public_key_id_to_public_key_[public_key_id] = public_key`, under another mutex.
  unfoldable pub put_public_key : D.InfoHash → D.PublicKey → Book → Book
  put_public_key public_key_id public_key b = record b {
    public_key_id_to_public_key =
        insert ⦃e = D.id_eq⦄ public_key_id public_key b.public_key_id_to_public_key;
  }

  abbrev in_login_map : D.InfoHash → Option (Map D.InfoHash Bytes) → Option Bytes
  in_login_map public_key_id none = none
  in_login_map public_key_id (some login_map) = find ⦃e = D.id_eq⦄ public_key_id login_map

  unfoldable pub resolve : Bytes → D.InfoHash → Book → Option Bytes
  resolve login public_key_id b =
      in_login_map public_key_id (find login b.login_to_public_key_id_to_address)

  unfoldable pub get_public_key_by_public_key_id : D.InfoHash → Book → Option D.PublicKey
  get_public_key_by_public_key_id public_key_id b =
      find ⦃e = D.id_eq⦄ public_key_id b.public_key_id_to_public_key

  find-or_empty_map :
      (id : D.InfoHash) (o : Option (Map D.InfoHash Bytes))
      → find ⦃e = D.id_eq⦄ id (or_empty_map o) ≡ in_login_map id o
  unfolding find
  find-or_empty_map id none = refl
  find-or_empty_map id (some m) = refl

  pub resolve-put_address :
      (login login' : Bytes) (id id' : D.InfoHash) (address : Bytes) (b : Book)
      → resolve login' id' (put_address login id address b) ≡ (
          if bytes_eq.beq login login' && D.id_eq.beq id id'
          then some address
          else resolve login' id' b)
  unfolding resolve put_address
  resolve-put_address login login' id id' address b =
      rw (find-insert login' login _ b.login_to_public_key_id_to_address)
        (elim (Bool-cases (bytes_eq.beq login login')) [
          | inl same ↦ rw (
            same,
            (bytes_eq.beq_iff login login').0 same,
            find-insert ⦃e = D.id_eq⦄ id' id address _,
            find-or_empty_map id' (find login' b.login_to_public_key_id_to_address),
          )
          | inr other ↦ rw other
        ])

  pub resolve-put_public_key :
      (login : Bytes) (id id' : D.InfoHash) (k : D.PublicKey) (b : Book)
      → resolve login id (put_public_key id' k b) ≡ resolve login id b
  unfolding resolve put_public_key
  resolve-put_public_key login id id' k b = refl

  pub get-put_public_key :
      (id id' : D.InfoHash) (k : D.PublicKey) (b : Book)
      → get_public_key_by_public_key_id id (put_public_key id' k b)
        ≡ (if D.id_eq.beq id' id then some k else get_public_key_by_public_key_id id b)
  unfolding get_public_key_by_public_key_id put_public_key
  get-put_public_key id id' k b = find-insert ⦃e = D.id_eq⦄ id id' k b.public_key_id_to_public_key

  pub get-put_address :
      (login : Bytes) (id id' : D.InfoHash) (address : Bytes) (b : Book)
      → get_public_key_by_public_key_id id (put_address login id' address b)
        ≡ get_public_key_by_public_key_id id b
  unfolding get_public_key_by_public_key_id put_address
  get-put_address login id id' address b = refl
