-- ===== src/Resolver/Metadata.antt =====
-- metadata_ip_resolver.cpp. `put` is two critical sections, one for each map.
use p2p_messenger.Prelude.{ℕ, ◌^◌, ◌<◌, ◌≡◌, ◌∙◌, ◌&&◌, some, if◌then◌else◌, beq_refl, bytes_eq}
use p2p_messenger.Prelude.Bytes.{Bytes}
use p2p_messenger.Prelude.Outcome.{ok}
use p2p_messenger.External.{OpenDht}
use p2p_messenger.Address.{address_of, get_ip_and_port_from_address}
use p2p_messenger.Address.Parse.{Lacks, get_ip_and_port-address_of}
use p2p_messenger.Resolver.Book.{
  Book, put_address, put_public_key, resolve, get_public_key_by_public_key_id, resolve-put_address,
  resolve-put_public_key, get-put_public_key, get-put_address,
}

module _ (D : OpenDht) where
  unfoldable pub put : Bytes → D.PublicKey → Bytes → ℕ → Book D → Book D
  put login public_key ip port b =
      put_public_key D (D.get_id public_key) public_key
        (put_address D login (D.get_id public_key) (address_of ip port) b)

  -- A `put` is what its login and its key resolve to from then on, and nothing else changes.
  pub resolve-put :
      (login login' : Bytes) (k : D.PublicKey) (id : D.InfoHash) (ip : Bytes) (port : ℕ)
      (b : Book D)
      → resolve D login' id (put login k ip port b) ≡ (
          if bytes_eq.beq login login' && D.id_eq.beq (D.get_id k) id
          then some (address_of ip port)
          else resolve D login' id b)
  unfolding put
  resolve-put login login' k id ip port b =
      resolve-put_public_key D login' id (D.get_id k) k _
      ∙ resolve-put_address D login login' (D.get_id k) id (address_of ip port) b

  pub get-put :
      (login : Bytes) (k : D.PublicKey) (id : D.InfoHash) (ip : Bytes) (port : ℕ) (b : Book D)
      → get_public_key_by_public_key_id D id (put login k ip port b)
        ≡ (if D.id_eq.beq (D.get_id k) id then some k else get_public_key_by_public_key_id D id b)
  unfolding put
  get-put login k id ip port b =
      get-put_public_key D id (D.get_id k) k _
      ∙ rw (get-put_address D login id (D.get_id k) (address_of ip port) b)

  -- What was put is resolved, and taken apart into the address and the port that were put, if the
  -- address has no colon and the port fits 16 bits.
  pub put_resolves :
      (login : Bytes) (k : D.PublicKey) (ip : Bytes) (port : ℕ) (b : Book D)
      → Lacks b':' ip
      → port < 2 ^ 16
      → (address : Bytes) × (resolve D login (D.get_id k) (put login k ip port b) ≡ some address)
        × (get_ip_and_port_from_address address ≡ ok (ip, port))
  put_resolves login k ip port b h fits = (
    address_of ip port,
    rw (
      resolve-put login login k (D.get_id k) ip port b,
      beq_refl ⦃e = bytes_eq⦄ login,
      beq_refl ⦃e = D.id_eq⦄ (D.get_id k),
    ),
    get_ip_and_port-address_of ip port h fits,
  )
