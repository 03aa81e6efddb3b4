-- ===== src/Resolver/Keyed.antt =====
-- The invariant of both resolvers' maps: who has an address has a key. metadata_ip_resolver.cpp and
-- the callback in dht_ip_resolver.cpp write the two maps in turn.
use p2p_messenger.Prelude.{
  ℕ, ◌≡◌, ◌∙◌, Bool, true, false, ◌&&◌, Option, none, some, List, [], ◌∷◌, ◌++◌, arith,
  if◌then◌else◌, Bool-cases, inl, inr, beq_refl, bytes_eq,
}
use p2p_messenger.Prelude.Bytes.{Bytes}
use p2p_messenger.Prelude.Outcome.{ok, Outcome-cases}
use p2p_messenger.Prelude.Map.{find}
use p2p_messenger.External.{OpenDht}
use p2p_messenger.Resolver.Book.{
  Book, empty_book, put_address, put_public_key, resolve, get_public_key_by_public_key_id,
  resolve-put_address, resolve-put_public_key, get-put_public_key, get-put_address,
}
use p2p_messenger.Resolver.Metadata.{put}
use p2p_messenger.Resolver.Dht.{Value, Contact, on_owner, on_value, on_values}

module _ (D : OpenDht) where
  -- Every id that has an address has a key, and the key is that id's.
  pub record IsKeyed (b : Book D) : Type 0 where
    pub keyed :
        (login : Bytes) (id : D.InfoHash) (address : Bytes)
        → resolve D login id b ≡ some address
        → (k : D.PublicKey) × (get_public_key_by_public_key_id D id b ≡ some k)
    pub matching :
        (id : D.InfoHash) (k : D.PublicKey)
        → get_public_key_by_public_key_id D id b ≡ some k
        → D.get_id k ≡ id

  pub empty_book-IsKeyed : IsKeyed (empty_book D)
  unfolding resolve get_public_key_by_public_key_id find
  empty_book-IsKeyed = record {
    keyed = λ login id address e. absurd (cc e);
    matching = λ id k e. absurd (cc e);
  }

  -- Both writes.
  abbrev put_both : Bytes → D.PublicKey → Bytes → Book D → Book D
  put_both login k address b =
      put_public_key D (D.get_id k) k (put_address D login (D.get_id k) address b)

  resolve-put_both :
      (login login' : Bytes) (k : D.PublicKey) (id : D.InfoHash) (address : Bytes) (b : Book D)
      → resolve D login' id (put_both login k address b) ≡ (
          if bytes_eq.beq login login' && D.id_eq.beq (D.get_id k) id
          then some address
          else resolve D login' id b)
  resolve-put_both login login' k id address b =
      resolve-put_public_key D login' id (D.get_id k) k _
      ∙ resolve-put_address D login login' (D.get_id k) id address b

  get-put_both :
      (login : Bytes) (k : D.PublicKey) (id : D.InfoHash) (address : Bytes) (b : Book D)
      → get_public_key_by_public_key_id D id (put_both login k address b)
        ≡ (if D.id_eq.beq (D.get_id k) id then some k else get_public_key_by_public_key_id D id b)
  get-put_both login k id address b =
      get-put_public_key D id (D.get_id k) k _
      ∙ rw (get-put_address D login id (D.get_id k) address b)

  put_both-IsKeyed :
      (login : Bytes) (k : D.PublicKey) (address : Bytes) {b : Book D}
      → IsKeyed b
      → IsKeyed (put_both login k address b)
  put_both-IsKeyed login k address {b} v = record {
    keyed = λ login' id address' e. elim (Bool-cases (D.id_eq.beq (D.get_id k) id)) [
      | inl same ↦ (k, rw (get-put_both login k id address b, same))
      | inr other ↦
          rw (get-put_both login k id address b, other)
            (v.keyed login' id address'
              (ground (arith, resolve-put_both login login' k id address b)))
    ];
    matching = λ id k' e. elim (Bool-cases (D.id_eq.beq (D.get_id k) id)) [
      | inl same ↦
          ground (arith, get-put_both login k id address b, D.id_eq.beq_iff (D.get_id k) id)
      | inr other ↦ v.matching id k' (rw (get-put_both login k id address b, other) at e)
    ];
  }

  -- The whole of `put` keeps the invariant.
  pub put-IsKeyed :
      (login : Bytes) (k : D.PublicKey) (ip : Bytes) (port : ℕ) {b : Book D}
      → IsKeyed b
      → IsKeyed (put D login k ip port b)
  unfolding put
  put-IsKeyed login k ip port v = put_both-IsKeyed login k _ v

  on_owner-IsKeyed :
      (login address : Bytes) (owner : Option D.PublicKey) {b : Book D}
      → IsKeyed b
      → IsKeyed (on_owner D login address owner b).0
  unfolding on_owner
  on_owner-IsKeyed login address none v = v
  on_owner-IsKeyed login address (some owner) v = put_both-IsKeyed login owner address v

  on_value-IsKeyed :
      (login : Bytes) (value : Value D) (b b' : Book D) (out : List (Contact D))
      → IsKeyed b
      → on_value D login value b ≡ ok (b', out)
      → IsKeyed b'
  unfolding on_value
  on_value-IsKeyed login value b b' out v e =
      ground (arith, on_owner-IsKeyed login value.content value.owner v)

  -- The loop over found values keeps it, also when an exception ends it.
  pub on_values-IsKeyed :
      (login : Bytes) (expired : Bool) (values : List (Value D)) (b : Book D)
      (out : List (Contact D))
      → IsKeyed b
      → IsKeyed (on_values D login expired values b out).1
  unfolding on_values
  on_values-IsKeyed login expired [] b out v = v
  on_values-IsKeyed login true (value ∷ values) b out v =
      on_values-IsKeyed login true values b (out ++ []) v
  on_values-IsKeyed login false (value ∷ values) b out v =
      elim (Outcome-cases (on_value D login value b)) [
        | inl ((b', contacts), e) ↦
            rw (e, on_values)
              (on_values-IsKeyed login false values b' (out ++ contacts)
                (on_value-IsKeyed login value b b' contacts v e))
        | inr (inl (x, e)) ↦ rw (e, on_values) v
        | inr (inr e) ↦ rw (e, on_values) v
      ]

  -- Between its two critical sections the book is not keyed: an id that had no key has an address.
  pub put_address_not_keyed :
      (login : Bytes) (id : D.InfoHash) (address : Bytes) (b : Book D)
      → get_public_key_by_public_key_id D id b ≡ none
      → ¬ IsKeyed (put_address D login id address b)
  put_address_not_keyed login id address b e v =
      let (k, f) = v.keyed login id address here in cc (f, get-put_address D login id id address b)
    where
      here : resolve D login id (put_address D login id address b) ≡ some address
      here = rw (
        resolve-put_address D login login id id address b,
        beq_refl ⦃e = bytes_eq⦄ login,
        beq_refl ⦃e = D.id_eq⦄ id,
      )
