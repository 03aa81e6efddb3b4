-- ===== src/Resolver/Dht/Values.antt =====
-- What the callback of `listen` stores.
use p2p_messenger.Prelude.{
  ◌≡◌, refl, ◌∙◌, Bool, true, false, Option, none, some, List, [], ◌∷◌, ◌++◌, arith, append-nil,
  append_assoc, if◌then◌else◌, bytes_eq, All, beq_refl,
}
use p2p_messenger.Prelude.Bytes.{Bytes}
use p2p_messenger.Prelude.Outcome.{ok, throw, invalid_argument}
use p2p_messenger.External.{OpenDht}
use p2p_messenger.Address.{find_char}
use p2p_messenger.Address.Parse.{Lacks, find_char_absent}
use p2p_messenger.Resolver.Book.{Book, resolve, resolve-put_address, resolve-put_public_key}
use p2p_messenger.Resolver.Dht.{
  DhtIpResolver, Value, Contact, on_owner, on_value, on_values, listen_callback, is_some,
}

module _ (D : OpenDht) where
  -- Values that the node reports as expired change nothing.
  expired_values :
      (login : Bytes) (values : List (Value D)) (b : Book D) (out : List (Contact D))
      → on_values D login true values b out ≡ (ok true, b, out)
  unfolding on_values
  expired_values login [] b out = refl
  expired_values login (value ∷ values) b out = rw append-nil (expired_values login values b out)

  pub listen_callback_expired :
      (login : Bytes) (values : List (Value D)) (r : DhtIpResolver D)
      → listen_callback D login values true r ≡ (ok true, r, [])
  unfolding listen_callback
  listen_callback_expired login values r = rw (expired_values login values r.book [])

  -- A value with a colon in it: the callback accepts it.
  abbrev pub IsAddress : Value D → Type 0
  IsAddress value = is_some (find_char b':' value.content) ≡ true

  -- What the values of one call store, in order, and the contacts that they announce.
  pub stored : Bytes → List (Value D) → Book D → Book D
  stored login [] b = b
  stored login (value ∷ values) b =
      stored login values (on_owner D login value.content value.owner b).0

  abbrev announced : Bytes → Option D.PublicKey → List (Contact D)
  announced login none = []
  announced login (some owner) = record { login = login; public_key_id = D.get_id owner } ∷ []

  pub contacts : Bytes → List (Value D) → List (Contact D)
  contacts login [] = []
  contacts login (value ∷ values) = announced login value.owner ++ contacts login values

  on_owner-announced :
      (login address : Bytes) (owner : Option D.PublicKey) (b : Book D)
      → (on_owner D login address owner b).1 ≡ announced login owner
  unfolding on_owner
  on_owner-announced login address none b = refl
  on_owner-announced login address (some owner) b = refl

  on_value_address :
      (login : Bytes) (value : Value D) (b : Book D)
      → IsAddress value
      → on_value D login value b
        ≡ ok ((on_owner D login value.content value.owner b).0, announced login value.owner)
  unfolding on_value
  on_value_address login value b h =
      rw (← on_owner-announced login value.content value.owner b) (ground arith)

  on_value_malformed :
      (login : Bytes) (value : Value D) (b : Book D)
      → Lacks b':' value.content
      → on_value D login value b ≡ throw invalid_argument
  unfolding on_value
  on_value_malformed login value b h = rw (find_char_absent b':' value.content h)

  -- The values in front of `rest` are stored, and the loop goes on with `rest`.
  on_values-append :
      (login : Bytes) (values rest : List (Value D)) (b : Book D) (out : List (Contact D))
      → All IsAddress values
      → on_values D login false (values ++ rest) b out
        ≡ on_values D login false rest (stored login values b) (out ++ contacts login values)
  unfolding on_values stored contacts
  on_values-append login [] rest b out h = rw append-nil
  on_values-append login (value ∷ values) rest b out (h, hs) =
      rw (on_value_address login value b h, on_values)
        (on_values-append login values rest (on_owner D login value.content value.owner b).0
            (out ++ announced login value.owner) hs
          ∙ rw append_assoc)

  -- The address that a book comes to hold for an id: that of the last value which the id signed.
  abbrev is_signed_by : D.InfoHash → Option D.PublicKey → Bool
  is_signed_by id none = false
  is_signed_by id (some owner) = D.id_eq.beq (D.get_id owner) id

  pub latest : D.InfoHash → List (Value D) → Option Bytes → Option Bytes
  latest id [] old = old
  latest id (value ∷ values) old =
      latest id values (if is_signed_by id value.owner then some value.content else old)

  resolve-on_owner :
      (login : Bytes) (id : D.InfoHash) (content : Bytes) (owner : Option D.PublicKey) (b : Book D)
      → resolve D login id (on_owner D login content owner b).0
        ≡ (if is_signed_by id owner then some content else resolve D login id b)
  unfolding on_owner
  resolve-on_owner login id content none b = refl
  resolve-on_owner login id content (some owner) b =
      resolve-put_public_key D login id (D.get_id owner) owner _
      ∙ rw (
        resolve-put_address D login login (D.get_id owner) id content b,
        beq_refl ⦃e = bytes_eq⦄ login,
      )

  resolve-stored :
      (login : Bytes) (id : D.InfoHash) (values : List (Value D)) (b : Book D)
      → resolve D login id (stored login values b) ≡ latest id values (resolve D login id b)
  unfolding stored latest
  resolve-stored login id [] b = refl
  resolve-stored login id (value ∷ values) b =
      rw (← resolve-on_owner login id value.content value.owner b)
        (resolve-stored login id values (on_owner D login value.content value.owner b).0)

  -- New values that are all addresses: the callback goes on listening, every owner's id resolves to
  -- the last value that it signed, and each value with an owner is announced, in order.
  pub listen_callback_stores :
      (login : Bytes) (values : List (Value D)) (r : DhtIpResolver D)
      → All IsAddress values
      → let after = listen_callback D login values false r in
        (after.0 ≡ ok true)
        × ((id : D.InfoHash)
            → resolve D login id after.1.book ≡ latest id values (resolve D login id r.book))
        × (after.2 ≡ contacts login values)
  unfolding listen_callback on_values
  listen_callback_stores login values r h =
      rw (whole) (refl, λ id. resolve-stored login id values r.book, refl)
    where
      whole :
          on_values D login false values r.book []
          ≡ (ok true, stored login values r.book, contacts login values)
      whole = rw append-nil at (on_values-append login values [] r.book [] h)

  pub listen_callback_malformed :
      (login : Bytes) (values rest : List (Value D)) (bad : Value D) (r : DhtIpResolver D)
      → All IsAddress values
      → Lacks b':' bad.content
      → listen_callback D login (values ++ (bad ∷ rest)) false r ≡ (
        throw invalid_argument,
        record r { book = stored login values r.book },
        contacts login values,
      )
  unfolding listen_callback on_values
  listen_callback_malformed login values rest bad r h lacks = rw (
    on_values-append login values (bad ∷ rest) r.book [] h,
    on_value_malformed login bad (stored login values r.book) lacks,
    on_values,
  )
