-- ===== src/Node/Safety.antt =====
-- message_sender.cpp: where the receiver's key is there, sending comes to no undefined behaviour.
use p2p_messenger.Prelude.{
  ℕ, ◌+◌, ◌^◌, ◌<◌, beq_refl, ◌≡◌, ◌≢◌, refl, Bool, true, false, not, ◌&&◌, Option, none, some, [],
  ◌∷◌, arith, Option-cases, inl, inr, bytes_eq,
}
use p2p_messenger.Prelude.Bytes.{Bytes}
use p2p_messenger.Prelude.Outcome
use p2p_messenger.Prelude.Outcome.{Outcome, ok, throw, undefined, Exception, or_throw}
use p2p_messenger.Prelude.Program.{Program, ◌>>=◌, handle}
use p2p_messenger.Prelude.Rules.{Keeps, Avoids, Avoids->>=, Avoids-lift, Avoids-if}
use p2p_messenger.External.{OpenDht, Json, Net}
use p2p_messenger.Address.{
  get_ip_and_port_from_address, port_from, substr_from, stoi, parse_signed, parse_magnitude,
  skip_spaces, find_char,
}
use p2p_messenger.Address.{address_of}
use p2p_messenger.Address.Parse.{Lacks, get_ip_and_port-address_of}
use p2p_messenger.Resolver.Book.{put_address, resolve-put_address, get-put_address}
use p2p_messenger.Wire.Message.{Message}
use p2p_messenger.Wire.Serializer.{
  message_to_buffer, encrypt_payload, encrypt, payload_to_buffer, sign,
}
use p2p_messenger.Wire.Layout.{
  message_to_buffer_with_payload-layout, signed_message_to_buffer-layout,
}
use p2p_messenger.Node.State.{Config, Node, Endpoint, send_to}
use p2p_messenger.Node.Sender
use p2p_messenger.Node.Sender.{outgoing, sealed, send, send_to_relay_node}
use p2p_messenger.Node.Messenger.{
  on_sent, resolve, get_public_key_by_public_key_id, send_message, initial_node,
}
use p2p_messenger.Node.Keyed.{NodeIsKeyed}
use p2p_messenger.Node.Keyed.Steps.{Reach, Reach-NodeIsKeyed, resolve_keyed}

or_throw-ne-undefined : {A : Type 0} (o : Option A) (e : Exception) → or_throw o e ≢ undefined
or_throw-ne-undefined none e h = cc
or_throw-ne-undefined (some a) e h = cc

>>=-ne-undefined :
    {A B : Type 0} (m : Outcome A) (f : A → Outcome B)
    → m ≢ undefined
    → ((a : A) → f a ≢ undefined)
    → Outcome.◌>>=◌ m f ≢ undefined
>>=-ne-undefined (ok a) f n h = h a
>>=-ne-undefined (throw e) f n h = λ q. cc
>>=-ne-undefined undefined f n h = λ q. n refl

magnitude_defined : (b : Bool) (s : Bytes) → parse_magnitude b s ≢ undefined
unfolding parse_magnitude
magnitude_defined b [] h = cc
magnitude_defined b (c ∷ s) h = ground arith

signed_defined : (s : Bytes) → parse_signed s ≢ undefined
unfolding parse_signed
signed_defined [] h = cc
signed_defined (c ∷ s) h =
    ground
      (arith, magnitude_defined true s, magnitude_defined false s, magnitude_defined false (c ∷ s))

port_defined : (pos : ℕ) (address : Bytes) → port_from pos address ≢ undefined
unfolding port_from substr_from stoi
port_defined pos address =
    >>=-ne-undefined (substr_from (pos + 1) address) _ (λ h. ground arith)
      λ rest. >>=-ne-undefined (stoi rest) _ (signed_defined (skip_spaces rest)) λ port h. cc

-- Whatever the text.
pub get_ip_and_port_defined : (address : Bytes) → get_ip_and_port_from_address address ≢ undefined
unfolding get_ip_and_port_from_address
get_ip_and_port_defined address = elim (Option-cases (find_char b':' address)) [
  | inl e ↦ rw (e, get_ip_and_port_from_address) (λ h. cc)
  | inr (pos, e) ↦
      rw (e, get_ip_and_port_from_address)
        (>>=-ne-undefined (port_from pos address) _ (port_defined pos address) λ port h. cc)
]

module _ (D : OpenDht) (J : Json) where
  buffer_defined : (m : Message) (k : D.PublicKey) → message_to_buffer D J m (some k) ≢ undefined
  unfolding message_to_buffer encrypt_payload encrypt
  buffer_defined m k =
      >>=-ne-undefined (encrypt D (payload_to_buffer J m.payload) k) _ (or_throw-ne-undefined _ _)
        λ cipher. rw (message_to_buffer_with_payload-layout m cipher) (λ h. cc)

  sealed_defined : (c : Config D) (k : D.PublicKey) (m : Message) → sealed D J c k m ≢ undefined
  unfolding sealed sign
  sealed_defined c k m =
      >>=-ne-undefined (message_to_buffer D J m (some k)) _ (buffer_defined m k) λ b.
        >>=-ne-undefined (sign D b c.private_key) _ (or_throw-ne-undefined _ _) λ signature.
          rw (signed_message_to_buffer-layout (record { message = b; signature = signature }))
            (λ h. cc)

-- No condition on the state.
abbrev Any : {S : Type 0} → S → Type 0
Any s = Unit {0}

Keeps-Any : {S A : Type 0} (m : Program S A) → Keeps Any m
Keeps-Any m = record { keeps = λ s i. tt }

Avoids-then :
    {S A B : Type 0} {m : Program S A} {f : A → Program S B}
    → Avoids Any m
    → ((a : A) → Avoids Any (f a))
    → Avoids Any (m >>= f)
Avoids-then {m} h k = Avoids->>= (Keeps-Any m) h k

module _ (D : OpenDht) (N : Net) where
  Avoids-send_to : (b : Bytes) (e : Endpoint N) → Avoids Any (send_to D N b e)
  unfolding send_to
  Avoids-send_to b e = record { avoids = λ s i h. ground arith }

  Avoids-on_sent : (m : Message) → Avoids Any (on_sent D N m)
  unfolding on_sent
  Avoids-on_sent m =
      Avoids-then (Avoids-lift (or_throw-ne-undefined (D.of_string m.destination_public_key) _))
        λ key. record { avoids = λ s i h. cc }

module _ (D : OpenDht) (J : Json) (N : Net) where
  Avoids-send_to_relay_node :
      (c : Config D) (ip b : Bytes) → Avoids Any (send_to_relay_node D J N c ip b)
  unfolding send_to_relay_node
  Avoids-send_to_relay_node c ip b =
      Avoids-if (not (bytes_eq.beq c.relay_node_ip []) && not (bytes_eq.beq ip c.relay_node_ip))
        (Avoids-then (Avoids-lift (or_throw-ne-undefined (N.make_address c.relay_node_ip) _))
          λ address. Avoids-send_to D N b (address, c.relay_node_port))
        (Avoids-lift (λ h. cc))

  Avoids-send :
      (c : Config D) (address login : Bytes) (k : D.PublicKey) (text : Bytes)
      → Avoids Any (send D J N c (on_sent D N) address login (some k) text)
  unfolding send
  Avoids-send c address login k text =
      Avoids-then (Avoids-lift (get_ip_and_port_defined address)) λ to.
        let m : Message = outgoing D J c to.0 to.1 login k text in
        Avoids-then (Avoids-lift (sealed_defined D J c k m)) λ b.
          Avoids-then (Avoids-lift (or_throw-ne-undefined (N.make_address to.0) _)) λ destination.
            Avoids-then (Avoids-send_to D N b (destination, to.1))
              λ _. Avoids-then (Avoids-send_to_relay_node c to.0 b) λ _. Avoids-on_sent D N m

  caught :
      {A : Type 0} (x : Outcome (Unit {0}) × A)
      → x.0 ≢ undefined
      → (handle x (λ e s. (ok tt, s))).0 ≡ ok tt
  caught (ok tt, s) n = refl
  caught (throw e, s) n = refl
  caught (undefined, s) n = absurd (n refl)

  -- Where both books are keyed, `send_message` returns: no null pointer is followed, no buffer is
  -- left and no exception gets out, whatever the login, the id, the text and the libraries' answers.
  pub send_message_returns :
      (c : Config D) (login : Bytes) (id : D.InfoHash) (text : Bytes) (s : Node D N)
      → NodeIsKeyed D N s
      → (send_message D J N c login id text s).0 ≡ ok tt
  unfolding send_message Sender.send_message
  send_message_returns c login id text s v = elim (Option-cases (resolve D N login id s)) [
    | inl e ↦ rw (e, send_message)
    | inr (address, e) ↦
        let (k, f, g) = resolve_keyed D J N login id address s v e in
        rw (e, send_message, f)
          (caught (send D J N c (on_sent D N) address login (some k) text s)
            ((Avoids-send c address login k text).avoids s tt))
  ]

  -- From the start of a node, after any sequence of its handlers, `send_message` returns.
  pub reachable_send_message_returns :
      (c : Config D) (port : ℕ) (ip : Bytes) (bootstrap_port : ℕ) (s : Node D N)
      → Reach D J N c (initial_node D N port ip bootstrap_port) s
      → (login : Bytes) (id : D.InfoHash) (text : Bytes)
      → (send_message D J N c login id text s).0 ≡ ok tt
  reachable_send_message_returns c port ip bootstrap_port s w login id text =
      send_message_returns c login id text s (Reach-NodeIsKeyed D J N port ip bootstrap_port w)

  send_message_undefined :
      (c : Config D) (login : Bytes) (id : D.InfoHash) (address ip text : Bytes) (port : ℕ)
      (s : Node D N)
      → resolve D N login id s ≡ some address
      → get_public_key_by_public_key_id D N id s ≡ none
      → get_ip_and_port_from_address address ≡ ok (ip, port)
      → send_message D J N c login id text s ≡ (undefined, s)
  unfolding send_message Sender.send_message send
  send_message_undefined c login id address ip text port s e f g = rw (e, send_message, f, g)

  -- Between the two critical sections of `put` for an id that had no key yet, a message to the id
  -- follows a null pointer; where the address that `put` enters is a text without a colon and its
  -- port is less than 2 ^ 16.
  pub send_message_mid_put :
      (c : Config D) (login : Bytes) (id : D.InfoHash) (ip text : Bytes) (port : ℕ) (s : Node D N)
      → Lacks b':' ip
      → port < 2 ^ 16
      → get_public_key_by_public_key_id D N id s ≡ none
      → let t = record s { metadata = put_address D login id (address_of ip port) s.metadata } in
        send_message D J N c login id text t ≡ (undefined, t)
  unfolding resolve get_public_key_by_public_key_id
  send_message_mid_put c login id ip text port s lacks fits unknown =
      let t : Node D N = record s {
        metadata = put_address D login id (address_of ip port) s.metadata;
      } in
      send_message_undefined c login id (address_of ip port) ip text port t
        (rw (
          resolve-put_address D login login id id (address_of ip port) s.metadata,
          beq_refl ⦃e = bytes_eq⦄ login,
          beq_refl ⦃e = D.id_eq⦄ id,
        ))
        (rw (get-put_address D login id id (address_of ip port) s.metadata) unknown)
        (get_ip_and_port-address_of ip port lacks fits)
