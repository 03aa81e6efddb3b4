-- ===== src/Resolver/Dht/Listening.antt =====
-- Registrations with the node: made once for each login, and taken back at the end.
use p2p_messenger.Prelude.{
  subst, ℕ, ◌≡◌, refl, sym, ap, ◌∙◌, Bool, false, List, [], ◌∷◌, ◌++◌, map, arith, append-nil,
  append_assoc, bytes_eq, Bool-cases, inl, inr, beq_refl,
}
use p2p_messenger.Prelude.Bytes.{Bytes}
use p2p_messenger.Prelude.Map.{Map, find, insert, find-insert_self}
use p2p_messenger.External.{OpenDht}
use p2p_messenger.Resolver.Dht.{
  DhtIpResolver, NodeCall, put_value, put_signed_value, listen_for, cancel_listen, Pending, puts,
  puts_signed, listen, start_listening, is_listening, is_some, destroy, fire, put_signed,
  dht_ip_resolver, bytes_less, place, in_order, join,
}
use mathlib.Core.List.{perm_middle}
use mathlib.Core.List.{map-append, map-map, Perm}
use mathlib.Core.List.Perm
use p2p_messenger.Address.{address_of}

-- A new key goes to the end of a map.
insert_absent :
    {V : Type 0} (k : Bytes) (v : V) (m : Map Bytes V)
    → is_some (find k m) ≡ false
    → insert k v m ≡ m ++ ((k, v) ∷ [])
unfolding find insert
insert_absent k v [] h = refl
insert_absent k v ((j, w) ∷ m) h = ground (arith, insert_absent k v m)

insert_last :
    {V : Type 0} (k : Bytes) (v w : V) (m : Map Bytes V)
    → is_some (find k m) ≡ false
    → insert k w (m ++ ((k, v) ∷ [])) ≡ m ++ ((k, w) ∷ [])
unfolding find insert
insert_last k v w [] h = rw (beq_refl ⦃e = bytes_eq⦄ k)
insert_last k v w ((j, x) ∷ m) h = ground (arith, insert_last k v w m)

place-Perm : {V : Type 0} (entry : Bytes × V) (m : Map Bytes V) → Perm (place entry m) (entry ∷ m)
unfolding place
place-Perm entry [] = Perm.rfl
place-Perm entry (other ∷ m) = elim (Bool-cases (bytes_less other.0 entry.0)) [
  | inl before ↦
      rw before (Perm.trans (Perm.cons other (place-Perm entry m)) (Perm.swap entry other m))
  | inr behind ↦ rw behind Perm.rfl
]

pub in_order-Perm : {V : Type 0} (m : Map Bytes V) → Perm (in_order m) m
unfolding in_order
in_order-Perm [] = Perm.rfl
in_order-Perm (entry ∷ m) =
    Perm.trans (place-Perm entry (in_order m)) (Perm.cons entry (in_order-Perm m))

module _ (D : OpenDht) where
  -- A second `listen` for a login changes nothing.
  pub listen_twice :
      (login : Bytes) (token token' : ℕ) (r : DhtIpResolver D)
      → listen D login token' (listen D login token r) ≡ listen D login token r
  unfolding listen
  listen_twice login token token' r = elim (Bool-cases (is_listening D login r)) [
    | inl old ↦ rw (old, old)
    | inr new ↦ rw (new, find-insert_self login token r.login_to_token)
  ]

  -- The registrations that the node was asked for, each a key with the token that the node gave, and
  -- those taken back.
  pub listened : List (NodeCall D) → List (D.InfoHash × ℕ)
  listened [] = []
  listened (listen_for key token ∷ calls) = (key, token) ∷ listened calls
  listened (_ ∷ calls) = listened calls

  pub cancelled : List (NodeCall D) → List (D.InfoHash × ℕ)
  cancelled [] = []
  cancelled (cancel_listen key token ∷ calls) = (key, token) ∷ cancelled calls
  cancelled (_ ∷ calls) = cancelled calls

  abbrev pub keys : Map Bytes ℕ → List (D.InfoHash × ℕ)
  keys = map (λ (entry : Bytes × ℕ). (D.hash entry.0, entry.1))

  listened-append : (xs ys : List (NodeCall D)) → listened (xs ++ ys) ≡ listened xs ++ listened ys
  unfolding listened
  listened-append [] ys = refl
  listened-append (listen_for key token ∷ xs) ys = ap (◌∷◌ (key, token)) (listened-append xs ys)
  listened-append (_ ∷ xs) ys = listened-append xs ys

  cancelled-append :
      (xs ys : List (NodeCall D)) → cancelled (xs ++ ys) ≡ cancelled xs ++ cancelled ys
  unfolding cancelled
  cancelled-append [] ys = refl
  cancelled-append (cancel_listen key token ∷ xs) ys =
      ap (◌∷◌ (key, token)) (cancelled-append xs ys)
  cancelled-append (_ ∷ xs) ys = cancelled-append xs ys

  -- There is a token for each registration, and nothing was taken back yet.
  pub record IsRegistered (r : DhtIpResolver D) : Type 0 where
    pub tokens : listened r.calls ≡ keys r.login_to_token
    pub none_cancelled : cancelled r.calls ≡ []

  -- What happens to a resolver while it lives, but for the found values, which touch the book alone.
  pub data Step (r : DhtIpResolver D) : DhtIpResolver D → Type 0 where
    listens : (login : Bytes) (token : ℕ) → Step r (listen D login token r)
    publishes : (login ip : Bytes) (port : ℕ) → Step r (put_signed D login ip port r)
    fires : (ec : Bool) → Step r (fire D ec r)

  pub data Reach (r : DhtIpResolver D) : DhtIpResolver D → Type 0 where
    here : Reach r r
    next : {s t : DhtIpResolver D} → Reach r s → Step s t → Reach r t

  call-IsRegistered :
      (r : DhtIpResolver D) (c : NodeCall D) (timer : List (Pending D))
      → listened (c ∷ []) ≡ []
      → cancelled (c ∷ []) ≡ []
      → IsRegistered r
      → IsRegistered (record r { calls = r.calls ++ (c ∷ []); timer = timer })
  call-IsRegistered r c timer h k v = record {
    tokens = rw (listened-append r.calls (c ∷ []), h, append-nil) v.tokens;
    none_cancelled = rw (cancelled-append r.calls (c ∷ []), k, append-nil) v.none_cancelled;
  }

  listen-IsRegistered :
      (login : Bytes) (token : ℕ) (r : DhtIpResolver D)
      → IsRegistered r
      → IsRegistered (listen D login token r)
  unfolding listen
  listen-IsRegistered login token r v = elim (Bool-cases (is_listening D login r)) [
    | inl old ↦ rw old v
    | inr new ↦ rw new (record {
      tokens =
          rw
            (
              listened-append r.calls (listen_for (D.hash login) token ∷ []),
              insert_absent login token r.login_to_token new,
              v.tokens,
            )
            (unfold listened in sym (map-append _ r.login_to_token _));
      none_cancelled =
          rw (cancelled-append r.calls (listen_for (D.hash login) token ∷ []), v.none_cancelled)
            (unfold cancelled in refl);
    })
  ]

  fire-IsRegistered :
      (ec : Bool) (r : DhtIpResolver D) (waiting : List (Pending D))
      → r.timer ≡ waiting
      → IsRegistered r
      → IsRegistered (fire D ec r)
  unfolding fire listened cancelled
  fire-IsRegistered ec r [] e v = rw (e, fire) v
  fire-IsRegistered ec r (puts login address ∷ rest) e v =
      rw (e, fire)
        (call-IsRegistered r (put_value (D.hash login) address) (rest ++ (puts login address ∷ []))
          refl refl v)
  fire-IsRegistered ec r (puts_signed login address ∷ rest) e v =
      rw (e, fire)
        (call-IsRegistered r (put_signed_value (D.hash login) address)
          (rest ++ (puts_signed login address ∷ [])) refl refl v)

  Step-IsRegistered : {r s : DhtIpResolver D} → Step r s → IsRegistered r → IsRegistered s
  unfolding put_signed listened cancelled
  Step-IsRegistered (listens login token) v = listen-IsRegistered login token _ v
  Step-IsRegistered {r} (publishes login ip port) v = call-IsRegistered r _ _ refl refl v
  Step-IsRegistered {r} (fires ec) v = fire-IsRegistered ec r r.timer refl v

  Reach-IsRegistered : {r s : DhtIpResolver D} → IsRegistered r → Reach r s → IsRegistered s
  Reach-IsRegistered v here = v
  Reach-IsRegistered v (next w st) = Step-IsRegistered st (Reach-IsRegistered v w)

  pub constructor-IsRegistered :
      (port : ℕ) (ip : Bytes) (bootstrap_port : ℕ)
      → IsRegistered (dht_ip_resolver D port ip bootstrap_port)
  unfolding dht_ip_resolver listened cancelled
  constructor-IsRegistered port ip bootstrap_port = record { tokens = refl; none_cancelled = refl }

  cancelled-tokens :
      (m : Map Bytes ℕ)
      → cancelled (map (λ (entry : Bytes × ℕ). cancel_listen (D.hash entry.0) entry.1) m) ≡ keys m
  unfolding cancelled
  cancelled-tokens [] = refl
  cancelled-tokens (entry ∷ m) = ap (◌∷◌ (D.hash entry.0, entry.1)) (cancelled-tokens m)

  -- What the destructor asks of the node.
  pub destroy_calls :
      (r : DhtIpResolver D)
      → (registrations : List (D.InfoHash × ℕ)) × Perm registrations (keys r.login_to_token)
        × ((destroy D r).calls
            ≡ r.calls
              ++ (map (λ (c : D.InfoHash × ℕ). cancel_listen c.0 c.1) registrations ++ (join ∷ [])))
  unfolding destroy
  destroy_calls r = (
    keys (in_order r.login_to_token),
    Perm.map _ (in_order-Perm r.login_to_token),
    rw map-map refl,
  )

  cancelled-destroy :
      (r : DhtIpResolver D)
      → cancelled (destroy D r).calls ≡ cancelled r.calls ++ keys (in_order r.login_to_token)
  unfolding destroy cancelled
  cancelled-destroy r = simp (cancelled-append, cancelled-tokens, append-nil)

  -- From the constructor on, whatever was listened for and published: the destructor gives back each
  -- registration that was made, once, with its key and the token that the node gave for it, none was
  -- given back before, and then it joins the node.
  pub destroy_cancels_all :
      (port : ℕ) (ip : Bytes) (bootstrap_port : ℕ) (r : DhtIpResolver D)
      → Reach (dht_ip_resolver D port ip bootstrap_port) r
      → (cancelled r.calls ≡ [])
        × (registrations : List (D.InfoHash × ℕ)) × Perm registrations (listened r.calls)
        × ((destroy D r).calls
            ≡ r.calls
              ++ (map (λ (c : D.InfoHash × ℕ). cancel_listen c.0 c.1) registrations ++ (join ∷ [])))
  destroy_cancels_all port ip bootstrap_port r w =
      let v = Reach-IsRegistered (constructor-IsRegistered port ip bootstrap_port) w in
      let (registrations, all, e) = destroy_calls r in
      (v.none_cancelled, registrations, rw v.tokens all, e)

  pub listen_race :
      (login : Bytes) (token token' : ℕ) (r : DhtIpResolver D)
      → IsRegistered r
      → is_listening D login r ≡ false
      → let s = start_listening D login token' (start_listening D login token r) in
        Perm (listened s.calls) ((D.hash login, token) ∷ cancelled (destroy D s).calls)
  unfolding start_listening listened cancelled
  listen_race login token token' r v new =
      let m : Map Bytes ℕ = r.login_to_token ++ ((login, token') ∷ []) in
      rw
        (
          cancelled-destroy (start_listening D login token' (start_listening D login token r)),
          insert_absent login token r.login_to_token new,
          insert_last login token token' r.login_to_token new,
          append_assoc,
          listened-append,
          cancelled-append,
          v.none_cancelled,
          v.tokens,
        )
        (Perm.trans (perm_middle (keys r.login_to_token) ((D.hash login, token') ∷ [])) (
          Perm.cons (D.hash login, token)
            (subst (λ l. Perm l (keys (in_order m)))
              (map-append _ r.login_to_token ((login, token') ∷ []))
              (Perm.symm (Perm.map _ (in_order-Perm m))))))

  -- Runs of the timer, each in time or with an error.
  pub fires_run : List Bool → DhtIpResolver D → DhtIpResolver D
  fires_run [] r = r
  fires_run (ec ∷ rounds) r = fires_run rounds (fire D ec r)

  abbrev pub published : Bytes → Bytes → List Bool → List (NodeCall D)
  published login address = map (λ ec. put_signed_value (D.hash login) address)

  fire_puts_signed :
      (login address : Bytes) (ec : Bool) (r : DhtIpResolver D)
      → r.timer ≡ puts_signed login address ∷ []
      → fire D ec r ≡ record r {
        calls = r.calls ++ (put_signed_value (D.hash login) address ∷ []);
        timer = puts_signed login address ∷ [];
      }
  unfolding fire
  fire_puts_signed login address ec r e = rw (e, fire)

  fires_run_lem :
      (login address : Bytes) (rounds : List Bool) (r : DhtIpResolver D)
      → r.timer ≡ puts_signed login address ∷ []
      → fires_run rounds r ≡ record r {
        calls = r.calls ++ published login address rounds;
        timer = puts_signed login address ∷ [];
      }
  unfolding fires_run
  fires_run_lem login address [] r e = rw (append-nil, ← e)
  fires_run_lem login address (ec ∷ rounds) r e = rw (fire_puts_signed login address ec r e) (
      fires_run_lem login address rounds
        (record r {
          calls = r.calls ++ (put_signed_value (D.hash login) address ∷ []);
          timer = puts_signed login address ∷ [];
        })
        refl
      ∙ rw append_assoc)

  -- The address that is put while nothing waits on the timer is published again at each run of the
  -- timer, whether it ended in time or with an error, and the timer is set again, for ever.
  pub put_signed_republishes :
      (login ip : Bytes) (port : ℕ) (rounds : List Bool) (r : DhtIpResolver D)
      → r.timer ≡ []
      → fires_run rounds (put_signed D login ip port r) ≡ record r {
        calls = r.calls ++ published login (address_of ip port) (false ∷ rounds);
        timer = puts_signed login (address_of ip port) ∷ [];
      }
  unfolding put_signed
  put_signed_republishes login ip port rounds r e =
      fires_run_lem login (address_of ip port) rounds (put_signed D login ip port r) (rw e)
      ∙ rw append_assoc
