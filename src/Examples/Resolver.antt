-- ===== src/Examples/Resolver.antt =====
-- Addresses, resolvers and history at concrete inputs.
use mathlib.Core.List.{Perm}
use p2p_messenger.Prelude.{
  ℕ, List, map, ◌++◌, ◌≡◌, refl, some, none, arith, true, false, [], ◌∷◌, bytes_eq,
}
use p2p_messenger.Prelude.Bytes.{Bytes}
use p2p_messenger.Prelude.Outcome.{ok, throw, invalid_argument}
use p2p_messenger.Address.{find_char}
use p2p_messenger.Prelude.Map.{find}
use p2p_messenger.Resolver.Book.{resolve}
use p2p_messenger.Resolver.Dht.{
  DhtIpResolver, dht_ip_resolver, destroy, put_signed, listen, Value, listen_callback, is_some,
  cancel_listen, join, start_listening,
}
use p2p_messenger.Resolver.Dht.Listening.{
  here, next, listens, publishes, destroy_cancels_all, cancelled, listened, listen_race,
  constructor-IsRegistered,
}
use p2p_messenger.Resolver.Dht.Values.{
  listen_callback_stores, listen_callback_malformed, stored, contacts, latest,
}
use p2p_messenger.Examples.Libraries.{dht}

-- 1.2
abbrev ip : Bytes
ip = b'1' ∷ b'.' ∷ b'2' ∷ []

abbrev fresh : DhtIpResolver dht
fresh = dht_ip_resolver dht 4661 ip 4662

abbrev listening : DhtIpResolver dht
listening = listen dht (b'a' ∷ []) 7 (put_signed dht (b'm' ∷ []) ip 4660 fresh)

destroy_cancels_all_example :
    (cancelled dht listening.calls ≡ [])
    × (registrations : List (Bytes × ℕ)) × Perm registrations (listened dht listening.calls)
    × ((destroy dht listening).calls
        ≡ listening.calls
          ++ (map (λ (c : Bytes × ℕ). cancel_listen c.0 c.1) registrations ++ (join ∷ [])))
destroy_cancels_all_example =
    destroy_cancels_all dht 4661 ip 4662 listening
      (next (next here (publishes (b'm' ∷ []) ip 4660)) (listens (b'a' ∷ []) 7))

listen_race_example :
    let s = start_listening dht (b'a' ∷ []) 8 (start_listening dht (b'a' ∷ []) 7 fresh) in
    Perm (listened dht s.calls) ((dht.hash (b'a' ∷ []), 7) ∷ cancelled dht (destroy dht s).calls)
unfolding find dht_ip_resolver
listen_race_example =
    listen_race dht (b'a' ∷ []) 7 8 fresh (constructor-IsRegistered dht 4661 ip 4662) refl

abbrev good : Value dht
good = record { content = b'1' ∷ b':' ∷ b'2' ∷ []; owner = some (5 ∷ []) }

has_colon : is_some (find_char b':' good.content) ≡ true
unfolding find_char
has_colon = refl

listen_callback_stores_example :
    let after = listen_callback dht (b'a' ∷ []) (good ∷ []) false fresh in
    (after.0 ≡ ok true)
    × ((id : Bytes)
        → resolve dht (b'a' ∷ []) id after.1.book
          ≡ latest dht id (good ∷ []) (resolve dht (b'a' ∷ []) id fresh.book))
    × (after.2 ≡ contacts dht (b'a' ∷ []) (good ∷ []))
listen_callback_stores_example =
    listen_callback_stores dht (b'a' ∷ []) (good ∷ []) fresh (has_colon, tt)

-- No colon in it.
abbrev bad : Value dht
bad = record { content = b'x' ∷ []; owner = none }

listen_callback_malformed_example :
    listen_callback dht (b'a' ∷ []) ((good ∷ []) ++ (bad ∷ good ∷ [])) false fresh ≡ (
      throw invalid_argument,
      record fresh { book = stored dht (b'a' ∷ []) (good ∷ []) fresh.book },
      contacts dht (b'a' ∷ []) (good ∷ []),
    )
listen_callback_malformed_example =
    listen_callback_malformed dht (b'a' ∷ []) (good ∷ []) (good ∷ []) bad fresh (has_colon, tt)
      (ground arith)
