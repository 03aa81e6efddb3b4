-- ===== src/Prelude/Map.antt =====
-- `std::map` as an association list: a key is inserted once and then overwritten in place.
use mathlib.Core.Path.{◌≡◌, refl}
use mathlib.Core.Option.{Option, none, some}
use mathlib.Core.List.{List, [], ◌∷◌}
use native.Mathlib.Omega.{arith}
use p2p_messenger.Prelude.Tests.{if◌then◌else◌}
use p2p_messenger.Prelude.Equality.{Eq, beq_refl, beq_ne}
use mathlib.Core.Logic.{◌≢◌}

abbrev pub Map {ℓ κ} : Type ℓ → Type κ → Type (ℓ ⊔ κ)
Map K V = List (K × V)

module _ {ℓ κ} {K : Type ℓ} {V : Type κ} ⦃e : Eq K⦄ where
  unfoldable pub find : K → Map K V → Option V
  find k [] = none
  find k ((j, v) ∷ m) = if e.beq j k then some v else find k m

  -- `m[k] = v`
  unfoldable pub insert : K → V → Map K V → Map K V
  insert k v [] = (k, v) ∷ []
  insert k v ((j, w) ∷ m) = if e.beq j k then (k, v) ∷ m else (j, w) ∷ insert k v m

  pub find-insert :
      (j k : K) (v : V) (m : Map K V)
      → find j (insert k v m) ≡ (if e.beq k j then some v else find j m)
  unfolding find insert
  find-insert j k v [] = refl
  find-insert j k v ((i, w) ∷ m) =
      ground (arith, e.beq_iff i k, e.beq_iff k j, e.beq_iff i j, find-insert j k v m)

  pub find-insert_self : (k : K) (v : V) (m : Map K V) → find k (insert k v m) ≡ some v
  find-insert_self k v m = rw (find-insert k k v m, beq_refl k)

  pub find-insert_ne : (j k : K) (v : V) (m : Map K V) → k ≢ j → find j (insert k v m) ≡ find j m
  find-insert_ne j k v m h = rw (find-insert j k v m, beq_ne k j h)
