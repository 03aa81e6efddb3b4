-- ===== src/Prelude/Equality.antt =====
-- Equality tests as an interface, for the keys of maps.
use Prim.Native.Nat.{ℕ}
use mathlib.Core.Path.{◌≡◌, refl, subst}
use mathlib.Core.Logic.{◌↔◌, ◌≢◌, inl, inr}
use mathlib.Core.Bool.{Bool, true, false, ◌&&◌}
use mathlib.Core.List.{List, [], ◌∷◌}
use native.Mathlib.Omega.{arith}
use p2p_messenger.Prelude.Tests.{◌==◌ as nat_beq, Bool-cases}

pub record Eq {ℓ} (A : Type ℓ) : Type ℓ where
  pub beq : A → A → Bool
  pub beq_iff : (a b : A) → (beq a b ≡ true) ↔ (a ≡ b)

module _ {ℓ} {A : Type ℓ} ⦃e : Eq A⦄ where
  pub beq_refl : (a : A) → e.beq a a ≡ true
  beq_refl a = (e.beq_iff a a).1 refl

  pub beq_ne : (a b : A) → a ≢ b → e.beq a b ≡ false
  beq_ne a b h = elim (Bool-cases (e.beq a b)) [
    | inl p ↦ absurd (h ((e.beq_iff a b).0 p))
    | inr p ↦ p
  ]

unfoldable pub bytes_beq : List ℕ → List ℕ → Bool
bytes_beq [] [] = true
bytes_beq [] (y ∷ ys) = false
bytes_beq (x ∷ xs) [] = false
bytes_beq (x ∷ xs) (y ∷ ys) = nat_beq x y && bytes_beq xs ys

bytes_beq→eq : (xs ys : List ℕ) → bytes_beq xs ys ≡ true → xs ≡ ys
unfolding bytes_beq
bytes_beq→eq [] [] h = refl
bytes_beq→eq [] (y ∷ ys) h = cc
bytes_beq→eq (x ∷ xs) [] h = cc
bytes_beq→eq (x ∷ xs) (y ∷ ys) h = ground (arith, bytes_beq→eq xs ys)

bytes_beq_self : (xs : List ℕ) → bytes_beq xs xs ≡ true
unfolding bytes_beq
bytes_beq_self [] = refl
bytes_beq_self (x ∷ xs) = ground (arith, bytes_beq_self xs)

pub bytes_beq_iff : (xs ys : List ℕ) → (bytes_beq xs ys ≡ true) ↔ (xs ≡ ys)
bytes_beq_iff xs ys =
    (bytes_beq→eq xs ys, λ e. subst (λ z. bytes_beq xs z ≡ true) e (bytes_beq_self xs))

-- Equality of two `std::string`s, or of two vectors of bytes.
instance abbrev pub bytes_eq : Eq (List ℕ)
bytes_eq = record { beq = bytes_beq; beq_iff = bytes_beq_iff }
