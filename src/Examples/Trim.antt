-- ===== src/Examples/Trim.antt =====
-- Trimming as it may be written, for Libraries.antt.
use p2p_messenger.Prelude.{ℕ, ◌≡◌, refl, Bool, true, false, ◌&&◌, [], ◌∷◌, ◌++◌, if◌then◌else◌}
use p2p_messenger.Prelude.Bytes.{Bytes}
use p2p_messenger.Address.{is_space, skip_spaces}
use p2p_messenger.External.{IsWord, IsBlank}
use p2p_messenger.LoginPage.Input.{is_empty}

unfoldable pub trim_right : Bytes → Bytes
trim_right [] = []
trim_right (c ∷ s) = let rest = trim_right s in if is_empty rest && is_space c then [] else c ∷ rest

unfoldable pub trim : Bytes → Bytes
trim s = skip_spaces (trim_right s)

trim_right-blank : (s : Bytes) → IsBlank s → trim_right s ≡ []
unfolding trim_right
trim_right-blank [] h = refl
trim_right-blank (c ∷ s) h = rw (trim_right-blank s h.1, h.0)

IsBlank-append : (s t : Bytes) → IsBlank s → IsBlank t → IsBlank (s ++ t)
IsBlank-append [] t h k = k
IsBlank-append (c ∷ s) t h k = (h.0, IsBlank-append s t h.1 k)

trim_right-word : (w after : Bytes) → IsWord w → IsBlank after → trim_right (w ++ after) ≡ w
unfolding trim_right
trim_right-word [] after h b = trim_right-blank after b
trim_right-word (c ∷ w) after h b = rw (trim_right-word w after h.1 b, h.0, and_false (is_empty w))
  where
    and_false : (x : Bool) → (x && false) ≡ false
    and_false true = refl
    and_false false = refl

not_empty : (s w : Bytes) (c : ℕ) → is_empty (s ++ (c ∷ w)) ≡ false
not_empty [] w c = refl
not_empty (x ∷ s) w c = refl

trim_right-around :
    (before w after : Bytes) (c : ℕ)
    → IsWord (c ∷ w)
    → IsBlank after
    → trim_right (before ++ ((c ∷ w) ++ after)) ≡ before ++ (c ∷ w)
unfolding trim_right
trim_right-around [] w after c h b = trim_right-word (c ∷ w) after h b
trim_right-around (x ∷ before) w after c h b =
    rw (trim_right-around before w after c h b, not_empty before w c)

skip_spaces-around :
    (before w : Bytes) (c : ℕ)
    → IsBlank before
    → IsWord (c ∷ w)
    → skip_spaces (before ++ (c ∷ w)) ≡ c ∷ w
unfolding skip_spaces
skip_spaces-around [] w c g h = rw h.0
skip_spaces-around (x ∷ before) w c g h = rw g.0 (skip_spaces-around before w c g.1 h)

-- Trimming takes the spaces on both sides, and nothing else.
pub trim_around :
    (before w after : Bytes)
    → IsBlank before
    → IsWord w
    → IsBlank after
    → trim (before ++ (w ++ after)) ≡ w
unfolding trim skip_spaces
trim_around before [] after g h b =
    rw (trim_right-blank (before ++ after) (IsBlank-append before after g b))
trim_around before (c ∷ w) after g h b =
    rw (trim_right-around before w after c h b) (skip_spaces-around before w c g h)
