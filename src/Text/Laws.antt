-- ===== src/Text/Laws.antt =====
-- `===` on texts is equality.
use website_ai_assistant.Prelude.{true, false, [], ◌∷◌, ◌≡◌, ◌↔◌, refl, arith}
use website_ai_assistant.Text.{Text, eq_text}

pub eq_text_iff : (s t : Text) → (eq_text s t ≡ true) ↔ (s ≡ t)
unfolding eq_text
eq_text_iff [] [] = ground arith
eq_text_iff (c ∷ s) (d ∷ t) = ground (arith, eq_text_iff s t)
eq_text_iff _ _ = ground arith

pub eq_text_refl : (s : Text) → eq_text s s ≡ true
eq_text_refl s = (eq_text_iff s s).1 refl

-- A text is not equal to two different ones.
pub eq_text_apart : (s a b : Text) → eq_text a b ≡ false → eq_text s a ≡ true → eq_text s b ≡ false
eq_text_apart s a b ne h = ground (arith, eq_text_iff s a, eq_text_iff s b, eq_text_iff a b)
