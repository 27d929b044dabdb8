-- ===== src/Text/Numbers.antt =====
-- A number is read back from its decimal digits.
use website_ai_assistant.Prelude.{
  ℕ, zero, suc, ◌+◌, ◌-◌, ◌*◌, ◌/◌, ◌%◌, ◌<◌, Bool, true, false, ◌&&◌, [], ◌∷◌, ◌++◌, All,
  All-append, if◌then◌else◌, ltb, leb, ◌≡◌, refl, ap, ◌∙◌, arith, Bool-cases, inl, inr,
}
use website_ai_assistant.Text.{Text}
use website_ai_assistant.Text.Decimal.{decimal_from, decimal}

abbrev pub is_decimal : ℕ → Bool
is_decimal c = leb 48 c && leb c 57

unfoldable pub number_from : ℕ → Text → ℕ
number_from acc [] = acc
number_from acc (c ∷ s) = number_from (acc * 10 + (c - 48)) s

number_from-last :
    (acc c : ℕ) (s : Text) → number_from acc (s ++ c ∷ []) ≡ number_from acc s * 10 + (c - 48)
unfolding number_from
number_from-last acc c [] = refl
number_from-last acc c (d ∷ s) = number_from-last (acc * 10 + (d - 48)) c s

decimal_from_small : (f n : ℕ) → ltb n 10 ≡ true → decimal_from (suc f) n ≡ (48 + n) ∷ []
unfolding decimal_from
decimal_from_small f n h = rw h

decimal_from_large :
    (f n : ℕ)
    → ltb n 10 ≡ false
    → decimal_from (suc f) n ≡ decimal_from f (n / 10) ++ (48 + n % 10) ∷ []
unfolding decimal_from
decimal_from_large f n h = rw h

number_from-decimal_from : (f n : ℕ) → n < f → number_from 0 (decimal_from f n) ≡ n
number_from-decimal_from zero n h = absurd (omega arith)
number_from-decimal_from (suc f) n h = elim (Bool-cases (ltb n 10)) [
  | inl small ↦
      ap (number_from 0) (decimal_from_small f n small) ∙ (unfold number_from in omega arith)
  | inr large ↦
      ap (number_from 0) (decimal_from_large f n large)
      ∙ number_from-last 0 (48 + n % 10) (decimal_from f (n / 10))
      ∙ omega (arith, number_from-decimal_from f (n / 10) (ground arith))
]

decimal_from-digits : (f n : ℕ) → All (λ c. is_decimal c ≡ true) (decimal_from f n)
decimal_from-digits zero n = unfold decimal_from in tt
decimal_from-digits (suc f) n = elim (Bool-cases (ltb n 10)) [
  | inl small ↦ rw (decimal_from_small f n small) (ground arith, tt)
  | inr large ↦ rw (decimal_from_large f n large) (
      All-append (λ c. is_decimal c ≡ true) (decimal_from f (n / 10)) _
        (decimal_from-digits f (n / 10)) (ground arith, tt))
]

pub decimal-digits : (n : ℕ) → All (λ c. is_decimal c ≡ true) (decimal n)
unfolding decimal
decimal-digits n = decimal_from-digits (suc n) n

-- The number that a text begins with.
unfoldable pub leading : ℕ → Text → ℕ
leading acc [] = acc
leading acc (c ∷ s) =
    let rest = leading (acc * 10 + (c - 48)) s in if is_decimal c then rest else acc

leading-digits :
    (acc : ℕ) (ds : Text) (c : ℕ) (s : Text)
    → All (λ d. is_decimal d ≡ true) ds
    → is_decimal c ≡ false
    → leading acc (ds ++ c ∷ s) ≡ number_from acc ds
unfolding leading number_from
leading-digits acc [] c s h e = rw e
leading-digits acc (d ∷ ds) c s (p, h) e = rw p (leading-digits (acc * 10 + (d - 48)) ds c s h e)

pub leading-decimal :
    (n c : ℕ) (s : Text) → is_decimal c ≡ false → leading 0 (decimal n ++ c ∷ s) ≡ n
unfolding decimal
leading-decimal n c s e =
    leading-digits 0 (decimal n) c s (decimal-digits n) e
    ∙ number_from-decimal_from (suc n) n (omega arith)
