-- ===== src/Markdown/Safe.antt =====
-- The marked-up text holds no tag but those that the renderer writes.
use mathlib.Core.Path.{subst}
use website_ai_assistant.Prelude.{
  ℕ, zero, suc, ◌-◌, ◌≤◌, [], ◌∷◌, ◌++◌, append_assoc, Option, none, some, length, drop, All, arith,
  ◌≡◌, ◌≢◌, refl, sym, ap, ◌∙◌, ◌⊎◌, inl, inr, Option-cases, length-append, length-drop,
}
use website_ai_assistant.Text.{Text, text}
use website_ai_assistant.Escape.Laws.{IsInert}
use website_ai_assistant.Markdown.Inline.{Match, replace_from}

pub data Tag : Type 0 where
  strong_open strong_close em_open em_close code_open code_close : Tag

unfoldable pub tag_text : Tag → Text
unfolding text
tag_text strong_open = text "<strong>"
tag_text strong_close = text "</strong>"
tag_text em_open = text "<em>"
tag_text em_close = text "</em>"
tag_text code_open = text "<code>"
tag_text code_close = text "</code>"

-- Inert characters, and the renderer's own tags.
pub data IsMarkup : Text → Type 0 where
  done : IsMarkup []
  char : {c : ℕ} {s : Text} → IsInert c → IsMarkup s → IsMarkup (c ∷ s)
  tag : {u : Text} (t : Tag) {s : Text} → u ≡ tag_text t ++ s → IsMarkup s → IsMarkup u

-- The characters that mark up text; no tag holds one.
abbrev pub IsMark : ℕ → Type 0
IsMark c = (c ≡ b'*') ⊎ (c ≡ b'_') ⊎ (c ≡ 96)

abbrev Lacks : ℕ → Text → Type 0
Lacks mark = All (λ c. c ≢ mark)

tag_text-Lacks : (mark : ℕ) (t : Tag) → IsMark mark → Lacks mark (tag_text t)
unfolding tag_text
tag_text-Lacks mark strong_open h = omega arith
tag_text-Lacks mark _ h = omega arith

tag_text_plain : (t : Tag) → All (λ c. ¬ IsMark c) (tag_text t)
unfolding tag_text
tag_text_plain strong_open = ground arith
tag_text_plain _ = ground arith

shorter :
    (t : Tag) {u : Text} (s : Text) {f : ℕ} → u ≡ tag_text t ++ s → length u ≤ f → length s ≤ f
shorter t s e l = omega (arith, ap length e, length-append (tag_text t) s)

drop_shorter : {f : ℕ} (n : ℕ) (s : Text) → suc (length s) ≤ suc f → length (drop n s) ≤ f
drop_shorter n s l = omega (arith, length-drop n s)

pub IsMarkup-append : {s t : Text} → IsMarkup s → IsMarkup t → IsMarkup (s ++ t)
IsMarkup-append done k = k
IsMarkup-append (char i h) k = char i (IsMarkup-append h k)
IsMarkup-append {t = w} (tag t {s} e h) k =
    tag t (ap (λ x. x ++ w) e ∙ append_assoc (tag_text t) s w) (IsMarkup-append h k)

pub IsMarkup-tag : (t : Tag) {s : Text} → IsMarkup s → IsMarkup (tag_text t ++ s)
IsMarkup-tag t h = tag t refl h

pub IsMarkup-of_inert : (s : Text) → All IsInert s → IsMarkup s
IsMarkup-of_inert [] h = done
IsMarkup-of_inert (c ∷ s) (i, h) = char i (IsMarkup-of_inert s h)

-- A text without the mark stands wholly in front of the mark.
Lacks-split :
    {mark : ℕ} (r x : Text) {s y : Text}
    → Lacks mark r
    → r ++ s ≡ x ++ mark ∷ y
    → (x' : Text) × (x ≡ r ++ x') × (s ≡ x' ++ mark ∷ y)
Lacks-split [] x h e = (x, refl, e)
Lacks-split (c ∷ r) [] (p, h) e = absurd (p (ground arith))
Lacks-split (c ∷ r) (d ∷ x) (p, h) e =
    let (x', f, g) = Lacks-split r x h (ground arith) in (x', ground arith, g)

pub record Splits (mark : ℕ) (x y : Text) : Type 0 where
  pub before : IsMarkup x
  pub behind : IsMarkup y

cons-head : {c d : ℕ} {s t : Text} → c ∷ s ≡ d ∷ t → c ≡ d
cons-head e = cc

nil-ne-mark : (mark : ℕ) (x y : Text) → [] ≢ x ++ mark ∷ y
nil-ne-mark mark [] y e = cc
nil-ne-mark mark (d ∷ x) y e = cc

-- Markup may be cut at a mark.
pub IsMarkup-split :
    {mark : ℕ} {u : Text} (x : Text) {y : Text}
    → IsMark mark
    → IsMarkup u
    → u ≡ x ++ mark ∷ y
    → Splits mark x y
IsMarkup-split x m done e = absurd (nil-ne-mark _ x _ e)
IsMarkup-split [] m (char i h) e = record {
  before = done;
  behind = subst IsMarkup (ground arith) h;
}
IsMarkup-split (d ∷ x) m (char {c} i h) e =
    let cut = IsMarkup-split x m h (ground arith) in
    record { before = char (subst IsInert (cons-head e) i) cut.before; behind = cut.behind }
IsMarkup-split {mark} x m (tag t e' h) e =
    let (x', f, g) = Lacks-split (tag_text t) x (tag_text-Lacks mark t m) (sym e' ∙ e) in
    let cut = IsMarkup-split x' m h g in record { before = tag t f cut.before; behind = cut.behind }

-- What a pattern promises: it starts at a mark, and where markup matches, the replacement and
-- what is left are markup.
pub record IsPattern (m : Option ℕ → Text → Match) : Type 0 where
  pub needs_mark :
      (prev : Option ℕ) (c : ℕ) (s : Text) {r : ℕ × Text} → m prev (c ∷ s) ≡ some r → IsMark c
  pub keeps :
      (prev : Option ℕ) (c : ℕ) (s : Text) {n : ℕ} {out : Text}
      → m prev (c ∷ s) ≡ some (n, out)
      → IsMarkup (c ∷ s)
      → IsMarkup out × IsMarkup (drop (n - 1) s)

module _ (m : Option ℕ → Text → Match) where
  replace_from-drop :
      (k : ℕ) (prev : Option ℕ) (s : Text)
      → ((q : Option ℕ) → IsMarkup (replace_from m q 0 (drop k s)))
      → IsMarkup (replace_from m prev k s)
  unfolding replace_from
  replace_from-drop zero prev s h = h prev
  replace_from-drop (suc k) prev [] h = h prev
  replace_from-drop (suc k) prev (c ∷ s) h = replace_from-drop k (some c) s h

  replace_from-none :
      (prev : Option ℕ) (c : ℕ) (s : Text)
      → m prev (c ∷ s) ≡ none
      → replace_from m prev 0 (c ∷ s) ≡ c ∷ replace_from m (some c) 0 s
  unfolding replace_from
  replace_from-none prev c s e = ground arith

  replace_from-some :
      (prev : Option ℕ) (c : ℕ) (s : Text) {n : ℕ} {out : Text}
      → m prev (c ∷ s) ≡ some (n, out)
      → replace_from m prev 0 (c ∷ s) ≡ out ++ replace_from m (some c) (n - 1) s
  unfolding replace_from
  replace_from-some prev c s e = ground arith

  module _ (p : IsPattern m) where
    -- A text without marks is copied.
    replace_from_plain :
        (prev : Option ℕ) (r s : Text)
        → All (λ c. ¬ IsMark c) r
        → (q : Option ℕ) × (replace_from m prev 0 (r ++ s) ≡ r ++ replace_from m q 0 s)
    replace_from_plain prev [] s h = (prev, refl)
    replace_from_plain prev (c ∷ r) s (no_mark, h) = elim (Option-cases (m prev (c ∷ r ++ s))) [
      | inl e ↦
          let (q, f) = replace_from_plain (some c) r s h in
          (q, replace_from-none prev c (r ++ s) e ∙ ap (◌∷◌ c) f)
      | inr (r, e) ↦ absurd (no_mark (p.needs_mark prev c _ e))
    ]

    replace_from_fuel :
        (f : ℕ) (prev : Option ℕ) {s : Text}
        → length s ≤ f
        → IsMarkup s
        → IsMarkup (replace_from m prev 0 s)
    replace_from_fuel f prev l done = unfold replace_from in done
    replace_from_fuel f prev l (tag t {s} e h) =
        let (q, g) = replace_from_plain prev (tag_text t) s (tag_text_plain t) in
        tag t (ap (replace_from m prev 0) e ∙ g) (replace_from_fuel f q (shorter t s e l) h)
    replace_from_fuel zero prev l (char i h) = absurd (omega arith)
    replace_from_fuel (suc f) prev l (char {c} {s} i h) = elim (Option-cases (m prev (c ∷ s))) [
      | inl e ↦
          subst IsMarkup (sym (replace_from-none prev c s e))
            (char i (replace_from_fuel (suc f) (some c) (omega arith) h))
      | inr ((n, out), e) ↦
          let (matched, left) = p.keeps prev c s e (char i h) in
          subst IsMarkup (sym (replace_from-some prev c s e)) (
            IsMarkup-append matched (
              replace_from-drop (n - 1) (some c) s
                (λ q. replace_from_fuel f q (drop_shorter (n - 1) s l) left)))
    ]

    pub replace_from-IsMarkup : (s : Text) → IsMarkup s → IsMarkup (replace_from m none 0 s)
    replace_from-IsMarkup s h = replace_from_fuel (length s) none (omega arith) h
