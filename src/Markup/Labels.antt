-- ===== src/Markup/Labels.antt =====
-- The ids of a contact form, and where its labels lead.
use website_ai_assistant.Prelude.{
  ℕ, suc, Bool, true, List, [], ◌∷◌, ◌++◌, append_assoc, All, if_both, map, ◌≡◌, refl, ap, sym, ◌∙◌,
  arith,
}
use mathlib.Core.Path.{ap₂}
use website_ai_assistant.Text.{Text, text, eq_text}
use website_ai_assistant.Text.Decimal.{decimal}
use website_ai_assistant.Text.Numbers.{is_decimal, decimal-digits}
use website_ai_assistant.Escape.{escape_char, escape_html}
use website_ai_assistant.Markup.{
  Symbol, char, hole, fixed, put, template, content, next, glue, cuts, attributes, pieces, render,
}
use website_ai_assistant.Markup.Reading.{fits, plug, meant, pieces-render}
use website_ai_assistant.Markup.Bare.{values_in, id_name}
use website_ai_assistant.Markup.Front.{Shell}
use website_ai_assistant.Markup.Form.{
  uid_of, form_head, head_of, form_body_html, form_html, form_body,
}

abbrev pub for_name : Text
for_name = text " for="

render-append : (xs ys : List Symbol) → render (xs ++ ys) ≡ render xs ++ render ys
unfolding render
render-append [] ys = refl
render-append (char c ∷ xs) ys = ap (◌∷◌ c) (render-append xs ys)
render-append (hole x ∷ xs) ys =
    ap (◌++◌ (escape_html x)) (render-append xs ys)
    ∙ sym (append_assoc (escape_html x) (render xs) (render ys))

render-form_body : (uid : Text) → render (form_body uid) ≡ form_body_html (escape_html uid)
unfolding form_body form_body_html render
render-form_body uid = refl

form_body-fits : (uid : Text) → fits content (form_body uid) ≡ true
unfolding form_body fits text fixed put template next
form_body-fits uid = refl

-- The ids of the fields and inputs, and the ids that the labels name.
abbrev pub field_suffixes : List Text
field_suffixes =
    text "-nf"
    ∷ text "-name"
    ∷ text "-ef"
    ∷ text "-email"
    ∷ text "-pf"
    ∷ text "-phone"
    ∷ text "-note"
    ∷ []

abbrev pub label_suffixes : List Text
label_suffixes = text "-name" ∷ text "-email" ∷ text "-phone" ∷ text "-note" ∷ []

abbrev pub suffixed : Text → List Text → List Text
suffixed uid = map (λ s. uid ++ s)

form_body-values :
    (uid : Text)
    → (values_in id_name (form_body uid) ≡ suffixed uid field_suffixes)
      × (values_in for_name (form_body uid) ≡ suffixed uid label_suffixes)
unfolding form_body plug text fixed put template next attributes cuts glue eq_text
form_body-values uid = (refl, refl)

-- A part in front with no id and no label.
abbrev IsPlainHead : List Symbol → Type 0
IsPlainHead ss =
    (rest : List Symbol)
    → (fits content (ss ++ rest) ≡ fits content rest)
      × (values_in id_name (ss ++ rest) ≡ values_in id_name rest)
      × (values_in for_name (ss ++ rest) ≡ values_in for_name rest)

form_head-IsPlainHead : (o : Shell) → IsPlainHead (form_head o)
unfolding form_head fits plug text fixed put template next attributes cuts glue eq_text
form_head-IsPlainHead o rest = (refl, refl, refl)

head_of-IsPlainHead : (compact : Bool) (o : Shell) → IsPlainHead (head_of compact o)
head_of-IsPlainHead compact o =
    if_both IsPlainHead compact {x = form_head o} {y = []} (form_head-IsPlainHead o)
      (λ rest. (refl, refl, refl))

escape_html-append : (s t : Text) → escape_html (s ++ t) ≡ escape_html s ++ escape_html t
unfolding escape_html
escape_html-append [] t = refl
escape_html-append (c ∷ s) t =
    ap (◌++◌ (escape_char c)) (escape_html-append s t)
    ∙ sym (append_assoc (escape_char c) (escape_html s) (escape_html t))

escape_char-digit : (c : ℕ) → is_decimal c ≡ true → escape_char c ≡ c ∷ []
unfolding escape_char
escape_char-digit c h = ground arith

escape_html-digits : (s : Text) → All (λ c. is_decimal c ≡ true) s → escape_html s ≡ s
unfolding escape_html
escape_html-digits [] h = refl
escape_html-digits (c ∷ s) (p, h) = rw (escape_char-digit c p, escape_html-digits s h)

-- The two places that build a form.
pub data Source : Type 0 where
  widget_form handoff_email : Source

abbrev pub source_name : Source → Text
source_name widget_form = text "widget_form"
source_name handoff_email = text "handoff_email"

source-plain : (s : Source) → escape_html (source_name s) ≡ source_name s
unfolding escape_html escape_char text
source-plain widget_form = refl
source-plain handoff_email = refl

uid_of-plain :
    (n : ℕ) (s : Source) → escape_html (uid_of n (source_name s)) ≡ uid_of n (source_name s)
unfolding uid_of text escape_char escape_html
uid_of-plain n s = ap (◌∷◌ b'f') (
    escape_html-append (decimal (suc n)) (source_name s)
    ∙ ap₂ ◌++◌ (escape_html-digits (decimal (suc n)) (decimal-digits (suc n))) (source-plain s))

module _ (compact : Bool) (n : ℕ) (s : Source) (o : Shell) where
  abbrev uid : Text
  uid = uid_of n (source_name s)

  abbrev whole : List Symbol
  whole = head_of compact o ++ form_body uid

  form_html-render : form_html compact uid o ≡ render whole
  unfolding form_html
  form_html-render =
      ap (λ u. render (head_of compact o) ++ form_body_html u) (sym (uid_of-plain n s))
      ∙ ap (◌++◌ (render (head_of compact o))) (sym (render-form_body uid))
      ∙ sym (render-append (head_of compact o) (form_body uid))

  form-values :
      (name : Text) → attributes name [] (pieces (form_html compact uid o)) ≡ values_in name whole
  unfolding meant attributes
  form-values name =
      ap (λ t. attributes name [] (pieces t)) form_html-render
      ∙ ap (attributes name []) (
          pieces-render whole
            ((head_of-IsPlainHead compact o (form_body uid)).0 ∙ form_body-fits uid))

  -- As a browser reads the form: its ids are those of its fields and inputs, and its labels name
  -- the four inputs.
  pub form-ids :
      (attributes id_name [] (pieces (form_html compact uid o)) ≡ suffixed uid field_suffixes)
      × (attributes for_name [] (pieces (form_html compact uid o)) ≡ suffixed uid label_suffixes)
  form-ids =
      let silent = head_of-IsPlainHead compact o (form_body uid) in
      (
        form-values id_name ∙ silent.1 ∙ (form_body-values uid).0,
        form-values for_name ∙ silent.2 ∙ (form_body-values uid).1,
      )
