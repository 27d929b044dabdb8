-- ===== src/Markup/Apart.antt =====
-- Two contact forms share no id.
use website_ai_assistant.Prelude.{
  ℕ, suc, Bool, List, [], ◌∷◌, ◌++◌, append_assoc, All, drop, ◌≡◌, ◌≢◌, refl, ap, sym, ◌∙◌, arith,
}
use mathlib.Core.Path.{subst}
use website_ai_assistant.Text.{Text, text}
use website_ai_assistant.Text.Decimal.{decimal}
use website_ai_assistant.Text.Numbers.{leading, leading-decimal}
use website_ai_assistant.Markup.{attributes, pieces}
use website_ai_assistant.Markup.Bare.{id_name}
use website_ai_assistant.Markup.Front.{Shell}
use website_ai_assistant.Markup.Form.{uid_of, form_html}
use website_ai_assistant.Markup.Labels.{
  Source, widget_form, handoff_email, source_name, suffixed, field_suffixes, form-ids,
}

-- The counter that an id was made with.
counter_of : Text → ℕ
counter_of id = leading 0 (drop 1 id)

leading-source : (n : ℕ) (s : Source) (t : Text) → leading 0 (decimal n ++ (source_name s ++ t)) ≡ n
unfolding text
leading-source n widget_form t = leading-decimal n b'w' (text "idget_form" ++ t) refl
leading-source n handoff_email t = leading-decimal n b'h' (text "andoff_email" ++ t) refl

counter_of-uid_of :
    (n : ℕ) (s : Source) (t : Text) → counter_of (uid_of n (source_name s) ++ t) ≡ suc n
unfolding counter_of uid_of text
counter_of-uid_of n s t =
    ap (leading 0) (append_assoc (decimal (suc n)) (source_name s) t) ∙ leading-source (suc n) s t

apart_from :
    (n m : ℕ) (s r : Source) (t : Text) (us : List Text)
    → n ≢ m
    → All (λ j. uid_of n (source_name s) ++ t ≢ j) (suffixed (uid_of m (source_name r)) us)
apart_from n m s r t [] h = tt
apart_from n m s r t (u ∷ us) h = (
  λ e. h (omega (arith, sym (counter_of-uid_of n s t) ∙ ap counter_of e ∙ counter_of-uid_of m r u)),
  apart_from n m s r t us h,
)

suffixed-apart :
    (n m : ℕ) (s r : Source) (ts us : List Text)
    → n ≢ m
    → All
        (λ i. All (λ j. i ≢ j) (suffixed (uid_of m (source_name r)) us))
        (suffixed (uid_of n (source_name s)) ts)
suffixed-apart n m s r [] us h = tt
suffixed-apart n m s r (t ∷ ts) us h = (apart_from n m s r t us h, suffixed-apart n m s r ts us h)

-- The ids of a form as a browser reads it.
abbrev pub ids_of : Bool → ℕ → Source → Shell → List Text
ids_of compact n s o =
    attributes id_name [] (pieces (form_html compact (uid_of n (source_name s)) o))

-- Two forms that were built with different values of the counter have no id in common, whatever
-- places built them and whatever the options.
pub ids_of-apart :
    (c d : Bool) (n m : ℕ) (s r : Source) (o p : Shell)
    → n ≢ m
    → All (λ i. All (λ j. i ≢ j) (ids_of d m r p)) (ids_of c n s o)
ids_of-apart c d n m s r o p h =
    subst (λ x. All (λ i. All (λ j. i ≢ j) (ids_of d m r p)) x) (sym (form-ids c n s o).0)
      (subst
        (λ y. All (λ i. All (λ j. i ≢ j) y) (suffixed (uid_of n (source_name s)) field_suffixes))
        (sym (form-ids d m r p).0) (suffixed-apart n m s r field_suffixes field_suffixes h))
