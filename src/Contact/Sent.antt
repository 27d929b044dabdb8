-- ===== src/Contact/Sent.antt =====
-- When the contact form is sent, and what the visitor sees then.
use mathlib.Core.Path.{subst, sym}
use website_ai_assistant.Prelude.{true, false, [], ◌∷◌, ◌++◌, ◌≡◌, ◌≢◌, ◌↔◌, ◌⊎◌, refl, arith}
use website_ai_assistant.Contact.{
  Form, invalid, ok, lead_of, validate, submit, fail, succeed, Answer, unreachable, no_json,
  null_json, object, on_answer,
}

-- The check lets the form pass just when it marks the name as right, neither email nor phone as
-- invalid, and shows no error text.
pub validate-marks :
    (f : Form)
    → let (g, passes) = validate f in
      (passes ≡ true) ↔ (
        (g.name_mark ≡ ok)
        × (g.email_mark ≢ invalid)
        × (g.phone_mark ≢ invalid)
        × (g.error_shown ≡ false))
unfolding validate
validate-marks f = ground arith

submit_valid :
    (f : Form)
    → (validate f).1 ≡ true
    → submit f ≡ record (validate f).0 {
      submit_disabled = true;
      spinner_hidden = false;
      sent = f.sent ++ lead_of f ∷ [];
    }
unfolding submit
submit_valid f e = ground arith

validate-kept :
    (f : Form)
    → ((validate f).0.name ≡ f.name)
      × ((validate f).0.email ≡ f.email)
      × ((validate f).0.phone ≡ f.phone)
      × ((validate f).0.note ≡ f.note)
unfolding validate
validate-kept f = (refl, refl, refl, refl)

-- What the visitor can do after the request has ended: nothing but read the note of success, or try
-- again with the same texts.
pub record IsOver (f g : Form) : Type 0 where
  pub once : g.sent ≡ f.sent ++ lead_of f ∷ []
  pub open_again :
      (g.done ≡ true)
      ⊎ ((g.submit_disabled ≡ false)
          × (g.spinner_hidden ≡ true)
          × (g.error_shown ≡ true)
          × (g.name ≡ f.name)
          × (g.email ≡ f.email)
          × (g.phone ≡ f.phone)
          × (g.note ≡ f.note))

after_submit :
    (a : Answer) (f g : Form)
    → (g.sent ≡ f.sent ++ lead_of f ∷ [])
    → (g.name ≡ f.name) × (g.email ≡ f.email) × (g.phone ≡ f.phone) × (g.note ≡ f.note)
    → IsOver f (on_answer a g)
unfolding on_answer fail succeed
after_submit unreachable f g e k = ground arith
after_submit no_json f g e k = ground arith
after_submit null_json f g e k = ground arith
after_submit (object refused m) f g e k = ground arith

-- A form that passes the check is sent exactly once by a click, and however the request ends, either
-- the note of success stands there, or an error is shown, the button is enabled again and the
-- visitor's texts are kept.
pub on_answer-submit :
    (a : Answer) (f : Form) → (validate f).1 ≡ true → IsOver f (on_answer a (submit f))
on_answer-submit a f e =
    subst (λ g. IsOver f (on_answer a g)) (sym (submit_valid f e))
      (after_submit a f _ refl (validate-kept f))
