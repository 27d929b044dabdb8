-- ===== src/Contact/Tests.antt =====
-- Tests of the contact form, and its theorems at concrete inputs.
use website_ai_assistant.Prelude.{◌≡◌, ◌↔◌, refl, [], true, false, none}
use website_ai_assistant.Text.{text, trim, is_space}
use website_ai_assistant.Contact.{
  Form, unmarked, is_email, is_phone, unspaced, validate, submit, no_json, unreachable, on_answer,
}
use website_ai_assistant.Contact.Valid.{IsEmail, is_email_iff}
use website_ai_assistant.Contact.Sent.{IsOver, on_answer-submit}

abbrev filled : Form
filled = record {
  name = text " Sara ";
  email = [];
  phone = text "0912 345 6789";
  note = [];
  website = [];
  name_mark = unmarked;
  email_mark = unmarked;
  phone_mark = unmarked;
  error_text = none;
  error_shown = false;
  submit_disabled = false;
  spinner_hidden = true;
  done = false;
  toast = none;
  sent = [];
}

email_right : is_email (text "a@b.c.d") ≡ true
unfolding is_email is_space text
email_right = refl

email_wrong : is_email (text "a@b@c.d") ≡ false
unfolding is_email is_space text
email_wrong = refl

email_dot_last : is_email (text "a@b.") ≡ false
unfolding is_email is_space text
email_dot_last = refl

filled_passes : (validate filled).1 ≡ true
unfolding validate is_email is_phone unspaced text trim is_space
filled_passes = refl

-- A failed response whose body is no JSON counts as success.
no_json_done : (on_answer no_json filled).done ≡ true
unfolding on_answer
no_json_done = refl

is_email_iff_example : (is_email (text "a@b.c") ≡ true) ↔ IsEmail (text "a@b.c")
is_email_iff_example = is_email_iff (text "a@b.c")

on_answer-submit_example : IsOver filled (on_answer unreachable (submit filled))
on_answer-submit_example = on_answer-submit unreachable filled filled_passes
