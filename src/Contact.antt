-- ===== src/Contact.antt =====
-- static/widget/widget.js, `buildContactForm`: the check of the fields and the sending of the form. The
-- backend's answer is an argument; the elements' classes and texts are fields.
pub mod Valid
pub mod Sent
mod Tests
use website_ai_assistant.Prelude.{
  ℕ, ◌-◌, Bool, true, false, not, ◌&&◌, ◌||◌, List, [], ◌∷◌, ◌++◌, Option, none, some,
  if◌then◌else◌, ◌==◌, leb, ltb, length, take, is_empty,
}
use website_ai_assistant.Text.{Text, trim, is_space}
use website_ai_assistant.Notice.{
  Notice, contact_needed, not_saved, network_error, lead_saved, said_or,
}

pub data Mark : Type 0 where
  unmarked invalid ok : Mark

pub record Lead : Type 0 where
  pub name : Text
  pub email : Text
  pub phone : Text
  pub note : Text
  pub website : Text

-- `sent` lists the bodies of the requests, `done` is the note of success in the form's place.
pub record Form : Type 0 where
  pub name : Text
  pub email : Text
  pub phone : Text
  pub note : Text
  pub website : Text
  pub name_mark : Mark
  pub email_mark : Mark
  pub phone_mark : Mark
  pub error_text : Option Notice
  pub error_shown : Bool
  pub submit_disabled : Bool
  pub spinner_hidden : Bool
  pub done : Bool
  pub toast : Option Notice
  pub sent : List Lead

-- `[^\s@]`
unfoldable pub is_plain : ℕ → Bool
unfolding is_space
is_plain c = not (is_space c) && not (c == b'@')

-- `\.[^\s@]+$` somewhere behind the first character.
unfoldable pub has_inner_dot : Text → Bool
has_inner_dot [] = false
has_inner_dot (c ∷ []) = false
has_inner_dot (c ∷ d ∷ s) = let later = has_inner_dot (d ∷ s) in (c == b'.') || later

unfoldable pub all_plain : Text → Bool
unfolding is_plain
all_plain [] = true
all_plain (c ∷ s) = is_plain c && all_plain s

-- `[^\s@]+\.[^\s@]+$`
unfoldable pub is_domain : Text → Bool
unfolding all_plain has_inner_dot
is_domain [] = false
is_domain (c ∷ s) = all_plain (c ∷ s) && has_inner_dot s

-- `[^\s@]*@...`, behind the first character.
unfoldable pub is_rest : Text → Bool
unfolding is_plain is_domain
is_rest [] = false
is_rest (c ∷ s) = let more = is_rest s in if c == b'@' then is_domain s else is_plain c && more

-- `/^[^\s@]+@[^\s@]+\.[^\s@]+$/`
unfoldable pub is_email : Text → Bool
unfolding is_plain is_rest
is_email [] = false
is_email (c ∷ s) = is_plain c && is_rest s

unfoldable pub is_phone_char : ℕ → Bool
unfolding is_space
is_phone_char c = (leb b'0' c && leb c b'9') || is_space c || c == b'-' || c == b'(' || c == b')'

unfoldable pub all_phone : Text → Bool
unfolding is_phone_char
all_phone [] = true
all_phone (c ∷ s) = is_phone_char c && all_phone s

-- `phone.replace(/\s/g, "")`
unfoldable pub unspaced : Text → Text
unfolding is_space
unspaced [] = []
unspaced (c ∷ s) = if is_space c then unspaced s else c ∷ unspaced s

-- `/^[+0-9][0-9\s\-()]{6,24}$/`
unfoldable pub is_phone : Text → Bool
unfolding all_phone
is_phone [] = false
is_phone (c ∷ s) =
    (c == b'+' || (leb b'0' c && leb c b'9'))
    && all_phone s
    && leb 6 (length s)
    && leb (length s) 24

-- The mark of an optional field; `missing` says that neither is filled.
abbrev mark_optional : Text → Bool → Bool → Mark
mark_optional s good missing =
    if is_empty s then (if missing then invalid else unmarked) else if good then ok else invalid

-- `validate`, with what it returns.
unfoldable pub validate : Form → Form × Bool
unfolding trim is_email is_phone unspaced
validate f =
    let name = trim f.name in
    let email = trim f.email in
    let phone = trim f.phone in
    let missing = is_empty email && is_empty phone in
    let good_email = is_email email in
    let good_phone = is_phone (unspaced phone) in
    (
      record f {
        name_mark = if ltb (length name) 2 then invalid else ok;
        email_mark = mark_optional email good_email missing;
        phone_mark = mark_optional phone good_phone missing;
        error_text = if missing then some contact_needed else f.error_text;
        error_shown = missing;
      },
      not (ltb (length name) 2)
          && not missing
          && (is_empty email || good_email)
          && (is_empty phone || good_phone),
    )

abbrev lead_of : Form → Lead
lead_of f = record {
  name = trim f.name;
  email = trim f.email;
  phone = trim f.phone;
  note = take 2000 f.note;
  website = f.website;
}

-- The click on the submit button.
unfoldable pub submit : Form → Form
unfolding validate
submit f =
    if (validate f).1
    then record (validate f).0 {
      submit_disabled = true;
      spinner_hidden = false;
      sent = f.sent ++ lead_of f ∷ [];
    }
    else (validate f).0

-- How the request ends: the network fails, or a response comes, of any status: with a body that is no
-- JSON, with `null`, or with an object, `refused` if its `ok` is `false`.
pub data Answer : Type 0 where
  unreachable no_json null_json : Answer
  object : (refused : Bool) → (message : Text) → Answer

unfoldable pub fail : Notice → Form → Form
fail n f = record f {
  error_text = some n;
  error_shown = true;
  submit_disabled = false;
  spinner_hidden = true;
}

unfoldable pub succeed : Form → Form
succeed f = record f { done = true; toast = some lead_saved }

unfoldable pub on_answer : Answer → Form → Form
unfolding fail succeed
on_answer unreachable f = fail network_error f
on_answer no_json f = succeed f
on_answer null_json f = fail not_saved f
on_answer (object refused message) f =
    if refused then fail (said_or message not_saved) f else succeed f
