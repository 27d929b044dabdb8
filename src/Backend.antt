-- ===== src/Backend.antt =====
-- static/widget/widget.js: the request without streaming (`callBackend`), the check of the response
-- that starts a stream in `streamChat`, and the conversation's ids (`restoreConversation`, the button
-- for a new conversation). `fetch` is the browser's: its outcome is an argument. Citations, message id
-- and rule actions are passed on unread and left out.
pub mod Errors
pub mod Saved
mod Tests
use website_ai_assistant.Prelude.{
  ℕ, ◌<◌, Bool, true, false, not, ◌&&◌, ◌||◌, [], ◌∷◌, Option, none, some, if◌then◌else◌, ◌==◌, ltb,
  leb, is_empty,
}
use website_ai_assistant.Text.{Text, trim}
use website_ai_assistant.Notice.{
  Notice, timed_out, service_down, check_message, access_blocked, said,
}
use website_ai_assistant.Stream.Reader.{Conversation, save_conversation}

-- A field of a JSON object, as the code tests it: missing or falsy, a string, or another value that
-- counts as true, with its text.
pub data Field : Type 0 where
  absent : Field
  str other : Text → Field

pub record Body : Type 0 where
  pub answer : Field
  pub reply : Field
  pub response : Field
  pub message : Field
  pub conversation_id : Text
  pub conversation_token : Text
  pub fallback : Bool
  pub guard_blocked : Bool
  pub guard_refused : Bool
  pub quota_locked : Bool
  pub quota_message : Text

-- `{}`
abbrev pub no_fields : Body
no_fields = record {
  answer = absent;
  reply = absent;
  response = absent;
  message = absent;
  conversation_id = [];
  conversation_token = [];
  fallback = false;
  guard_blocked = false;
  guard_refused = false;
  quota_locked = false;
  quota_message = [];
}

-- `res.json()`: it fails (no JSON, or aborted while reading), or gives `null` or an object.
pub data Json : Type 0 where
  unreadable null_body : Json
  object : Body → Json

-- `await fetch(...)`.
pub data Fetched : Type 0 where
  aborted unreachable : Fetched
  response : (status : ℕ) → Json → Fetched

-- What a caller gets; the answer of a block may be the widget's own words.
pub record Result : Type 0 where
  pub answer : Notice
  pub fallback : Bool
  pub guard_blocked : Bool
  pub guard_refused : Bool
  pub quota_locked : Bool
  pub quota_message : Text

-- An error is thrown with its `userMessage`, if it has one.
pub data Reply : Type 0 where
  returns : Result → Reply
  throws : Option Notice → Reply

-- `x || y`.
unfoldable pub or_field : Field → Field → Field
or_field absent y = y
or_field (str s) y = if is_empty s then y else str s
or_field (other s) y = other s

-- `x || literal`.
unfoldable pub field_or : Field → Notice → Notice
field_or absent n = n
field_or (str s) n = if is_empty s then n else said s
field_or (other s) n = said s

unfoldable pub is_truthy : Field → Bool
is_truthy absent = false
is_truthy (str s) = not (is_empty s)
is_truthy (other s) = true

-- `res.ok`.
unfoldable pub is_ok : ℕ → Bool
is_ok status = leb 200 status && ltb status 300

-- `if (data.conversation_id) { ... this.saveConversation() }`
unfoldable pub take_ids : Body → Conversation → Conversation
unfolding save_conversation
take_ids d c =
    if is_empty d.conversation_id
    then c
    else save_conversation (record c {
      id = d.conversation_id;
      token = if is_empty d.conversation_token then c.token else d.conversation_token;
    })

abbrev trim_notice : Notice → Notice
trim_notice (said s) = said (trim s)
trim_notice n = n

-- The object that a block returns: `fallback` is `false`.
unfoldable pub block_result : Body → Result
unfolding field_or or_field
block_result d = record {
  answer = trim_notice (field_or (or_field d.answer d.message) access_blocked);
  fallback = false;
  guard_blocked = d.guard_blocked;
  guard_refused = d.guard_refused;
  quota_locked = d.quota_locked;
  quota_message = d.quota_message;
}

unfoldable pub result_of : Text → Body → Result
result_of answer d = record {
  answer = said (trim answer);
  fallback = d.fallback;
  guard_blocked = d.guard_blocked;
  guard_refused = d.guard_refused;
  quota_locked = d.quota_locked;
  quota_message = d.quota_message;
}

-- The user's message for a failed status.
unfoldable pub status_message : ℕ → Body → Notice
unfolding field_or
status_message status d = if leb 500 status then service_down else field_or d.message check_message

unfoldable pub on_failure : ℕ → Body → Conversation → Conversation × Reply
unfolding is_truthy take_ids block_result status_message
on_failure status d c =
    if status == 403 && (d.guard_blocked || d.quota_locked || is_truthy d.answer)
    then (take_ids d c, returns (block_result d))
    else (c, throws (some (status_message status d)))

-- `typeof answer !== "string" || !answer.trim()`
unfoldable pub on_answer : Field → Body → Conversation → Conversation × Reply
unfolding take_ids result_of
on_answer (str s) d c =
    if is_empty (trim s) then (c, throws none) else (take_ids d c, returns (result_of s d))
on_answer absent d c = (c, throws none)
on_answer (other s) d c = (c, throws none)

-- `data.answer || data.reply || data.response || data.message`.
abbrev pub first_answer : Body → Field
unfolding or_field
first_answer d = or_field d.answer (or_field d.reply (or_field d.response d.message))

unfoldable pub on_body : ℕ → Body → Conversation → Conversation × Reply
unfolding is_ok on_failure on_answer
on_body status d c = if is_ok status then on_answer (first_answer d) d c else on_failure status d c

-- `callBackend`. Reading a field of `null` throws.
unfoldable pub call_backend : Fetched → Conversation → Conversation × Reply
unfolding on_body
call_backend aborted c = (c, throws (some timed_out))
call_backend unreachable c = (c, throws none)
call_backend (response status unreadable) c = on_body status no_fields c
call_backend (response status null_body) c = (c, throws none)
call_backend (response status (object d)) c = on_body status d c

-- How `streamChat` starts: it reads the body, or its promise resolves at once for want of a reader,
-- or is rejected, or is never settled.
pub data Opening : Type 0 where
  reads no_reader unsettled : Opening
  rejects : Option Notice → Opening

-- `data.message || (res.status >= 500 ? ... : ...)`
unfoldable pub stream_message : ℕ → Body → Notice
unfolding field_or
stream_message status d =
    field_or d.message (if leb 500 status then service_down else check_message)

abbrev open_failed : ℕ → Json → Opening
open_failed status unreadable = rejects (some (stream_message status no_fields))
open_failed status (object d) = rejects (some (stream_message status d))
-- the handler throws inside its own promise, which nothing waits for
open_failed status null_body = unsettled

-- The response of the stream's `fetch`; an aborted one is handled by `after` in Stream/Reader.
unfoldable pub open_stream : Bool → ℕ → Json → Opening
unfolding is_ok stream_message
open_stream has_reader status body =
    if not (is_ok status) then open_failed status body else if has_reader then reads else no_reader

-- `restoreConversation`, as far as the ids go.
unfoldable pub restore_conversation : Conversation → Conversation
restore_conversation c = record c { id = c.stored_id; token = c.stored_token }

-- The click on the button for a new conversation, as far as the ids go.
unfoldable pub forget_conversation : Conversation → Conversation
forget_conversation c = record c { id = []; token = []; stored_id = []; stored_token = [] }
