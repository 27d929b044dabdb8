-- ===== src/Skin.antt =====
-- static/widget/widget-minimal.js: the handlers by which the skins differ from static/widget/widget.js
-- (`sendText`, `handleAnswerResult`, `callBackend`, and in Skin/Ends the end of `streamChat`); the ten
-- skins have the same code there. They know nothing of a lock: `is_blocked` and what belongs to it
-- stay as they are.
pub mod Agrees
pub mod Unlocked
pub mod Calls
pub mod Ends
pub mod Alike
mod Tests
use website_ai_assistant.Prelude.{
  ℕ, ◌+◌, Bool, true, false, not, ◌&&◌, ◌||◌, List, [], ◌∷◌, ◌++◌, Option, none, some,
  if◌then◌else◌, is_empty,
}
use website_ai_assistant.Text.{Text, trim}
use website_ai_assistant.Notice.{Notice, timed_out, said}
use website_ai_assistant.Stream.{Payload}
use website_ai_assistant.Chat.{
  Chat, answer, failure, Outcome, answered, typed, failed, add_row, begin, offline_failure,
  user_message, show_toast, set_loading,
}
use website_ai_assistant.Backend.{
  Field, absent, str, other, Body, no_fields, unreadable, null_body, object, Fetched, aborted,
  unreachable, response, is_ok, status_message, first_answer, take_ids,
}
use website_ai_assistant.Stream.Reader.{Conversation}

unfoldable pub send_text : Bool → Bool → Text → Chat → Chat
unfolding set_loading
send_text online streaming msg c =
    if is_empty msg || c.is_loading
    then c
    else if not online
    then set_loading false (offline_failure (set_loading true (begin msg c)))
    else record (set_loading true (begin msg c)) {
      requests = c.requests ++ msg ∷ [];
      abort_stream = streaming || c.abort_stream;
    }

unfoldable pub send : Bool → Bool → Chat → Chat
unfolding send_text
send online streaming c =
    if is_empty (trim c.value) || c.is_loading
    then c
    else send_text online streaming (trim c.value) (record c { value = [] })

unfoldable pub click_send : Bool → Bool → Chat → Chat
unfolding send
click_send online streaming c =
    if c.is_loading && c.abort_stream
    then record c { aborts = c.aborts + 1 }
    else send online streaming c

-- `handleAnswerResult`, as far as the composer sees it.
unfoldable pub handle_answer : Text → Payload → Chat → Chat
handle_answer text d c = add_row (answer text) c

unfoldable pub conclude : Outcome → Chat → Chat
unfolding handle_answer
conclude (answered text d) c = handle_answer text d c
conclude typed c = c
conclude (failed n) c = show_toast (user_message n) (add_row (failure (user_message n)) c)

unfoldable pub settle : Outcome → Chat → Chat
unfolding conclude set_loading
settle o c = set_loading false (conclude o (record c { abort_stream = false }))

-- What `callBackend` returns, and how it ends.
pub record Result : Type 0 where
  pub answer : Text
  pub fallback : Bool

pub data Reply : Type 0 where
  returns : Result → Reply
  throws : Option Notice → Reply

unfoldable pub on_answer : Field → Body → Conversation → Conversation × Reply
unfolding take_ids
on_answer (str s) d c =
    if is_empty (trim s)
    then (c, throws none)
    else (take_ids d c, returns (record { answer = trim s; fallback = d.fallback }))
on_answer absent d c = (c, throws none)
on_answer (other s) d c = (c, throws none)

unfoldable pub on_body : ℕ → Body → Conversation → Conversation × Reply
unfolding is_ok status_message on_answer
on_body status d c =
    if is_ok status
    then on_answer (first_answer d) d c
    else (c, throws (some (status_message status d)))

unfoldable pub call_backend : Fetched → Conversation → Conversation × Reply
unfolding on_body
call_backend aborted c = (c, throws (some timed_out))
call_backend unreachable c = (c, throws none)
call_backend (response status unreadable) c = on_body status no_fields c
call_backend (response status null_body) c = (c, throws none)
call_backend (response status (object d)) c = on_body status d c
