-- ===== src/Chat.antt =====
-- static/widget/widget.js: the composer and the exchange with the backend (`updateSendState`,
-- `setLoading`, `send`, `sendText`, `_setBlocked`, `_clearBlocked`, `handleAnswerResult`, the click
-- on the send button). DOM properties are fields; `requests` lists the messages sent to the
-- backend and `aborts` counts the calls of `abort()` on a stream.
pub mod Steps
pub mod Invariant
pub mod Lock
mod Tests
use website_ai_assistant.Prelude.{
  ℕ, zero, suc, ◌+◌, ◌-◌, ◌%◌, Bool, true, false, not, ◌&&◌, ◌||◌, List, [], ◌∷◌, ◌++◌, Option,
  none, some, if◌then◌else◌, is_empty,
}
use website_ai_assistant.Text.{Text, trim}
use website_ai_assistant.Notice.{Notice, unable, offline, blocked, said}
use website_ai_assistant.Stream.{Payload}

-- The placeholder of the input: the configured one, "answering", "blocked", "listening", or a lock
-- message.
pub data Placeholder : Type 0 where
  configured replying locked hearing : Placeholder
  lock_message : Text → Placeholder

pub data Row : Type 0 where
  user : Text → Row
  answer : Text → Row
  failure : Notice → Row

pub record Chat : Type 0 where
  pub value : Text
  pub input_disabled : Bool
  pub send_disabled : Bool
  pub stop_shown : Bool
  pub typing_hidden : Bool
  pub placeholder : Placeholder
  pub mic_hidden : Bool
  pub is_loading : Bool
  pub is_blocked : Bool
  pub stored_blocked : Bool
  pub abort_stream : Bool
  pub aborts : ℕ
  pub status_timer : Bool
  pub intervals : ℕ
  pub status_idx : ℕ
  pub chat_started : Bool
  pub last_user_message : Text
  pub rows : List Row
  pub requests : List Text
  pub toast : Option Notice

unfoldable pub update_send_state : Chat → Chat
update_send_state c = record c { send_disabled = c.is_loading || is_empty (trim c.value) }

-- `setInterval`, after `clearInterval` of the timer that is still there.
unfoldable pub start_status : Chat → Chat
start_status c = record c {
  status_idx = 0;
  intervals = (if c.status_timer then c.intervals - 1 else c.intervals) + 1;
  status_timer = true;
  stop_shown = true;
}

unfoldable pub stop_status : Chat → Chat
stop_status c = record c {
  intervals = if c.status_timer then c.intervals - 1 else c.intervals;
  status_timer = false;
  stop_shown = false;
}

unfoldable pub set_loading : Bool → Chat → Chat
unfolding update_send_state start_status stop_status
set_loading loading c =
    let d = record c {
      is_loading = loading;
      typing_hidden = not loading;
      input_disabled = loading;
      placeholder = if loading then replying else configured;
    } in
    update_send_state (if loading then start_status d else stop_status d)

-- The status timer's callback; there are four statuses.
unfoldable pub next_status : Chat → Chat
next_status c = record c { status_idx = (c.status_idx + 1) % 4 }

abbrev pub show_toast : Notice → Chat → Chat
show_toast n c = record c { toast = some n }

abbrev pub add_row : Row → Chat → Chat
add_row r c = record c { rows = c.rows ++ r ∷ [] }

abbrev lock_placeholder : Option Text → Placeholder
lock_placeholder none = locked
lock_placeholder (some m) = if is_empty m then locked else lock_message m

-- `_setBlocked(true, msg)`.
unfoldable pub block : Option Text → Chat → Chat
block msg c = record c {
  is_blocked = true;
  stored_blocked = true;
  input_disabled = true;
  placeholder = lock_placeholder msg;
  send_disabled = true;
  mic_hidden = true;
}

-- `_clearBlocked()`, that is `_setBlocked(false)`.
unfoldable pub clear_blocked : Chat → Chat
unfolding update_send_state
clear_blocked c = update_send_state (record c {
  is_blocked = false;
  stored_blocked = false;
  input_disabled = false;
  placeholder = configured;
  send_disabled = is_empty (trim c.value);
  mic_hidden = false || c.mic_hidden;
})

abbrev pub begin : Text → Chat → Chat
begin msg c = record c {
  last_user_message = msg;
  chat_started = true;
  rows = c.rows ++ user msg ∷ [];
}

abbrev pub offline_failure : Chat → Chat
offline_failure c = show_toast offline (add_row (failure offline) c)

-- `sendText`. `online` is `navigator.onLine !== false`, `streaming` is `enableStreaming &&
-- !previewMode`: a streamed request installs an `AbortController`.
unfoldable pub send_text : Bool → Bool → Text → Chat → Chat
unfolding set_loading
send_text online streaming msg c =
    if c.is_blocked
    then show_toast blocked c
    else if is_empty msg || c.is_loading
    then c
    else if not online
    then set_loading false (offline_failure (set_loading true (begin msg c)))
    else record (set_loading true (begin msg c)) {
      requests = c.requests ++ msg ∷ [];
      abort_stream = streaming || c.abort_stream;
    }

unfoldable pub send : Bool → Bool → Chat → Chat
unfolding send_text
send online streaming c =
    if is_empty (trim c.value) || c.is_loading
    then c
    else send_text online streaming (trim c.value) (record c { value = [] })

-- The click handler of the send button.
unfoldable pub click_send : Bool → Bool → Chat → Chat
unfolding send
click_send online streaming c =
    if c.is_loading && c.abort_stream
    then record c { aborts = c.aborts + 1 }
    else send online streaming c

-- `meta.quota_locked ? (meta.quota_message || undefined) : undefined`.
abbrev lock_text : Payload → Option Text
lock_text d =
    if d.quota_locked && not (is_empty d.quota_message) then some d.quota_message else none

abbrev lock_if_told : Text → Payload → Chat → Chat
lock_if_told text d c =
    if d.guard_blocked || d.quota_locked then show_toast (said text) (block (lock_text d) c) else c

-- `handleAnswerResult`, as far as the composer sees it.
unfoldable pub handle_answer : Text → Payload → Chat → Chat
unfolding block
handle_answer text d c = lock_if_told text d (add_row (answer text) c)

-- `this._blocked` of `restoreConversation`; its timer is `block none`.
unfoldable pub restore_lock : Chat → Chat
restore_lock c = record c { is_blocked = c.stored_blocked }

-- `callBackend(message)` in the place of a stream that brought nothing: the message goes out again.
unfoldable pub call_again : Chat → Chat
call_again c = record c { requests = c.requests ++ c.last_user_message ∷ [] }

-- How the promise of `sendText` settles: an answer was handled, or the typewriter goes on, or an
-- error with or without a message of its own.
pub data Outcome : Type 0 where
  answered : Text → Payload → Outcome
  typed : Outcome
  failed : Option Notice → Outcome

abbrev pub user_message : Option Notice → Notice
user_message none = unable
user_message (some n) = n

unfoldable pub conclude : Outcome → Chat → Chat
unfolding handle_answer
conclude (answered text d) c = handle_answer text d c
conclude typed c = c
conclude (failed n) c = show_toast (user_message n) (add_row (failure (user_message n)) c)

-- `finally`: of `streamChat` or `callBackend`, then of `sendText`. A second request of the message comes
-- before, by `call_again`.
unfoldable pub settle : Outcome → Chat → Chat
unfolding conclude set_loading
settle o c = set_loading false (conclude o (record c { abort_stream = false }))

-- The typewriter's call of `handleAnswerResultFromEl`, later.
unfoldable pub type_out : Text → Payload → Chat → Chat
unfolding block
type_out text d c = lock_if_told text d c
