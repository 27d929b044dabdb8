-- ===== src/Notice.antt =====
-- The messages for the user. The Persian literals of static/widget/widget.js stand here by name,
-- with their texts in Notice/Words; `said` is a text that came from the server.
pub mod Words
use website_ai_assistant.Prelude.{if◌then◌else◌, is_empty}
use website_ai_assistant.Text.{Text}

pub data Notice : Type 0 where
  -- "the answer took too long", `te.userMessage`
  timed_out : Notice
  -- "error while receiving the answer", on the stream's `error` event
  stream_broken : Notice
  -- "the service is temporarily unavailable", for a status of 500 or more
  service_down : Notice
  -- "check your message and send it again", for any other failed status
  check_message : Notice
  -- "unable to answer right now", `sendText`'s default
  unable : Notice
  -- "the internet connection is down", `offMsg`
  offline : Notice
  -- "your access is blocked", of a rejected request
  access_blocked : Notice
  -- "your access to the chat is blocked"
  blocked : Notice
  -- of the contact form: "give an email or a phone number", "not saved", "network error", "saved"
  contact_needed not_saved network_error lead_saved : Notice
  -- "no access to the microphone", "speech recognition is not available"
  microphone_denied speech_down : Notice
  -- "the connection is back"
  connected : Notice
  said : Text → Notice

-- `message || literal`.
abbrev pub said_or : Text → Notice → Notice
said_or s n = if is_empty s then n else said s
