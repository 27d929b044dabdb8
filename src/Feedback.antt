-- ===== src/Feedback.antt =====
-- static/widget/widget.js: the toolbar under an answer (`buildFeedbackEl`, `handleFeedback`,
-- `sendFeedback`), and what else the widget reports to the site (`sendEvent`, `logHandoff`). `votes`,
-- `events` and `handoffs` list the requests, oldest first; their promises are not awaited. The
-- number of a message is kept as its text.
pub mod Once
mod Tests
use website_ai_assistant.Prelude.{
  Bool, true, false, not, List, [], ◌∷◌, ◌++◌, Option, none, some, if◌then◌else◌, is_empty, take,
}
use website_ai_assistant.Text.{Text, trim}

pub data Button : Type 0 where
  copy helpful not_helpful : Button

-- An element `asw-feedback`: its data attributes, the button that is active and shows a filled icon,
-- and whether the two thumbs are disabled.
pub record Toolbar : Type 0 where
  pub question : Text
  pub answer : Text
  pub message_id : Text
  pub sent : Bool
  pub active : Option Button
  pub disabled : Bool
  pub copied : Bool

-- The body of a feedback request; the last part is there when the message has an id.
pub record Vote : Type 0 where
  pub helpful : Bool
  pub question : Text
  pub answer_preview : Text
  pub session_id : Text
  pub message : Option (Text × Text × Text)

pub record Report : Type 0 where
  pub channel : Text
  pub message : Text
  pub conversation_id : Text
  pub conversation_token : Text

-- The widget's side: endpoints (empty where there is none), ids, clipboard and requests.
pub record Desk : Type 0 where
  pub feedback_endpoint : Text
  pub events_endpoint : Text
  pub handoff_endpoint : Text
  pub session_id : Text
  pub conversation_id : Text
  pub conversation_token : Text
  pub last_user_message : Text
  pub clipboard : Option Text
  pub votes : List Vote
  pub events : List Text
  pub handoffs : List Report

unfoldable pub build_feedback_el : Text → Desk → Toolbar
build_feedback_el preview d = record {
  question = take 200 d.last_user_message;
  answer = take 300 preview;
  message_id = [];
  sent = false;
  active = none;
  disabled = false;
  copied = false;
}

abbrev pub vote_body : Bool → Toolbar → Desk → Vote
vote_body h t d = record {
  helpful = h;
  question = t.question;
  answer_preview = t.answer;
  session_id = d.session_id;
  message =
      if is_empty t.message_id
      then none
      else some (t.message_id, d.conversation_id, d.conversation_token);
}

unfoldable pub send_feedback : Bool → Toolbar → Desk → Desk
send_feedback h t d =
    if is_empty d.feedback_endpoint then d else record d { votes = d.votes ++ vote_body h t d ∷ [] }

-- A vote of `handleFeedback`.
abbrev pub vote : Button → Bool → Toolbar → Desk → Toolbar × Desk
vote b h t d =
    if t.sent
    then (t, d)
    else (record t { active = some b; disabled = true; sent = true }, send_feedback h t d)

-- `handleFeedback` for a button of the toolbar under a bubble with a text; the clipboard takes it.
unfoldable pub handle_feedback : Button → Text → Toolbar → Desk → Toolbar × Desk
unfolding send_feedback trim
handle_feedback copy bubble t d =
    (record t { copied = true }, record d { clipboard = some (trim bubble) })
handle_feedback helpful bubble t d = vote helpful true t d
handle_feedback not_helpful bubble t d = vote not_helpful false t d

-- The timer of a copy.
unfoldable pub end_copied : Toolbar → Toolbar
end_copied t = record t { copied = false }

unfoldable pub send_event : Text → Desk → Desk
send_event type_ d =
    if is_empty d.events_endpoint then d else record d { events = d.events ++ type_ ∷ [] }

unfoldable pub log_handoff : Text → Text → Desk → Desk
log_handoff channel question d = if is_empty d.handoff_endpoint then d else record d {
  handoffs =
      d.handoffs
      ++ record {
        channel = channel;
        message = take 2000 (if is_empty question then d.last_user_message else question);
        conversation_id = d.conversation_id;
        conversation_token = d.conversation_token;
      }
        ∷ [];
}
