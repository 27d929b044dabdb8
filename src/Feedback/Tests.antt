-- ===== src/Feedback/Tests.antt =====
-- Tests of the toolbar, and its theorem at a concrete input.
use website_ai_assistant.Prelude.{◌≡◌, refl, List, [], ◌∷◌, ◌++◌, none, some, false}
use website_ai_assistant.Text.{text}
use website_ai_assistant.Feedback.{
  copy, helpful, not_helpful, Toolbar, Vote, Desk, build_feedback_el, send_feedback,
  handle_feedback, end_copied, send_event, log_handoff,
}
use website_ai_assistant.Feedback.Once.{
  Act, clicks, settles, joins, act, act_all, first_vote, if_told, act_all-votes,
}

abbrev desk : Desk
desk = record {
  feedback_endpoint = text "https://x/feedback/";
  events_endpoint = [];
  handoff_endpoint = text "https://x/handoff/";
  session_id = text "asw-1";
  conversation_id = [];
  conversation_token = [];
  last_user_message = text "When?";
  clipboard = none;
  votes = [];
  events = [];
  handoffs = [];
}

abbrev toolbar : Toolbar
toolbar = record (build_feedback_el (text "Now") desk) { message_id = text "7" }

abbrev doings : List Act
doings =
    clicks copy (text " Now ")
    ∷ joins (text "c") (text "k")
    ∷ clicks not_helpful []
    ∷ clicks helpful []
    ∷ settles
    ∷ []

unsent : toolbar.sent ≡ false
unfolding build_feedback_el
unsent = refl

act_all-votes_example :
    (act_all doings (toolbar, desk)).1.votes
    ≡ desk.votes ++ if_told desk (first_vote doings toolbar desk)
act_all-votes_example = act_all-votes doings toolbar desk unsent

abbrev no_vote : Vote
no_vote = record {
  helpful = false;
  question = text "When?";
  answer_preview = text "Now";
  session_id = text "asw-1";
  message = some (text "7", text "c", text "k");
}

sent_once : (act_all doings (toolbar, desk)).1.votes ≡ no_vote ∷ []
unfolding act_all act handle_feedback send_feedback end_copied build_feedback_el text
sent_once = refl

-- Without an endpoint no event is reported; a hand-off tells the last question.
reported :
    (log_handoff (text "telegram") [] (send_event (text "x") desk)).handoffs
    ≡ record {
      channel = text "telegram";
      message = text "When?";
      conversation_id = [];
      conversation_token = [];
    }
      ∷ []
unfolding log_handoff send_event text
reported = refl
