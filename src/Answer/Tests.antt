-- ===== src/Answer/Tests.antt =====
-- Tests of the widget after an answer, and its theorems at concrete inputs.
use website_ai_assistant.Prelude.{◌≡◌, refl, arith, [], ◌∷◌, ◌++◌, true, false, length}
use website_ai_assistant.Text.{text, eq_text}
use website_ai_assistant.Stream.{Payload}
use website_ai_assistant.Links.{push_if}
use website_ai_assistant.History.{Row, user, row, save_local_history}
use website_ai_assistant.Answer.{RuleAction, Meta, Widget, rule_link, add_item}
use website_ai_assistant.Answer.Samples.{site, shop, empty_list, fresh, waiting}
use website_ai_assistant.Answer.Handlers.{
  handle_answer_result, apply_rule_actions, maybe_show_handoff, apply_each, apply_rule_action,
  follow_up,
}
use website_ai_assistant.Answer.Steps.{here, next, asks, answers}
use website_ai_assistant.Answer.Offers.{IsOffered, Reach-IsOffered}
use website_ai_assistant.Answer.Rules.{
  told, with_last, apply_rule_actions-items, items_of_rules, text_of_rules,
}

abbrev script : RuleAction
script = record {
  action_type = text "suggest_link";
  type_ = [];
  payload = text "javascript:x";
  url = [];
  label = text "Open";
  name = [];
}

abbrev handoff : RuleAction
handoff = record {
  action_type = [];
  type_ = text "handoff";
  payload = [];
  url = [];
  label = [];
  name = [];
}

abbrev unsure : Payload
unsure = record {
  conversation_id = [];
  conversation_token = [];
  token = [];
  answer = text "Perhaps";
  message = [];
  quota_message = [];
  quota_locked = false;
  guard_blocked = false;
  fallback = true;
}

abbrev ruled : Meta
ruled = record {
  payload = unsure;
  citations = [];
  message_id = text "7";
  rule_actions = script ∷ handoff ∷ [];
}

abbrev said : Row
said = record {
  sender = user;
  content = text "When?";
  is_cont = false;
  is_last = true;
  has_retry = false;
  has_feedback = false;
  has_time = true;
  has_citations = false;
}

abbrev answered_twice : Widget
answered_twice =
    handle_answer_result shop site 12 (text "Perhaps") ruled
      (handle_answer_result shop site 9 (text "Perhaps") ruled waiting)

Reach-IsOffered_example : IsOffered shop answered_twice
Reach-IsOffered_example =
    Reach-IsOffered shop site {w = fresh} (omega arith, omega arith, tt)
      (next (next (next here (asks 5 (text "When?"))) (answers 9 (text "Perhaps") ruled))
        (answers 12 (text "Perhaps") ruled))

-- Two answers with a rule for a hand-off offer it once.
offered_once : length answered_twice.lead_forms ≡ 1
unfolding handle_answer_result follow_up apply_rule_actions apply_each apply_rule_action
    maybe_show_handoff add_item text eq_text push_if
offered_once = refl

abbrev told_of : Widget
told_of = record fresh { messages = record empty_list { children = row said ∷ [] } }

apply_rule_actions-items_example :
    told (apply_rule_actions shop 9 (text "Perhaps") (script ∷ handoff ∷ []) told_of) ≡ (
      save_local_history 9
          (with_last [] said (text_of_rules (script ∷ handoff ∷ [])) told_of.messages),
      [] ++ items_of_rules (script ∷ handoff ∷ []),
    )
apply_rule_actions-items_example =
    apply_rule_actions-items shop 9 (text "Perhaps") (script ∷ handoff ∷ []) [] said told_of refl

-- A rule's link to a script is put into the bubble, though its address is not safe.
script_link :
    items_of_rules (script ∷ handoff ∷ []) ≡ rule_link (text "Open") (text "javascript:x") ∷ []
unfolding text eq_text
script_link = refl
