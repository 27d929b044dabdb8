-- ===== src/Answer/Handlers.antt =====
-- static/widget/widget.js: `handleAnswerResult`, `handleAnswerResultFromEl`, `applyRuleActions` and
-- `maybeShowHandoff`.
use website_ai_assistant.Prelude.{
  ℕ, Bool, true, false, not, ◌&&◌, ◌||◌, List, [], ◌∷◌, ◌++◌, if◌then◌else◌, is_empty, take,
}
use website_ai_assistant.Text.{Text, text, eq_text}
use website_ai_assistant.Escape.{escape_html}
use website_ai_assistant.Chat.{handle_answer, type_out}
use website_ai_assistant.History.{bot, Row, Opts, Page, shown, save_local_history, add_message}
use website_ai_assistant.Links.{Anchor, push_if, build_citations}
use website_ai_assistant.Answer.{
  RuleAction, Meta, or_else, type_of, payload_of, label_of, gives_link, gives_hint, Widget, Setup,
  last_is_row, at_row, is_locked, with_children, add_item, saved_now, rule_link, rule_hint,
}

module _ (setup : Setup) where
  unfoldable pub handoff_anchors : List Anchor
  unfolding text escape_html
  handoff_anchors =
      let usable = λ (url : Text). not (is_empty url) && setup.is_safe_url url in
      let anchor = λ (label url : Text).
        let a : Anchor = record { href = url; new_tab = true; inner = escape_html label } in a in
      push_if (usable setup.contacts.contact_form)
        (anchor (text "\u{641}\u{631}\u{645} \u{62a}\u{645}\u{627}\u{633}")
          setup.contacts.contact_form)
        (push_if (usable setup.contacts.telegram)
          (anchor (text "\u{62a}\u{644}\u{6af}\u{631}\u{627}\u{645}") setup.contacts.telegram)
          (push_if (usable setup.contacts.whatsapp)
            (anchor (text "\u{648}\u{627}\u{62a}\u{633}\u{627}\u{67e}") setup.contacts.whatsapp)
            []))

  abbrev pub may_hand_off : Bool
  may_hand_off =
      setup.enable_handoff
      && not (eq_text (or_else setup.handoff_trigger (text "low_confidence")) (text "off"))
      && not setup.preview_mode

  -- The bar and the form of `maybeShowHandoff`, under the last row.
  abbrev pub with_offer : Text → Widget → Widget
  with_offer answer w = record w {
    handoff_shown = true;
    bars =
        if is_empty handoff_anchors
        then w.bars
        else w.bars ++ record { label = setup.handoff_message; anchors = handoff_anchors } ∷ [];
    lead_forms =
        if setup.enable_lead_capture
        then w.lead_forms ++ or_else answer w.messages.last_user_message ∷ []
        else w.lead_forms;
  }

  -- `maybeShowHandoff`.
  unfoldable pub maybe_show_handoff : Text → Widget → Widget
  maybe_show_handoff answer w =
      if not may_hand_off || w.handoff_shown
      then w
      else if is_empty w.messages.children
      then record w { handoff_shown = true }
      else with_offer answer w

  -- One round of the loop of `applyRuleActions`.
  unfoldable pub apply_rule_action : Text → RuleAction → Widget → Widget
  unfolding add_item
  apply_rule_action answer a w =
      if gives_link a
      then add_item (rule_link (label_of a) (payload_of a)) (label_of a) w
      else if gives_hint a
      then add_item (rule_hint (payload_of a)) (payload_of a) w
      else if eq_text (type_of a) (text "handoff")
      then maybe_show_handoff (or_else answer (payload_of a)) w
      else w

  unfoldable pub apply_each : Text → List RuleAction → Widget → Widget
  unfolding apply_rule_action
  apply_each answer [] w = w
  apply_each answer (a ∷ as_) w = apply_each answer as_ (apply_rule_action answer a w)

  -- `applyRuleActions`.
  unfoldable pub apply_rule_actions : ℕ → Text → List RuleAction → Widget → Widget
  unfolding last_is_row save_local_history
  apply_rule_actions now answer actions w =
      if last_is_row w.messages.children then saved_now now (apply_each answer actions w) else w

  -- The end of both handlers.
  unfoldable pub follow_up : ℕ → Text → Meta → Widget → Widget
  follow_up now answer d w =
      if not (is_empty d.rule_actions)
      then apply_rule_actions now answer d.rule_actions w
      else if d.payload.fallback
      then maybe_show_handoff answer w
      else w

  module _ (page : Page) where
    abbrev pub answer_opts : Meta → Opts
    answer_opts d = record {
      streaming = false;
      is_error = false;
      no_retry = false;
      skip_feedback = is_locked d;
      citations = not (is_empty d.citations);
    }

    -- Citations and feedback of the answer.
    abbrev pub with_parts : Text → Meta → Widget → Widget
    with_parts answer d w = record w {
      chips =
          if page.show_citations && not (is_empty d.citations)
          then w.chips ++ build_citations setup.is_safe_url d.citations ∷ []
          else w.chips;
      feedbacks =
          if page.show_feedback && not (is_locked d)
          then w.feedbacks
            ++ record {
              question = take 200 w.messages.last_user_message;
              answer = take 300 answer;
              message_id = d.message_id;
            }
              ∷ []
          else w.feedbacks;
    }

    unfoldable pub handle_answer_result : ℕ → Text → Meta → Widget → Widget
    unfolding add_message build_citations handle_answer follow_up
    handle_answer_result now answer d w = follow_up now answer d (record (with_parts answer d w) {
      messages = add_message page now answer bot (answer_opts d) w.messages;
      chat = handle_answer answer d.payload w.chat;
    })

    -- The row of a streamed answer once it is typed out.
    abbrev pub finished_row : Text → Meta → Row → Row
    finished_row answer d r = record r {
      content = shown page bot answer;
      has_citations = page.show_citations && not (is_empty d.citations) || r.has_citations;
      has_time = page.show_timestamp || r.has_time;
      has_feedback = page.show_feedback && not (is_locked d) || r.has_feedback;
    }

    -- `handleAnswerResultFromEl` for the row at an index.
    unfoldable pub handle_answer_result_from_el : ℕ → ℕ → Text → Meta → Widget → Widget
    unfolding at_row build_citations type_out follow_up save_local_history
    handle_answer_result_from_el now i answer d w = saved_now now (
        follow_up now answer d
          (record (with_parts answer d
            (with_children (at_row i (finished_row answer d) w.messages.children) w)) {
              chat = type_out answer d.payload w.chat;
            }))
