-- ===== src/Answer/Paths.antt =====
-- An answer that was streamed and one that came whole leave the same conversation.
use website_ai_assistant.Prelude.{
  ℕ, ◌+◌, Bool, true, not, ◌||◌, List, [], ◌∷◌, ◌++◌, if◌then◌else◌, is_empty, length, ◌≡◌, refl,
  sym, ap, ◌∙◌, arith,
}
use website_ai_assistant.Text.{Text}
use website_ai_assistant.Links.{Chip}
use website_ai_assistant.Chat.{block, Chat, Placeholder, handle_answer, type_out}
use website_ai_assistant.History.{
  new_row, bot, Child, row, Row, Store, Messages, Page, unmark, append_row, add_message,
  save_local_history,
}
use website_ai_assistant.Answer.{
  begun, streaming_opts, payload_of, or_else, Widget, Feedback, RuleItem, Bar, Meta, RuleAction,
  Setup, last_is_row, at_row, saved_now,
}
use website_ai_assistant.Answer.Handlers.{
  answer_opts, with_parts, maybe_show_handoff, apply_rule_action, apply_each, apply_rule_actions,
  follow_up, handle_answer_result, handle_answer_result_from_el, finished_row,
}

-- The same conversation with another memory, badge and composer.
abbrev over : Store → ℕ → Chat → Widget → Widget
over s u c w = record w { messages = record w.messages { store = s; unread_marks = u }; chat = c }

module _ (setup : Setup) (s : Store) (u : ℕ) (c : Chat) where
  handoff_over :
      (t : Text) (w : Widget)
      → maybe_show_handoff setup t (over s u c w) ≡ over s u c (maybe_show_handoff setup t w)
  unfolding maybe_show_handoff
  handoff_over t w = ground arith

  action_over :
      (t : Text) (a : RuleAction) (w : Widget)
      → apply_rule_action setup t a (over s u c w) ≡ over s u c (apply_rule_action setup t a w)
  unfolding apply_rule_action
  action_over t a w = ground (arith, handoff_over (or_else t (payload_of a)) w)

  each_over :
      (t : Text) (as_ : List RuleAction) (w : Widget)
      → apply_each setup t as_ (over s u c w) ≡ over s u c (apply_each setup t as_ w)
  unfolding apply_each
  each_over t [] w = refl
  each_over t (a ∷ as_) w =
      ap (apply_each setup t as_) (action_over t a w)
      ∙ each_over t as_ (apply_rule_action setup t a w)

  follow_up_over :
      (now : ℕ) (t : Text) (d : Meta) (w : Widget)
      → follow_up setup now t d (over s u c w)
        ≡ over
            (if is_empty d.rule_actions || not (last_is_row w.messages.children)
              then s
              else (follow_up setup now t d w).messages.store)
            u
            c
            (follow_up setup now t d w)
  unfolding follow_up apply_rule_actions save_local_history
  follow_up_over now t d w = ground (arith, each_over t d.rule_actions w, handoff_over t w)

-- The conversation without the badge, and of the composer the lock alone.
pub record Conversation : Type 0 where
  pub messages : Messages
  pub chips : List (List Chip)
  pub feedbacks : List Feedback
  pub rule_items : List RuleItem
  pub bars : List Bar
  pub lead_forms : List Text
  pub handoff_shown : Bool
  pub is_blocked : Bool
  pub placeholder : Placeholder

abbrev pub conversation : Widget → Conversation
conversation w = record {
  messages = record w.messages { unread_marks = 0 };
  chips = w.chips;
  feedbacks = w.feedbacks;
  rule_items = w.rule_items;
  bars = w.bars;
  lead_forms = w.lead_forms;
  handoff_shown = w.handoff_shown;
  is_blocked = w.chat.is_blocked;
  placeholder = w.chat.placeholder;
}

module _ (setup : Setup) (now : ℕ) (t : Text) (d : Meta) where
  -- The follow-up leaves the history saved when the answer's row is the last child and is saved.
  pub follow_up-IsSaved :
      (w : Widget)
      → last_is_row w.messages.children ≡ true
      → saved_now now w ≡ w
      → saved_now now (follow_up setup now t d w) ≡ follow_up setup now t d w
  unfolding follow_up apply_rule_actions save_local_history maybe_show_handoff
  follow_up-IsSaved w h k = ground arith

  follow_up-conversation :
      (s : Store) (u : ℕ) (c : Chat) (w : Widget)
      → conversation (saved_now now (follow_up setup now t d (over s u c w)))
        ≡ record (conversation (saved_now now (follow_up setup now t d w))) {
          is_blocked = c.is_blocked;
          placeholder = c.placeholder;
        }
  unfolding save_local_history
  follow_up-conversation s u c w =
      ap (λ x. conversation (saved_now now x)) (follow_up_over setup s u c now t d w)

at_row-append :
    (f : Row → Row) (cs : List Child) (r : Row)
    → at_row (length cs) f (cs ++ row r ∷ []) ≡ cs ++ row (f r) ∷ []
unfolding at_row
at_row-append f [] r = refl
at_row-append f (c ∷ cs) r = ap (◌∷◌ c) (at_row-append f cs r)

pub last_is_row-append : (cs : List Child) (r : Row) → last_is_row (cs ++ row r ∷ []) ≡ true
unfolding last_is_row
last_is_row-append [] r = refl
last_is_row-append (c ∷ []) r = refl
last_is_row-append (c ∷ d ∷ cs) r = last_is_row-append (d ∷ cs) r

module _ (setup : Setup) (page : Page) (now : ℕ) (answer : Text) (d : Meta) where
  finished_row_lem :
      (m : Messages)
      → finished_row setup page answer d (new_row page [] bot streaming_opts m)
        ≡ new_row page answer bot (answer_opts setup page d) m
  finished_row_lem m = ground arith

  abbrev list_after : Messages → List Child
  list_after m =
      unmark m.children ++ row (new_row page answer bot (answer_opts setup page d) m) ∷ []

  finished_list :
      (m : Messages)
      → at_row
          (length (unmark m.children))
          (finished_row setup page answer d)
          (append_row page [] bot streaming_opts m).children
        ≡ list_after m
  unfolding append_row
  finished_list m =
      at_row-append (finished_row setup page answer d) (unmark m.children) _
      ∙ ap (λ r. unmark m.children ++ row r ∷ []) (finished_row_lem m)

  -- Both ways before the follow-up, but for memory, badge and composer.
  abbrev parts_after : List Child → Widget → Widget
  parts_after cs w = record (with_parts setup page answer d w) {
    messages = record w.messages { children = cs; count = w.messages.count + 1 };
  }

  abbrev followed : Store → ℕ → Chat → List Child → Widget → Widget
  followed s u c cs w = follow_up setup now answer d (over s u c (parts_after cs w))

  whole_lem :
      (w : Widget)
      → conversation (saved_now now (handle_answer_result setup page now answer d w))
        ≡ conversation (handle_answer_result setup page now answer d w)
  unfolding handle_answer_result add_message append_row save_local_history
  whole_lem w = ap conversation (
      follow_up-IsSaved setup now answer d _ (last_is_row-append (unmark w.messages.children) _)
        refl)

  abbrev settled : Chat → Widget → Conversation
  settled c w =
      record (conversation
        (saved_now now (follow_up setup now answer d (parts_after (list_after w.messages) w)))) {
          is_blocked = c.is_blocked;
          placeholder = c.placeholder;
        }

  whole-settled :
      (w : Widget)
      → conversation (handle_answer_result setup page now answer d w)
        ≡ settled (handle_answer answer d.payload w.chat) w
  unfolding handle_answer_result add_message append_row save_local_history
  whole-settled w =
      sym (whole_lem w)
      ∙ follow_up-conversation setup now answer d _ _ (handle_answer answer d.payload w.chat)
          (parts_after (list_after w.messages) w)

  streamed-settled :
      (w : Widget)
      → conversation (
          handle_answer_result_from_el setup page now
            (length (unmark w.messages.children))
            answer
            d
            (begun page w))
        ≡ settled (type_out answer d.payload w.chat) w
  unfolding handle_answer_result_from_el append_row
  streamed-settled w =
      ap
        (λ cs. conversation (
          saved_now now (
            followed w.messages.store w.messages.unread_marks (type_out answer d.payload w.chat) cs
              w)))
        (finished_list w.messages)
      ∙ follow_up-conversation setup now answer d w.messages.store w.messages.unread_marks
          (type_out answer d.payload w.chat) (parts_after (list_after w.messages) w)

  lock_lem :
      (w : Widget)
      → settled (type_out answer d.payload w.chat) w
        ≡ settled (handle_answer answer d.payload w.chat) w
  unfolding type_out handle_answer block
  lock_lem w = ground arith

  -- After the first piece of a streamed answer has appended its row, the finished stream leaves the
  -- same conversation as the same answer delivered whole: the same rows, saved history, source
  -- links, feedback, rule links, hand-offs and lock; only the badge and the composer's other fields
  -- may differ.
  pub handle_answer_result_from_el_lem :
      (w : Widget)
      → conversation (
          handle_answer_result_from_el setup page now
            (length (unmark w.messages.children))
            answer
            d
            (begun page w))
        ≡ conversation (handle_answer_result setup page now answer d w)
  handle_answer_result_from_el_lem w = streamed-settled w ∙ lock_lem w ∙ sym (whole-settled w)
