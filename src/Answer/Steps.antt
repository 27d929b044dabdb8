-- ===== src/Answer/Steps.antt =====
-- What happens in a conversation, as steps of the whole widget.
use website_ai_assistant.Prelude.{ℕ, false}
use website_ai_assistant.Text.{Text}
use website_ai_assistant.History.{user, Opts, Page, add_message}
use website_ai_assistant.Answer.{Widget, Setup, Meta, start_anew, begun}
use website_ai_assistant.Answer.Handlers.{handle_answer_result, handle_answer_result_from_el}

abbrev pub no_opts : Opts
no_opts = record {
  streaming = false;
  is_error = false;
  no_retry = false;
  skip_feedback = false;
  citations = false;
}

abbrev pub asked : Page → ℕ → Text → Widget → Widget
asked page now s w = record w {
  messages = add_message page now s user no_opts (record w.messages { last_user_message = s });
}

module _ (setup : Setup) (page : Page) where
  pub data Step (w : Widget) : Widget → Type 0 where
    asks : (now : ℕ) (s : Text) → Step w (asked page now s w)
    answers :
        (now : ℕ) (answer : Text) (d : Meta)
        → Step w (handle_answer_result setup page now answer d w)
    begins : Step w (begun page w)
    -- the typewriter has come to the end of the row at an index
    finishes :
        (now i : ℕ) (answer : Text) (d : Meta)
        → Step w (handle_answer_result_from_el setup page now i answer d w)
    starts_anew : (greeting : Text) → Step w (start_anew greeting w)

  pub data Reach (w : Widget) : Widget → Type 0 where
    here : Reach w w
    next : {d e : Widget} → Reach w d → Step d e → Reach w e
