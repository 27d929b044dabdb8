-- ===== src/Skin/Ends.antt =====
-- static/widget/widget-minimal.js: how an answer is handled and how `streamChat` goes on behind its promise,
-- where the skins differ from static/widget/widget.js: they know of no lock, and they ask the backend again
-- when a stream ends without a token, whatever its last payload says.
use website_ai_assistant.Prelude.{
  ℕ, false, not, ◌&&◌, ◌||◌, [], ◌∷◌, ◌++◌, Option, if◌then◌else◌, is_empty, take,
}
use website_ai_assistant.Text.{Text}
use website_ai_assistant.Stream.{Payload, Stream}
use website_ai_assistant.Stream.Reader.{
  Ending, waiting, typing, call_backend, nothing, direct, kept_partial, throws, ellipsis,
}
use website_ai_assistant.Chat.{call_again}
use website_ai_assistant.History.{bot, Row, Opts, Page, shown, add_message}
use website_ai_assistant.Links.{build_citations}
use website_ai_assistant.Answer.{Meta, Widget, Setup, at_row, with_children, saved_now}
use website_ai_assistant.Answer.Handlers.{follow_up}
use website_ai_assistant.Exchange.Endings.{
  asked_again, Called, replied, call_failed, Promise, fulfilled, thrown, unsettled,
}
use website_ai_assistant.Skin.{handle_answer}

module _ (setup : Setup) (page : Page) where
  abbrev pub answer_opts : Meta → Opts
  answer_opts d = record {
    streaming = false;
    is_error = false;
    no_retry = false;
    skip_feedback = false;
    citations = not (is_empty d.citations);
  }

  abbrev pub with_parts : Text → Meta → Widget → Widget
  with_parts answer d w = record w {
    chips =
        if page.show_citations && not (is_empty d.citations)
        then w.chips ++ build_citations setup.is_safe_url d.citations ∷ []
        else w.chips;
    feedbacks =
        if page.show_feedback
        then w.feedbacks
          ++ record {
            question = take 200 w.messages.last_user_message;
            answer = take 300 answer;
            message_id = d.message_id;
          }
            ∷ []
        else w.feedbacks;
  }

  unfoldable pub handle_answer_result : ℕ → Text → Meta → Widget → Widget
  unfolding add_message build_citations handle_answer follow_up
  handle_answer_result now answer d w =
      follow_up setup now answer d (record (with_parts answer d w) {
        messages = add_message page now answer bot (answer_opts d) w.messages;
        chat = handle_answer answer d.payload w.chat;
      })

  abbrev pub finished_row : Text → Meta → Row → Row
  finished_row answer d r = record r {
    content = shown page bot answer;
    has_citations = page.show_citations && not (is_empty d.citations) || r.has_citations;
    has_time = page.show_timestamp || r.has_time;
    has_feedback = page.show_feedback || r.has_feedback;
  }

  unfoldable pub handle_answer_result_from_el : ℕ → ℕ → Text → Meta → Widget → Widget
  unfolding at_row build_citations follow_up
  handle_answer_result_from_el now i answer d w = saved_now now (
      follow_up setup now answer d (
        with_parts answer d
          (with_children (at_row i (finished_row answer d) w.messages.children) w)))

  module _ (now i : ℕ) (meta : Option Payload → Meta) where
    -- `callBackend(message)`, a second request, and `handleAnswerResult`.
    unfoldable pub answer_called : Called → Widget → Widget × Promise
    unfolding handle_answer_result call_again
    answer_called (replied t d) w = (handle_answer_result now t d (asked_again w), fulfilled)
    answer_called (call_failed n) w = (asked_again w, thrown n)

    unfoldable pub finish_stream : Called → Ending → Stream → Widget → Widget × Promise
    unfolding answer_called handle_answer_result_from_el
    finish_stream called waiting s w = (w, unsettled)
    finish_stream called typing s w = (w, fulfilled)
    finish_stream called call_backend s w = answer_called called w
    finish_stream called nothing s w = (w, fulfilled)
    finish_stream called (direct d t) s w = answer_called called w
    finish_stream called kept_partial s w = (
      handle_answer_result_from_el now i (s.streamed ++ ellipsis) (meta s.finish_meta) w,
      fulfilled,
    )
    finish_stream called (throws n) s w = (w, thrown n)
