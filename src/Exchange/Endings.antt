-- ===== src/Exchange/Endings.antt =====
-- static/widget/widget.js: the rest of `streamChat` once its promise has settled, and what `sendText` does
-- once `streamChat` is through, on the whole widget. What `callBackend` gives is an argument; sound,
-- focus and the report of a failure (`sendEvent`) are left out.
use website_ai_assistant.Prelude.{ℕ, true, false, ◌++◌, Option, some, if◌then◌else◌}
use website_ai_assistant.Text.{Text}
use website_ai_assistant.Notice.{Notice}
use website_ai_assistant.Notice.Words.{words}
use website_ai_assistant.Stream.{Payload, Stream}
use website_ai_assistant.Stream.Reader.{
  Reader, Ending, waiting, typing, call_backend, nothing, direct, kept_partial, throws, ellipsis,
  after,
}
use website_ai_assistant.Chat.{
  Chat, call_again, failure, add_row, show_toast, user_message, set_loading,
}
use website_ai_assistant.History.{bot, Opts, Page, add_message}
use website_ai_assistant.Answer.{Widget, Setup, Meta, begun}
use website_ai_assistant.Answer.Handlers.{handle_answer_result, handle_answer_result_from_el}
use website_ai_assistant.Exchange.{hand_over}

-- How `callBackend` ends, where it is asked.
pub data Called : Type 0 where
  replied : Text → Meta → Called
  call_failed : Option Notice → Called

-- The promise of `streamChat`: it has not settled, or is fulfilled, or an error was thrown.
pub data Promise : Type 0 where
  unsettled fulfilled : Promise
  thrown : Option Notice → Promise

abbrev pub error_opts : Opts
error_opts = record {
  streaming = false;
  is_error = true;
  no_retry = false;
  skip_feedback = true;
  citations = false;
}

-- The `catch` of `sendText`: a row with the error, and a toast.
unfoldable pub report : Page → ℕ → Option Notice → Widget → Widget
unfolding words add_message
report page now n w = record w {
  messages = add_message page now (words (user_message n)) bot error_opts w.messages;
  chat = show_toast (user_message n) (add_row (failure (user_message n)) w.chat);
}

-- `this.abortStream = null`, and `setLoading(false)`.
abbrev pub ready : Chat → Chat
unfolding set_loading
ready c = set_loading false (record c { abort_stream = false })

-- What `sendText` does with the promise.
unfoldable pub conclude : Page → ℕ → Widget × Promise → Widget
unfolding report
conclude page now (w, unsettled) = w
conclude page now (w, fulfilled) = record w { chat = ready w.chat }
conclude page now (w, thrown n) = let v = report page now n w in record v { chat = ready v.chat }

-- The message goes to the backend once more.
abbrev pub asked_again : Widget → Widget
asked_again w = record w { chat = call_again w.chat }

module _ (setup : Setup) (page : Page) (now i : ℕ) (meta : Option Payload → Meta) where
  -- `callBackend(message)`, a second request, and `this.handleAnswerResult(result.answer, result)`.
  unfoldable pub answer_called : Called → Widget → Widget × Promise
  unfolding handle_answer_result call_again
  answer_called (replied t d) w =
      (handle_answer_result setup page now t d (asked_again w), fulfilled)
  answer_called (call_failed n) w = (asked_again w, thrown n)

  -- The end of `streamChat` behind its promise, for the row at an index.
  unfoldable pub finish_stream : Called → Ending → Stream → Widget → Widget × Promise
  unfolding answer_called handle_answer_result handle_answer_result_from_el
  finish_stream called waiting s w = (w, unsettled)
  finish_stream called typing s w = (w, fulfilled)
  finish_stream called call_backend s w = answer_called called w
  finish_stream called nothing s w = (w, fulfilled)
  finish_stream called (direct d t) s w =
      (handle_answer_result setup page now t (meta (some d)) w, fulfilled)
  finish_stream called kept_partial s w = (
    handle_answer_result_from_el setup page now i (s.streamed ++ ellipsis) (meta s.finish_meta) w,
    fulfilled,
  )
  finish_stream called (throws n) s w = (w, thrown n)

  -- The widget when the promise settles: the row that the first token has appended, with what the
  -- typewriter has handed on.
  unfoldable pub streamed_so_far : Reader → Widget → Widget
  unfolding hand_over
  streamed_so_far r w =
      let opened = if r.stream.has_els then begun page w else w in
      hand_over setup page now i meta r.stream.results opened

  -- From the settled promise to the end of `sendText`.
  unfoldable pub end_request : Called → Reader → Widget → Widget
  unfolding streamed_so_far after finish_stream conclude
  end_request called r w =
      conclude page now
        (finish_stream called (after r.settled r.stream).1 r.stream (streamed_so_far r w))
