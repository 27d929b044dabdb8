-- ===== src/Exchange/Tests.antt =====
-- A streamed exchange at a concrete input.
use website_ai_assistant.Prelude.{
  true, ◌≡◌, refl, [], ◌∷◌, List, Option, none, some, false, arith, length,
}
use website_ai_assistant.Text.{Text, text, trim, eq_text}
use website_ai_assistant.Sse.{SseEvent}
use website_ai_assistant.Sse.Frames.{joined}
use website_ai_assistant.Sse.Wire.{wire, IsPlain}
use website_ai_assistant.Stream.{Payload, frame}
use website_ai_assistant.Notice.{unable}
use website_ai_assistant.Notice.Words.{words}
use website_ai_assistant.Stream.Inputs.{event, tick, steps}
use website_ai_assistant.Stream.Reader.{
  Parsed, value, Reader, settle, resolved, rejected, aborted, deliver,
}
use website_ai_assistant.Chat.{send_text}
use website_ai_assistant.Chat.Steps.{Reach}
use website_ai_assistant.Stream.Received.{fresh}
use website_ai_assistant.History.{unmark, Child, row}
use website_ai_assistant.Answer.{Meta, Widget, begun}
use website_ai_assistant.Answer.Handlers.{handle_answer_result}
use website_ai_assistant.Answer.Paths.{conversation}
use website_ai_assistant.Answer.Samples.{site, shop, waiting}
use website_ai_assistant.Exchange.{Turn, chunk, frame_due, pump, hand_over}
use website_ai_assistant.Exchange.Cuts.{chunks_of}
use website_ai_assistant.Exchange.Handed.{said, final_of}
use website_ai_assistant.Exchange.Delivered.{ended, hand_over-pump}
use website_ai_assistant.Exchange.Endings.{Called, call_failed, end_request}
use website_ai_assistant.Exchange.Replies.{IsAnswered, IsKept, end_request-IsAnswered}
use website_ai_assistant.Exchange.Settled.{end_request-Reach}

abbrev says : Text → Payload
says t = record {
  conversation_id = [];
  conversation_token = [];
  token = t;
  answer = [];
  message = [];
  quota_message = [];
  quota_locked = false;
  guard_blocked = false;
  fallback = false;
}

-- A parser that reads each payload as the token that it is.
abbrev parse : Text → Parsed
parse s = value (says s)

abbrev with_payload : Option Payload → Meta
with_payload none = record { payload = says []; citations = []; message_id = []; rule_actions = [] }
with_payload (some d) = record {
  payload = d;
  citations = [];
  message_id = text "7";
  rule_actions = [];
}

abbrev hello : SseEvent
hello = record { name = text "token"; payload = text "Hello" }

abbrev bye : SseEvent
bye = record { name = text "done"; payload = text "{}" }

-- The response, cut inside a line and inside the blank line, with frames between.
abbrev turns : List Turn
turns =
    chunk (text "event: token\ndata: Hel")
    ∷ frame_due
    ∷ chunk (text "lo\n\nevent: done\ndata: {}\n")
    ∷ frame_due
    ∷ frame_due
    ∷ chunk (text "\n")
    ∷ []

hello-IsPlain : IsPlain hello
unfolding text
hello-IsPlain = record {
  name_line = omega arith;
  name_trim = unfold trim in refl;
  payload_line = omega arith;
  payload_trim = unfold trim in refl;
}

bye-IsPlain : IsPlain bye
unfolding text
bye-IsPlain = record {
  name_line = omega arith;
  name_trim = unfold trim in refl;
  payload_line = omega arith;
  payload_trim = unfold trim in refl;
}

turns-joined : joined (chunks_of turns) ≡ wire (hello ∷ bye ∷ [])
unfolding text
turns-joined = refl

hand_over-pump_example :
    conversation (
      hand_over shop site 9
        (length (unmark waiting.messages.children))
        with_payload
        (ended 4 (pump parse fresh turns)).results
        (begun site waiting))
    ≡ conversation (
        handle_answer_result shop site 9
          (said parse (hello ∷ bye ∷ []))
          (with_payload (final_of parse none (hello ∷ bye ∷ [])))
          waiting)
unfolding text eq_text
hand_over-pump_example =
    hand_over-pump parse (hello ∷ bye ∷ []) turns 4 shop site 9 with_payload waiting
      (hello-IsPlain, (bye-IsPlain, tt)) turns-joined (ground arith) (ground arith) (ground arith)
      refl (omega arith)

-- A widget that awaits the answer to a question.
abbrev awaiting : Widget
awaiting = record waiting { chat = send_text true true (text "When?") waiting.chat }

awaiting_loading : awaiting.chat.is_loading ≡ true
unfolding send_text text
awaiting_loading = refl

awaiting_stream : awaiting.chat.abort_stream ≡ true
unfolding send_text text
awaiting_stream = refl

-- The response broke off behind its first token.
abbrev broken : Reader
broken = settle (steps parse fresh (event hello ∷ tick ∷ [])) (rejected aborted)

abbrev no_answer : Called
no_answer = call_failed none

end_request-IsAnswered_example :
    IsAnswered shop site 9 1 with_payload
      (end_request shop site 9 1 with_payload no_answer broken awaiting)
    × IsKept shop site 9 1 with_payload broken
        (end_request shop site 9 1 with_payload no_answer broken awaiting)
end_request-IsAnswered_example =
    end_request-IsAnswered shop site 9 1 with_payload parse (event hello ∷ tick ∷ [])
      (rejected aborted) no_answer awaiting (ground arith)

end_request-Reach_example :
    Reach awaiting.chat (end_request shop site 9 1 with_payload no_answer broken awaiting).chat
end_request-Reach_example =
    end_request-Reach shop site 9 1 with_payload no_answer broken awaiting awaiting_loading
      awaiting_stream

-- The text that came before the break is kept, with an ellipsis.
abbrev last_text : List Child → Text
last_text [] = []
last_text (row r ∷ []) = r.content
last_text (c ∷ cs) = last_text cs

kept :
    last_text (end_request shop site 9 1 with_payload no_answer broken awaiting).messages.children
    ≡ text "Hello …"
unfolding text eq_text end_request steps deliver settle frame
kept = refl

-- Without a text, the message is sent a second time.
twice :
    (end_request shop site 9 1 with_payload no_answer
      (settle fresh resolved)
      awaiting).chat.requests
    ≡ text "When?" ∷ text "When?" ∷ []
unfolding text end_request settle send_text
twice = refl

-- Without an answer to that, the error stands there.
excused :
    last_text
      (end_request shop site 9 1 with_payload no_answer
        (settle fresh resolved)
        awaiting).messages.children
    ≡ words unable
unfolding text end_request settle words
excused = refl
