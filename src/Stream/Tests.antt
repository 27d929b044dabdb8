-- ===== src/Stream/Tests.antt =====
-- Tests of a streamed answer, and its theorems at concrete inputs.
use website_ai_assistant.Prelude.{◌≡◌, refl, List, [], ◌∷◌, true, false, arith}
use website_ai_assistant.Text.{Text, text, eq_text}
use website_ai_assistant.Stream.{Payload, Stream, initial, frames}
use website_ai_assistant.Stream.Reader.{deliver, Parsed, value, on_end, after, resolved}
use website_ai_assistant.Stream.Inputs.{Input, event, tick, steps, received}
use website_ai_assistant.Stream.Typing.{IsClosing, IsTyped, frames-IsTyped}
use website_ai_assistant.Stream.Received.{IsShown, fresh, steps-IsShown}

abbrev says : Text → Payload
says t = record {
  conversation_id = [];
  conversation_token = [];
  token = t;
  answer = [];
  message = [];
  quota_message = [];
  quota_locked = false;
  guard_blocked = false;
  fallback = false;
}

-- A parser that reads each payload as the token that it is.
abbrev parse : Text → Parsed
parse s = value (says s)

abbrev sent : List Input
sent =
    event (record { name = text "token"; payload = text "Hel" })
    ∷ tick
    ∷ event (record { name = text "token"; payload = text "lo" })
    ∷ event (record { name = text "done"; payload = [] })
    ∷ tick
    ∷ []

received_hello : received parse sent ≡ text "Hello"
unfolding text eq_text
received_hello = refl

shown :
    (frames 4 (after resolved (on_end (steps parse fresh sent)).stream).0).painted ≡ text "Hello"
unfolding frames after on_end steps eq_text text deliver
shown = refl

steps-IsShown_example :
    IsShown
      (frames 4
        (after
          (on_end (steps parse fresh sent)).settled
          (on_end (steps parse fresh sent)).stream).0)
      (received parse sent)
unfolding eq_text text steps on_end deliver
steps-IsShown_example =
    steps-IsShown parse sent 4 (ground arith) (ground arith) refl (omega arith) refl

-- A closed stream of five characters of which two are shown.
abbrev closing : Stream
closing = record initial {
  streamed = text "Hello";
  shown = 2;
  painted = text "He";
  closed = true;
  first_token = true;
  has_els = true;
  raf = true;
}

closing-IsClosing : IsClosing closing
unfolding text
closing-IsClosing = ground arith

frames-IsTyped_example : IsTyped closing (frames 3 closing)
unfolding text
frames-IsTyped_example = frames-IsTyped 3 closing closing-IsClosing (omega arith)
