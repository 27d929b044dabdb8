-- ===== src/Backend/Tests.antt =====
-- Tests of the requests, and their theorems at concrete inputs.
use website_ai_assistant.Prelude.{◌≡◌, refl, [], true, some}
use website_ai_assistant.Text.{text, trim}
use website_ai_assistant.Notice.{service_down}
use website_ai_assistant.Stream.Reader.{Conversation}
use website_ai_assistant.Backend.{
  str, Body, object, response, returns, throws, no_fields, call_backend, result_of,
}

abbrev nobody : Conversation
nobody = record { id = []; token = []; stored_id = []; stored_token = [] }

abbrev hello : Body
hello = record no_fields { answer = str (text " hi "); conversation_id = text "7" }

abbrev barred : Body
barred = record no_fields { guard_blocked = true; message = str (text "no") }

answered :
    (call_backend (response 200 (object hello)) nobody).1 ≡ returns (result_of (text "hi") hello)
unfolding call_backend result_of text trim
answered = refl

remembered : (call_backend (response 200 (object hello)) nobody).0.stored_id ≡ text "7"
unfolding call_backend text trim
remembered = refl

down : (call_backend (response 503 (object barred)) nobody).1 ≡ throws (some service_down)
unfolding call_backend
down = refl
