-- ===== src/Skin/Tests.antt =====
-- The theorems on the skins at concrete inputs.
use website_ai_assistant.Prelude.{Option, none, ◌≡◌, refl, List, [], ◌∷◌, Bool, true, false}
use website_ai_assistant.Text.{text}
use website_ai_assistant.Stream.{Payload, initial}
use website_ai_assistant.Chat.Steps.{mounted}
use website_ai_assistant.Backend.{no_fields, str, Fetched, response, object, is_ok}
use website_ai_assistant.Stream.Reader.{Conversation, call_backend, direct}
use website_ai_assistant.Answer.{Meta}
use website_ai_assistant.Answer.Samples.{site, shop, waiting}
use website_ai_assistant.Exchange.Endings.{call_failed}
use website_ai_assistant.Exchange.Endings
use website_ai_assistant.Backend
use website_ai_assistant.Skin
use website_ai_assistant.Skin.Calls.{called_by, skin_called_by}
use website_ai_assistant.Skin.Ends
use website_ai_assistant.Skin.Alike.{finish_stream-same}
use website_ai_assistant.Skin.Agrees.{
  Event, types, enters, picks, responds, ticks, skin_step, widget_step, run, run-skin_step,
}
use website_ai_assistant.Skin.Unlocked.{is_block}

abbrev says : Bool → Payload
says locked = record {
  conversation_id = [];
  conversation_token = [];
  token = [];
  answer = text "Yes";
  message = [];
  quota_message = [];
  quota_locked = locked;
  guard_blocked = false;
  fallback = false;
}

abbrev reply : Fetched
reply = response 200 (object (record no_fields { answer = str (text "Yes") }))

abbrev broken : Fetched
broken = response 500 (object (record no_fields { message = str (text "Down") }))

not_blocked : is_block broken ≡ false
unfolding is_ok
not_blocked = refl

abbrev exchange : List Event
exchange =
    types (text "hi")
    ∷ enters true
    ∷ ticks
    ∷ responds reply
    ∷ picks false (text "more")
    ∷ responds broken
    ∷ []

abbrev nobody : Conversation
nobody = record { id = []; token = []; stored_id = []; stored_token = [] }

reply_open : is_block reply ≡ false
unfolding is_ok
reply_open = refl

run-skin_step_example :
    run skin_step exchange (nobody, mounted false)
    ≡ run widget_step exchange (nobody, mounted false)
run-skin_step_example =
    run-skin_step exchange nobody (mounted false)
      (tt, (tt, (tt, ((reply_open, refl), (tt, ((not_blocked, refl), tt)))))) refl

abbrev open_meta : Option Payload → Meta
open_meta m = record {
  payload = says false;
  citations = [];
  message_id = text "7";
  rule_actions = [];
}

abbrev extras : Meta
extras = open_meta none

finish_stream-same_example :
    Endings.finish_stream shop site 9 1 open_meta
      (called_by extras (Backend.call_backend reply nobody).1)
      call_backend
      initial
      waiting
    ≡ Ends.finish_stream shop site 9 1 open_meta
        (skin_called_by extras (Skin.call_backend reply nobody).1)
        call_backend
        initial
        waiting
finish_stream-same_example =
    finish_stream-same shop site 9 1 open_meta reply nobody extras call_backend initial waiting
      reply_open refl refl tt

-- An answer without a token: the widget shows it, the skin waits for a second one.
asks_twice :
    (Ends.finish_stream shop site 9 1 open_meta
      (call_failed none)
      (direct (says false) (text "Yes"))
      initial
      waiting).1
    ≡ Endings.thrown none
unfolding Ends.finish_stream
asks_twice = refl
