-- ===== src/Voice.antt =====
-- static/widget/widget.js: speech input (`initVoice`). The browser's recognizer is seen through its
-- events; `running` says that it was started and has not ended, and then `start()` throws.
pub mod Session
mod Tests
use website_ai_assistant.Prelude.{
  ℕ, ◌+◌, Bool, true, false, not, ◌||◌, List, [], ◌∷◌, ◌++◌, some, if◌then◌else◌, is_empty,
}
use website_ai_assistant.Text.{Text}
use website_ai_assistant.Notice.{microphone_denied, speech_down}
use website_ai_assistant.Chat.{Chat, configured, hearing, update_send_state}

pub record Voice : Type 0 where
  pub chat : Chat
  pub ready : Bool
  pub listening : Bool
  pub marked : Bool
  pub wave_hidden : Bool
  pub running : Bool
  pub stops : ℕ

-- `ev.error`
pub data Fault : Type 0 where
  not_allowed network other : Fault

-- `supported`: the browser has a recognizer, and its constructor does not throw.
unfoldable pub init_voice : (supported enabled : Bool) → Voice → Voice
init_voice supported enabled v =
    if not supported || not enabled
    then v
    else record v { ready = true; chat = record v.chat { mic_hidden = false } }

-- `marked` stands for the class `asw-listening`.
abbrev pub begin_listening : Voice → Voice
begin_listening v = record v {
  listening = true;
  marked = true;
  wave_hidden = false;
  running = true;
  chat = record v.chat { placeholder = hearing };
}

-- The click on the microphone; `stops` counts the calls of `stop()`.
unfoldable pub click_mic : Voice → Voice
click_mic v =
    if v.listening
    then record v { stops = v.stops + 1 }
    else if v.chat.is_loading || v.running
    then v
    else begin_listening v

-- The loop of `onresult` over the transcripts.
unfoldable pub transcript : List Text → Text
transcript [] = []
transcript (s ∷ ss) = s ++ transcript ss

unfoldable pub on_result : List Text → Voice → Voice
unfolding transcript update_send_state
on_result ss v = record v { chat = update_send_state (record v.chat { value = transcript ss }) }

abbrev end_listening : Voice → Voice
end_listening v = record v { listening = false; marked = false; wave_hidden = true }

unfoldable pub on_end : Voice → Voice
on_end v = record (end_listening v) {
  running = false;
  chat = if is_empty v.chat.value then record v.chat { placeholder = configured } else v.chat;
}

unfoldable pub on_error : Fault → Voice → Voice
on_error not_allowed v = record (end_listening v) {
  chat = record v.chat { toast = some microphone_denied };
}
on_error network v = record (end_listening v) { chat = record v.chat { toast = some speech_down } }
on_error other v = end_listening v
