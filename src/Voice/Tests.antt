-- ===== src/Voice/Tests.antt =====
-- Tests of speech input, and its theorems at concrete inputs.
use website_ai_assistant.Prelude.{◌≡◌, refl, true, false, some}
use website_ai_assistant.Text.{text}
use website_ai_assistant.Chat.{configured, block}
use website_ai_assistant.Chat.Steps
use website_ai_assistant.Voice.{Voice, init_voice, click_mic, on_end}
use website_ai_assistant.Voice.Session.{mounted, clicks_mic, here, next, IsHeard, reachable-IsHeard}

abbrev phone : Voice
phone = mounted true true true

mic_shown : phone.chat.mic_hidden ≡ false
unfolding init_voice
mic_shown = refl

reachable-IsHeard_example : IsHeard (click_mic phone)
reachable-IsHeard_example = reachable-IsHeard true true true (next here (clicks_mic mic_shown))

abbrev at_rest : Voice
at_rest = record phone { listening = false; running = false; chat = Steps.mounted false }

-- A lock while the widget listens, and then the end: the visitor stays locked out, but the lock
-- message is gone from the placeholder.
abbrev locked_out : Voice
locked_out =
    let v = click_mic at_rest in
    on_end (record v { chat = block (some (text "Quota used up")) v.chat })

lock_forgotten : (locked_out.chat.is_blocked ≡ true) × (locked_out.chat.placeholder ≡ configured)
unfolding click_mic on_end block
lock_forgotten = (refl, refl)
