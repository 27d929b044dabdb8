-- ===== src/Chat/Tests.antt =====
-- Tests of the composer, and its theorems at concrete inputs.
use website_ai_assistant.Prelude.{◌≡◌, refl, [], true, false, inl, ◌⊎◌, ◌&&◌}
use website_ai_assistant.Text.{Text, text}
use website_ai_assistant.Stream.{Payload}
use website_ai_assistant.Chat.{Chat, call_again, restore_lock, answered, send_text, settle}
use website_ai_assistant.Chat.Steps.{picks, mounted, here, next}
use website_ai_assistant.Chat.Lock.{IsStoredLock, Reach-lock}
use website_ai_assistant.Chat.Invariant.{IsSound, reachable-IsSound, Step-requests}

abbrev hi : Text
hi = text "hi"

-- A request is under way after a suggestion was picked.
abbrev asking : Chat
asking = send_text true true hi (mounted false)

reachable-IsSound_example : IsSound asking
reachable-IsSound_example = reachable-IsSound false (next here (picks true true hi))

asking_loading : asking.is_loading ≡ true
unfolding send_text text
asking_loading = refl

Step-requests_example :
    ((send_text true true (text "again") asking).requests ≡ asking.requests)
    ⊎ (((asking.is_loading && asking.abort_stream) ≡ true)
        × (send_text true true (text "again") asking ≡ call_again asking))
Step-requests_example = Step-requests (inl asking_loading) (picks true true (text "again"))

abbrev verdict : Payload
verdict = record {
  conversation_id = [];
  conversation_token = [];
  token = [];
  answer = text "no";
  message = [];
  quota_message = [];
  quota_locked = false;
  guard_blocked = true;
  fallback = false;
}

abbrev told : Chat
told = settle (answered (text "no") verdict) asking

-- A reload of a visitor who is locked out, and a message that is refused.
abbrev reloaded : Chat
reloaded = send_text true true hi (restore_lock (mounted true))

Reach-lock_example : IsStoredLock reloaded
Reach-lock_example = Reach-lock (mounted true) (next here (picks true true hi))

reloaded_blocked : (reloaded.is_blocked ≡ true) × (reloaded.requests ≡ [])
unfolding send_text restore_lock text
reloaded_blocked = (refl, refl)
