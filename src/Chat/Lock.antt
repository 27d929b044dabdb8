-- ===== src/Chat/Lock.antt =====
-- What the lock of a blocked visitor does, and what undoes it.
use website_ai_assistant.Prelude.{
  refl, Bool, true, false, ◌||◌, [], ◌∷◌, ◌++◌, Option, some, is_empty, ◌≡◌, arith,
}
use website_ai_assistant.Text.{Text, trim}
use website_ai_assistant.Stream.{Payload}
use website_ai_assistant.Notice.{blocked, offline}
use website_ai_assistant.Chat.Steps.{
  Step, edits, dictates, presses_enter, clicks_send, picks, settles, asks_again, types_out, locks,
  restores_lock, unlocks, ticks, Reach, here, next,
}
use website_ai_assistant.Chat.{
  Outcome, typed, failed, update_send_state, click_send, next_status, restore_lock, call_again,
  Chat, user, failure, answered, block, clear_blocked, send_text, send, settle, type_out,
}

-- The lock is the stored one.
abbrev pub IsStoredLock : Chat → Type 0
IsStoredLock c = c.is_blocked ≡ c.stored_blocked

-- An answer that blocks the visitor, or locks the quota, leaves the widget blocked, now and in the
-- store; but the `finally` of the request enables the input again, so the lock shows only when the
-- next message is refused.
pub settle-locks :
    (t : Text) (d : Payload) (c : Chat)
    → (d.guard_blocked || d.quota_locked) ≡ true
    → ((settle (answered t d) c).is_blocked ≡ true)
      × ((settle (answered t d) c).stored_blocked ≡ true)
      × ((settle (answered t d) c).input_disabled ≡ false)
      × ((settle (answered t d) c).send_disabled ≡ is_empty (trim c.value))
unfolding settle
settle-locks t d c h = ground arith

-- A streamed answer locks the input for good: the typewriter ends after the request is settled.
pub type_out-locks :
    (t : Text) (d : Payload) (c : Chat)
    → (d.guard_blocked || d.quota_locked) ≡ true
    → ((type_out t d c).is_blocked ≡ true)
      × ((type_out t d c).input_disabled ≡ true)
      × ((type_out t d c).send_disabled ≡ true)
unfolding type_out
type_out-locks t d c h = ground arith

-- Unlocking gives back the input and the send button of an idle widget with a text in it, but never
-- the microphone, which locking hides.
pub clear_blocked-block :
    (m : Option Text) (c : Chat)
    → c.is_loading ≡ false
    → ((clear_blocked (block m c)).is_blocked ≡ false)
      × ((clear_blocked (block m c)).input_disabled ≡ false)
      × ((clear_blocked (block m c)).send_disabled ≡ is_empty (trim c.value))
      × ((clear_blocked (block m c)).mic_hidden ≡ true)
unfolding clear_blocked block
clear_blocked-block m c h = ground arith

-- What the user typed is gone when the widget refuses to send it because of the lock.
pub send-blocked :
    (online streaming : Bool) (c : Chat)
    → c.is_blocked ≡ true
    → c.is_loading ≡ false
    → is_empty (trim c.value) ≡ false
    → ((send online streaming c).value ≡ [])
      × ((send online streaming c).rows ≡ c.rows)
      × ((send online streaming c).requests ≡ c.requests)
      × ((send online streaming c).toast ≡ some blocked)
unfolding send
send-blocked online streaming c h k m = ground arith

-- A message sent offline stays in the conversation with an error behind it; nothing is requested
-- and the widget is ready again.
pub send_text-offline :
    (streaming : Bool) (t : Text) (c : Chat)
    → c.is_blocked ≡ false
    → c.is_loading ≡ false
    → is_empty t ≡ false
    → ((send_text false streaming t c).rows ≡ (c.rows ++ user t ∷ []) ++ failure offline ∷ [])
      × ((send_text false streaming t c).requests ≡ c.requests)
      × ((send_text false streaming t c).is_loading ≡ false)
      × ((send_text false streaming t c).last_user_message ≡ t)
unfolding send_text
send_text-offline streaming t c h k m = ground arith

send_text-lock :
    (o s : Bool) (t : Text) (c : Chat) → IsStoredLock c → IsStoredLock (send_text o s t c)
unfolding send_text
send_text-lock o s t c h = ground arith

send-lock : (o s : Bool) (c : Chat) → IsStoredLock c → IsStoredLock (send o s c)
unfolding send
send-lock o s c h = ground (arith, send_text-lock o s (trim c.value) (record c { value = [] }))

settle-lock : (o : Outcome) (c : Chat) → IsStoredLock c → IsStoredLock (settle o c)
unfolding settle
settle-lock (answered t d) c h = ground arith
settle-lock typed c h = ground arith
settle-lock (failed n) c h = ground arith

Step-lock : {c d : Chat} → Step c d → IsStoredLock c → IsStoredLock d
unfolding update_send_state click_send type_out block clear_blocked next_status restore_lock
    call_again
Step-lock {c} (edits t e) h = h
Step-lock {c} (dictates t) h = h
Step-lock {c} (presses_enter o s e) h = send-lock o s c h
Step-lock {c} (clicks_send o s e) h = ground (arith, send-lock o s c h)
Step-lock {c} (picks o s t) h = send_text-lock o s t c h
Step-lock {c} (settles o e) h = settle-lock o c h
Step-lock {c} (asks_again e a) h = h
Step-lock {c} (types_out t d) h = ground arith
Step-lock {c} (locks m) h = refl
Step-lock {c} restores_lock h = refl
Step-lock {c} unlocks h = ground arith
Step-lock {c} (ticks e) h = h

-- From `restoreConversation` on, whatever the composer was like and the browser had kept, and whatever
-- the user, the network and the timers do: the visitor is locked out just when the store says so, so
-- that a reload brings the same lock back.
pub Reach-lock : (c : Chat) {d : Chat} → Reach (restore_lock c) d → IsStoredLock d
unfolding restore_lock
Reach-lock c here = refl
Reach-lock c (next r s) = Step-lock s (Reach-lock c r)
