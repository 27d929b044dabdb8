-- ===== src/Chat/Invariant.antt =====
-- What holds of the composer in every state that the page can reach.
use website_ai_assistant.Prelude.{
  ◌<◌, ◌&&◌, inl, inr, Bool, true, false, [], if◌then◌else◌, ◌≡◌, ◌⊎◌, refl, arith,
}
use website_ai_assistant.Text.{Text, trim}
use website_ai_assistant.Chat.{
  Chat, Outcome, answered, typed, failed, update_send_state, set_loading, next_status, block,
  clear_blocked, restore_lock, call_again, send_text, send, click_send, settle, type_out, conclude,
}
use website_ai_assistant.Chat.Steps.{
  Step, edits, dictates, presses_enter, clicks_send, picks, settles, asks_again, types_out, locks,
  restores_lock, unlocks, ticks, Reach, here, next, mounted,
}

-- While an answer is awaited the send button is disabled, although it looks like a stop button, so
-- no stream is aborted by it; one status timer runs then, and none at other times.
pub record IsSound (c : Chat) : Type 0 where
  pub send_off : c.is_loading ≡ true → c.send_disabled ≡ true
  pub stop_look : c.stop_shown ≡ c.is_loading
  pub timer : c.status_timer ≡ c.is_loading
  pub one_timer : c.intervals ≡ (if c.is_loading then 1 else 0)
  pub status_lt : c.status_idx < 4
  pub lock_stored : c.is_blocked ≡ true → c.stored_blocked ≡ true
  pub no_abort : c.aborts ≡ 0

pub mounted-IsSound : (kept : Bool) → IsSound (mounted kept)
mounted-IsSound kept = ground arith

set_loading-IsSound : (b : Bool) (c : Chat) → IsSound c → IsSound (set_loading b c)
unfolding set_loading
set_loading-IsSound b c h = ground arith

send_text-IsSound : (o s : Bool) (t : Text) (c : Chat) → IsSound c → IsSound (send_text o s t c)
unfolding send_text
send_text-IsSound o s t c h = ground arith

send-IsSound : (o s : Bool) (c : Chat) → IsSound c → IsSound (send o s c)
unfolding send
send-IsSound o s c h =
    ground (arith, send_text-IsSound o s (trim c.value) (record c { value = [] }))

conclude-IsSound : (o : Outcome) (c : Chat) → IsSound c → IsSound (conclude o c)
unfolding conclude
conclude-IsSound (answered t d) c h = ground arith
conclude-IsSound typed c h = h
conclude-IsSound (failed n) c h = ground arith

settle-IsSound : (o : Outcome) (c : Chat) → IsSound c → IsSound (settle o c)
unfolding settle
settle-IsSound o c h =
    set_loading-IsSound false _
      (conclude-IsSound o (record c { abort_stream = false }) (ground arith))

pub Step-IsSound : {c d : Chat} → Step c d → IsSound c → IsSound d
unfolding update_send_state click_send type_out block clear_blocked next_status restore_lock
    call_again
Step-IsSound {c} (edits t e) h = ground arith
Step-IsSound {c} (dictates t) h = ground arith
Step-IsSound {c} (presses_enter o s e) h = send-IsSound o s c h
Step-IsSound {c} (clicks_send o s e) h = ground (arith, send-IsSound o s c h)
Step-IsSound {c} (picks o s t) h = send_text-IsSound o s t c h
Step-IsSound {c} (settles o e) h = settle-IsSound o c h
Step-IsSound {c} (asks_again e a) h = ground arith
Step-IsSound {c} (types_out t d) h = ground arith
Step-IsSound {c} (locks m) h = ground arith
Step-IsSound {c} restores_lock h = ground arith
Step-IsSound {c} unlocks h = ground arith
Step-IsSound {c} (ticks e) h = ground arith

Reach-IsSound : {c d : Chat} → IsSound c → Reach c d → IsSound d
Reach-IsSound h here = h
Reach-IsSound h (next r s) = Step-IsSound s (Reach-IsSound h r)

-- Whether or not the browser has kept a lock, and whatever the user, the network, the timers and the
-- restoring of the lock do after `mount`: while an answer is awaited the send button is disabled
-- although it looks like a stop button, so its click has never aborted a stream; one status timer runs
-- then and none at other times; the status is one of the four; and a visitor who is locked out is so
-- in the store as well.
pub reachable-IsSound : (kept : Bool) {c : Chat} → Reach (mounted kept) c → IsSound c
reachable-IsSound kept r = Reach-IsSound (mounted-IsSound kept) r

send_text-busy :
    (o s : Bool) (t : Text) (c : Chat)
    → (c.is_loading ≡ true) ⊎ (c.is_blocked ≡ true)
    → (send_text o s t c).requests ≡ c.requests
unfolding send_text
send_text-busy o s t c h = ground arith

send-busy :
    (o s : Bool) (c : Chat)
    → (c.is_loading ≡ true) ⊎ (c.is_blocked ≡ true)
    → (send o s c).requests ≡ c.requests
unfolding send
send-busy o s c h = ground (arith, send_text-busy o s (trim c.value) (record c { value = [] }) h)

click_send-busy :
    (o s : Bool) (c : Chat)
    → (c.is_loading ≡ true) ⊎ (c.is_blocked ≡ true)
    → (click_send o s c).requests ≡ c.requests
unfolding click_send
click_send-busy o s c h = ground (arith, send-busy o s c h)

conclude-requests : (o : Outcome) (c : Chat) → (conclude o c).requests ≡ c.requests
unfolding conclude
conclude-requests (answered t d) c = ground arith
conclude-requests typed c = refl
conclude-requests (failed n) c = refl

settle-requests : (o : Outcome) (c : Chat) → (settle o c).requests ≡ c.requests
unfolding settle set_loading
settle-requests o c = ground (arith, conclude-requests o (record c { abort_stream = false }))

-- While a request is under way, and while the visitor is blocked, no step sends another one, but the call
-- of the backend in the place of a stream that brought nothing: it belongs to the request that is under
-- way, sends the last message of the visitor once more, and changes nothing else.
pub Step-requests :
    {c d : Chat}
    → (c.is_loading ≡ true) ⊎ (c.is_blocked ≡ true)
    → Step c d
    → (d.requests ≡ c.requests) ⊎ (((c.is_loading && c.abort_stream) ≡ true) × (d ≡ call_again c))
unfolding update_send_state click_send type_out block clear_blocked next_status settle set_loading
    restore_lock
Step-requests {c} h (edits t e) = inl refl
Step-requests {c} h (dictates t) = inl refl
Step-requests {c} h (presses_enter o s e) = inl (send-busy o s c h)
Step-requests {c} h (clicks_send o s e) = inl (click_send-busy o s c h)
Step-requests {c} h (picks o s t) = inl (send_text-busy o s t c h)
Step-requests {c} h (settles o e) = inl (settle-requests o c)
Step-requests {c} h (asks_again e a) = inr (ground arith, refl)
Step-requests {c} h (types_out t d) = inl (ground arith)
Step-requests {c} h (locks m) = inl refl
Step-requests {c} h restores_lock = inl refl
Step-requests {c} h unlocks = inl refl
Step-requests {c} h (ticks e) = inl refl
