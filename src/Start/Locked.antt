-- ===== src/Start/Locked.antt =====
-- static/widget/widget.js, the lock of a visitor over a start of the page: the flag that the browser has kept
-- (`restoreConversation` and its timer), and the server's word (`restoreHistory`).
use website_ai_assistant.Prelude.{
  is_empty, ℕ, Bool, true, false, not, ◌&&◌, ◌||◌, if◌then◌else◌, none, ◌≡◌, arith, refl, sym, [],
  ◌∷◌,
}
use mathlib.Core.Path.{subst}
use website_ai_assistant.Text.{Text}
use website_ai_assistant.Backend.{restore_conversation}
use website_ai_assistant.Chat.{Chat, block, clear_blocked}
use website_ai_assistant.History.{
  Page, Messages, Store, nothing, garbage, saved, clear_local_history,
}
use website_ai_assistant.History.Local.{restore_local_history, restore_store}
use website_ai_assistant.Start.Overlap.{
  Phase, history_wait, started, Boot, Response, failed, answered, Past, set_lock, config_ended,
  history_ended, restore_ids, take_past, finish,
}

-- The browser has the ids of a conversation.
abbrev is_known : Boot → Bool
is_known b = not (is_empty b.conversation.stored_id || is_empty b.conversation.stored_token)

-- The timer of `restoreConversation`.
unfoldable pub lock_timer : Boot → Boot
unfolding block
lock_timer b = if b.lock_due then record b { chat = block none b.chat; lock_due = false } else b

-- What the server says of the lock, with the kept flag where it says nothing.
abbrev pub locked_by : Response → Bool → Bool
locked_by failed kept = kept
locked_by (answered d) kept = d.guard_blocked || d.quota_locked

-- A composer that is locked, or not, here and in the store; a locked one takes no input.
abbrev pub IsLocked : Bool → Chat → Type 0
IsLocked v c =
    (c.is_blocked ≡ v) × (c.stored_blocked ≡ v) × ((not c.is_blocked || c.input_disabled) ≡ true)

set_lock-IsLocked :
    (d : Past) (c : Chat) → IsLocked (d.guard_blocked || d.quota_locked) (set_lock d c)
unfolding set_lock block clear_blocked
set_lock-IsLocked d c = ground arith

module _ (greeting : Text) (page : Page) (now : ℕ) where
  -- The request for the history settles, if the start waits for it.
  abbrev if_asked : Phase → Response → Boot → Boot
  if_asked history_wait r b = history_ended greeting page now r b
  if_asked _ r b = b

  -- A start with nothing in between but the timer, which is due at once.
  abbrev pub start_with_timer : Response → Boot → Boot
  start_with_timer r b =
      let d = lock_timer (config_ended greeting page now b) in if_asked d.phase r d

  -- The server is asked where the browser has the ids of a conversation but none of its messages.
  abbrev pub asks_server : Boot → Bool
  asks_server b = is_known b && not (restore_local_history page now b.messages).1

  configured-IsLocked :
      (b : Boot)
      → b.lock_due ≡ false
      → IsLocked b.chat.stored_blocked (lock_timer (config_ended greeting page now b)).chat
  unfolding lock_timer block config_ended restore_ids finish
  configured-IsLocked b h = ground arith

  history_ended-IsLocked :
      (r : Response) (kept : Bool) (b : Boot)
      → IsLocked kept b.chat
      → IsLocked (locked_by r kept) (history_ended greeting page now r b).chat
  unfolding history_ended take_past finish
  history_ended-IsLocked failed kept b h = h
  history_ended-IsLocked (answered d) kept b h =
      ground (arith, set_lock-IsLocked d b.chat, set_lock-IsLocked d (set_lock d b.chat))

  count_kept :
      (s : Store) (m : Messages)
      → (restore_store page now s m).1 ≡ false
      → (restore_store page now s m).0.count ≡ m.count
  unfolding restore_store clear_local_history
  count_kept nothing m h = refl
  count_kept garbage m h = refl
  count_kept (saved ts []) m h = refl
  count_kept (saved ts (i ∷ is)) m h = ground arith

  phase_lem :
      (b : Boot)
      → b.messages.count ≡ 0
      → (lock_timer (config_ended greeting page now b)).phase
        ≡ (if asks_server b then history_wait else started)
  unfolding lock_timer config_ended restore_ids finish restore_local_history restore_conversation
  phase_lem b h = ground (arith, count_kept b.messages.store b.messages)

  asked-IsLocked :
      (a : Bool) (r : Response) (kept : Bool) (b : Boot)
      → b.phase ≡ (if a then history_wait else started)
      → IsLocked kept b.chat
      → IsLocked (if a then locked_by r kept else kept) (if_asked b.phase r b).chat
  asked-IsLocked true r kept b e h =
      subst (λ p. IsLocked (locked_by r kept) (if_asked p r b).chat) (sym e)
        (history_ended-IsLocked r kept b h)
  asked-IsLocked false r kept b e h = subst (λ p. IsLocked kept (if_asked p r b).chat) (sym e) h

  -- On a page whose list is still empty and without a lock that is due, whatever the browser has kept
  -- and the server says, and with nothing but the timer in between: behind the start, the visitor is
  -- locked out, here and in the store, just when the server was asked and says so, or was asked in
  -- vain or not asked and the kept flag says so; and a locked composer takes no input. The server is
  -- asked only where the browser has the ids of a conversation and no messages of it to restore.
  pub start_with_timer-IsLocked :
      (r : Response) (b : Boot)
      → b.messages.count ≡ 0
      → b.lock_due ≡ false
      → IsLocked
          (if asks_server b then locked_by r b.chat.stored_blocked else b.chat.stored_blocked)
          (start_with_timer r b).chat
  start_with_timer-IsLocked r b h k =
      asked-IsLocked (asks_server b) r b.chat.stored_blocked
        (lock_timer (config_ended greeting page now b)) (phase_lem b h) (configured-IsLocked b k)
