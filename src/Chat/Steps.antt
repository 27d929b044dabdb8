-- ===== src/Chat/Steps.antt =====
-- The composer in the page: what the user, the network and the timers can do. A disabled input
-- takes no text and no key, and a disabled button fires no click: the browser sees to that.
use website_ai_assistant.Prelude.{Bool, true, false, [], ◌≡◌, Option, none}
use website_ai_assistant.Text.{Text}
use website_ai_assistant.Stream.{Payload}
use website_ai_assistant.Chat.{
  Chat, Outcome, configured, update_send_state, next_status, block, clear_blocked, restore_lock,
  call_again, send_text, send, click_send, settle, type_out,
}

-- The widget after `mount`; `kept` is the browser's flag of a lock, from before a reload.
abbrev pub mounted : (kept : Bool) → Chat
mounted kept = record {
  value = [];
  input_disabled = false;
  send_disabled = true;
  stop_shown = false;
  typing_hidden = true;
  placeholder = configured;
  mic_hidden = true;
  is_loading = false;
  is_blocked = false;
  stored_blocked = kept;
  abort_stream = false;
  aborts = 0;
  status_timer = false;
  intervals = 0;
  status_idx = 0;
  chat_started = false;
  last_user_message = [];
  rows = [];
  requests = [];
  toast = none;
}

pub data Step (c : Chat) : Chat → Type 0 where
  -- the user types, or speech recognition fills the input
  edits :
      (t : Text) → c.input_disabled ≡ false → Step c (update_send_state (record c { value = t }))
  dictates : (t : Text) → Step c (update_send_state (record c { value = t }))
  presses_enter :
      (online streaming : Bool) → c.input_disabled ≡ false → Step c (send online streaming c)
  clicks_send :
      (online streaming : Bool) → c.send_disabled ≡ false → Step c (click_send online streaming c)
  -- a suggestion chip or a retry button
  picks : (online streaming : Bool) (t : Text) → Step c (send_text online streaming t c)
  -- a request settles, while one is under way
  settles : (o : Outcome) → c.is_loading ≡ true → Step c (settle o c)
  -- the stream brought nothing, and the backend is called in its place
  asks_again : c.is_loading ≡ true → c.abort_stream ≡ true → Step c (call_again c)
  types_out : (t : Text) (d : Payload) → Step c (type_out t d c)
  -- the server's history, or the stored flag, locks or unlocks
  locks : (m : Option Text) → Step c (block m c)
  restores_lock : Step c (restore_lock c)
  unlocks : Step c (clear_blocked c)
  ticks : c.status_timer ≡ true → Step c (next_status c)

pub data Reach (c : Chat) : Chat → Type 0 where
  here : Reach c c
  next : {d e : Chat} → Reach c d → Step d e → Reach c e
