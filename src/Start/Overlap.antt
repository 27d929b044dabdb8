-- ===== src/Start/Overlap.antt =====
-- static/widget/widget.js, `initialize` with its two waits, for the configuration and for the server's
-- history (`restoreConversation`, `restoreLocalHistory`, `restoreHistory`), and what the visitor can
-- do on the page meanwhile.
use website_ai_assistant.Prelude.{
  ℕ, Bool, true, false, ◌||◌, List, [], none, some, if◌then◌else◌, is_empty, ltb, ◌==◌, ◌≡◌,
}
use website_ai_assistant.Text.{Text}
use website_ai_assistant.Chat.{Chat, block, clear_blocked}
use website_ai_assistant.Stream.Reader.{Conversation}
use website_ai_assistant.Backend.{restore_conversation, forget_conversation}
use website_ai_assistant.History.{
  Sender, Messages, Opts, Page, add_hero, add_message, collapse_hero, new_conversation,
}
use website_ai_assistant.Markup.Cards.{has_hero}
use website_ai_assistant.History.Local.{restore_local_history, add_all}

pub data Phase : Type 0 where
  config_wait history_wait started : Phase

-- `leaving`: the timer of `collapseHero` runs for the greeting that is in the list; `lock_due`: the
-- timer of `restoreConversation` is to lock the composer.
pub record Boot : Type 0 where
  pub phase : Phase
  pub messages : Messages
  pub conversation : Conversation
  pub chat : Chat
  pub leaving : Bool
  pub lock_due : Bool

-- What `restoreHistory` gets: a failure, or an object with the lock and the messages.
pub record Past : Type 0 where
  pub guard_blocked : Bool
  pub quota_locked : Bool
  pub quota_message : Text
  pub msgs : List (Sender × Text × Bool)

pub data Response : Type 0 where
  failed : Response
  answered : Past → Response

-- `_setBlocked(true, lockMsg)`, or `_clearBlocked()`.
unfoldable pub set_lock : Past → Chat → Chat
unfolding block clear_blocked
set_lock d c =
    if d.guard_blocked || d.quota_locked
    then block (if d.quota_locked then some d.quota_message else none) c
    else clear_blocked c

-- `restoreConversation`.
unfoldable pub restore_ids : Boot → Boot
unfolding restore_conversation
restore_ids b = record b {
  conversation = restore_conversation b.conversation;
  chat = record b.chat { is_blocked = b.chat.stored_blocked };
  lock_due = b.chat.stored_blocked || b.lock_due;
}

abbrev pub emptied : Messages → Messages
emptied m = record m { children = []; count = 0 }

module _ (greeting : Text) where
  -- The end of `initialize`: the greeting, where the list has no message.
  unfoldable pub finish : Boot → Boot
  unfolding add_hero
  finish b = record b {
    phase = started;
    messages = if b.messages.count == 0 then add_hero greeting b.messages else b.messages;
  }

  -- The button for a new conversation.
  unfoldable pub start_anew : Boot → Boot
  unfolding new_conversation forget_conversation
  start_anew b = record b {
    messages = new_conversation greeting b.messages;
    conversation = forget_conversation b.conversation;
    chat = record b.chat { chat_started = false };
    leaving = false;
  }

  module _ (page : Page) (now : ℕ) where
    -- The list is emptied; a greeting that was leaving it leaves no trace.
    abbrev pub with_local : Messages × Bool → Boot → Boot
    with_local (m, restored) b = record b {
      messages = m;
      leaving = if restored then false else b.leaving;
    }

    -- The configuration has come, or has failed: on to the history's request, or to the end.
    unfoldable pub config_ended : Boot → Boot
    unfolding restore_ids restore_local_history finish
    config_ended b =
        let d = restore_ids b in
        let found = restore_local_history page now d.messages in
        let e = with_local found d in
        if found.1
          || (is_empty e.conversation.id || is_empty e.conversation.token)
          || ltb 1 e.messages.count
        then finish e
        else record e { phase = history_wait }

    -- `restoreHistory` behind its `await`.
    unfoldable pub take_past : Past → Boot → Boot
    unfolding set_lock add_all add_hero
    take_past d b = if is_empty d.msgs then record b { chat = set_lock d b.chat } else record b {
      messages = add_all page now d.msgs (add_hero greeting (emptied b.messages));
      chat = set_lock d (set_lock d b.chat);
      leaving = false;
    }

    unfoldable pub history_ended : Response → Boot → Boot
    unfolding take_past finish
    history_ended failed b = finish b
    history_ended (answered d) b = finish (take_past d b)

  module _ (page : Page) where
    -- What happens between: the visitor, the answers and the timers.
    pub data Act (b : Boot) : Boot → Type 0 where
      -- a message of the visitor, an answer, or an error
      adds :
          (now : ℕ) (s : Text) (from : Sender) (opts : Opts)
          → Act b (record b { messages = add_message page now s from opts b.messages })
      -- the visitor's message sends the greeting away
      collapses : Act b (record b { leaving = has_hero b.messages.children || b.leaving })
      collapsed :
          b.leaving ≡ true
          → Act b (record b { messages = collapse_hero b.messages; leaving = false })
      turns :
          (o : Bool) (t : Text)
          → Act b (record b { messages = record b.messages { is_open = o; last_user_message = t } })
      begins_anew : Act b (start_anew b)
      -- an answer brings the ids of its conversation, and changes of the composer
      hears : (c : Conversation) → Act b (record b { conversation = c })
      composes : (c : Chat) → Act b (record b { chat = c })
      locks : b.lock_due ≡ true → Act b (record b { chat = block none b.chat; lock_due = false })

    pub data Acts (b : Boot) : Boot → Type 0 where
      here : Acts b b
      next : {d e : Boot} → Acts b d → Act d e → Acts b e

    pub data Step (b : Boot) : Boot → Type 0 where
      acts : {d : Boot} → Act b d → Step b d
      configures : (now : ℕ) → b.phase ≡ config_wait → Step b (config_ended page now b)
      remembers :
          (now : ℕ) (r : Response) → b.phase ≡ history_wait → Step b (history_ended page now r b)

    pub data Reach (b : Boot) : Boot → Type 0 where
      here : Reach b b
      next : {d e : Boot} → Reach b d → Step d e → Reach b e
