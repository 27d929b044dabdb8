-- ===== src/Start/Tests.antt =====
-- The theorems of the start at concrete inputs.
use website_ai_assistant.Prelude.{◌≡◌, refl, [], ◌∷◌, true, false, not, arith, if◌then◌else◌}
use website_ai_assistant.Text.{text}
use website_ai_assistant.Chat.Steps.{mounted}
use website_ai_assistant.Answer.Steps.{no_opts}
use website_ai_assistant.History.{Page, Messages, user, bot, nothing, saved, add_message}
use website_ai_assistant.History.Local.{restore_local_history}
use website_ai_assistant.Markup.Cards.{has_hero}
use website_ai_assistant.Start.{initialize}
use website_ai_assistant.Start.Greeting.{emptied, has_hero-initialize}
use website_ai_assistant.Start.Overlap.{
  Boot, Past, config_wait, config_ended, history_ended, answered, Reach, here, next, acts, adds,
  configures, remembers,
}
use website_ai_assistant.Start.Once.{heroes, IsGreeted, Reach-IsGreeted}
use website_ai_assistant.Start.Wiped.{shown_and_kept, history_ended-wipes}
use website_ai_assistant.Start.Locked.{
  lock_timer, IsLocked, locked_by, asks_server, start_with_timer, start_with_timer-IsLocked,
}

abbrev site : Page
site = record {
  plain = λ s. s;
  day = λ n. n;
  day_label = λ n t. [];
  show_feedback = true;
  show_timestamp = true;
  show_citations = true;
}

abbrev visit : Messages
visit = record {
  children = [];
  count = 0;
  store = saved 5 (record { sender = bot; content = text "Before"; t = 5 } ∷ []);
  is_open = false;
  unread_marks = 0;
  last_user_message = [];
}

has_hero-initialize_example :
    has_hero
      (initialize site 9 true
        (text "Hello")
        ((bot, text "A", false) ∷ [])
        (emptied site 9 visit)).children
    ≡ not (restore_local_history site 9 (emptied site 9 visit)).1
has_hero-initialize_example =
    has_hero-initialize site 9 true (text "Hello") ((bot, text "A", false) ∷ []) visit

abbrev arrival : Boot
arrival = record {
  phase = config_wait;
  messages = record (emptied site 9 visit) { store = nothing };
  conversation = record { id = []; token = []; stored_id = text "c1"; stored_token = text "t1" };
  chat = mounted false;
  leaving = false;
  lock_due = false;
}

abbrev old_talk : Past
old_talk = record {
  guard_blocked = false;
  quota_locked = false;
  quota_message = [];
  msgs = (bot, text "A", false) ∷ [];
}

abbrev waits : Boot
waits = config_ended (text "Hello") site 9 arrival

-- The visitor asks while the server's history is under way.
abbrev asks_early : Boot
asks_early = record waits {
  messages = add_message site 10 (text "When?") user no_opts waits.messages;
}

arrival-IsGreeted : IsGreeted arrival
unfolding heroes
arrival-IsGreeted = ground arith

asks_early_reached : Reach (text "Hello") site arrival asks_early
asks_early_reached =
    next (next here (configures 9 refl)) (acts (adds 10 (text "When?") user no_opts))

Reach-IsGreeted_example :
    IsGreeted (history_ended (text "Hello") site 11 (answered old_talk) asks_early)
unfolding config_ended text
Reach-IsGreeted_example =
    Reach-IsGreeted (text "Hello") site
      (next asks_early_reached (remembers 11 (answered old_talk) refl)) arrival-IsGreeted

history_ended-wipes_example :
    shown_and_kept (history_ended (text "Hello") site 11 (answered old_talk) asks_early).messages
    ≡ shown_and_kept (history_ended (text "Hello") site 11 (answered old_talk) waits).messages
history_ended-wipes_example =
    history_ended-wipes (text "Hello") site 11 old_talk asks_early waits refl

-- The message is in the list until the history comes.
asked_early : asks_early.messages.count ≡ 1
unfolding config_ended add_message text
asked_early = refl

-- A visitor with a stored history, whom the browser knows as locked out.
abbrev returning : Boot
returning = record arrival { messages = emptied site 9 visit; chat = mounted true }

start_with_timer-IsLocked_example :
    IsLocked
      (if asks_server (text "Hello") site 9 returning
        then locked_by (answered old_talk) returning.chat.stored_blocked
        else returning.chat.stored_blocked)
      (start_with_timer (text "Hello") site 9 (answered old_talk) returning).chat
start_with_timer-IsLocked_example =
    start_with_timer-IsLocked (text "Hello") site 9 (answered old_talk) returning refl refl

-- The server has lifted the lock, but is not asked.
still_locked :
    (start_with_timer (text "Hello") site 9 (answered old_talk) returning).chat.is_blocked ≡ true
unfolding config_ended lock_timer text
still_locked = refl

-- Without the stored history it is asked.
unlocked :
    (start_with_timer
      (text "Hello")
      site
      9
      (answered old_talk)
      (record arrival { chat = mounted true })).chat.is_blocked
    ≡ false
unfolding config_ended lock_timer history_ended text
unlocked = refl
