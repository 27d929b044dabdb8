-- ===== src/History/Local.antt =====
-- static/widget/widget.js: `restoreLocalHistory`, and the list in `restoreHistory`.
use website_ai_assistant.Prelude.{
  ℕ, ◌-◌, Bool, true, false, not, ◌&&◌, ◌||◌, List, [], ◌∷◌, ◌++◌, Option, none, some,
  if◌then◌else◌, ◌==◌, ltb, take_last, is_empty,
}
use website_ai_assistant.Text.{Text}
use website_ai_assistant.History.{
  Sender, is_bot, divider, hint, Item, Store, nothing, garbage, saved, Messages, Opts, Page,
  clear_local_history, add_hero, add_message,
}

-- Seven days in milliseconds.
abbrev pub week : ℕ
week = 604800000

-- `data.ts && (Date.now() - data.ts) > week`
unfoldable pub is_expired : ℕ → ℕ → Bool
is_expired now ts = not (ts == 0) && ltb week (now - ts)

abbrev same_day : Option ℕ → ℕ → Bool
same_day none d = false
same_day (some e) d = e == d

abbrev pub local_opts : Sender → Opts
local_opts from = record {
  streaming = false;
  is_error = false;
  no_retry = false;
  skip_feedback = not (is_bot from);
  citations = false;
}

abbrev pub server_opts : Bool → Opts
server_opts citations = record {
  streaming = false;
  is_error = false;
  no_retry = false;
  skip_feedback = true;
  citations = citations;
}

module _ (page : Page) where
  -- The message is dated, and not of the day of the one before.
  abbrev pub new_day : Option ℕ → Item → Bool
  new_day prev i = not (i.t == 0) && not (same_day prev (page.day i.t))

  abbrev pub divided : ℕ → Item → Messages → Messages
  divided now i m = record m { children = m.children ++ divider (page.day_label now i.t) ∷ [] }

  -- A divider in front of the first message of a day.
  unfoldable pub divide : ℕ → Option ℕ → Item → Messages → Messages
  divide now prev i m = if new_day prev i then divided now i m else m

  abbrev pub next_day : Option ℕ → Item → Option ℕ
  next_day prev i = if i.t == 0 then prev else some (page.day i.t)

  -- The loop of `restoreLocalHistory`.
  unfoldable pub restore_items : ℕ → Option ℕ → List Item → Messages → Messages
  unfolding divide add_message
  restore_items now prev [] m = m
  restore_items now prev (i ∷ is) m =
      restore_items now (next_day prev i) is
        (add_message page now i.content i.sender (local_opts i.sender) (divide now prev i m))

  unfoldable pub restore_saved : ℕ → List Item → Messages → Messages
  unfolding restore_items
  restore_saved now items m =
      let d = restore_items now none (take_last 22 items) (record m { children = []; count = 0 }) in
      record d { children = hint ∷ d.children }

  -- `restoreLocalHistory`, with what it returns, by the browser's entry.
  unfoldable pub restore_store : ℕ → Store → Messages → Messages × Bool
  unfolding restore_saved is_expired clear_local_history
  restore_store now nothing m = (m, false)
  restore_store now garbage m = (m, false)
  restore_store now (saved ts []) m = (m, false)
  restore_store now (saved ts (i ∷ is)) m =
      if is_expired now ts
      then (clear_local_history m, false)
      else (restore_saved now (i ∷ is) m, true)

  unfoldable pub restore_local_history : ℕ → Messages → Messages × Bool
  unfolding restore_store
  restore_local_history now m = restore_store now m.store m

  unfoldable pub add_all : ℕ → List (Sender × Text × Bool) → Messages → Messages
  unfolding add_message
  add_all now [] m = m
  add_all now ((from, s, citations) ∷ ms) m =
      add_all now ms (add_message page now s from (server_opts (is_bot from && citations)) m)

  -- The list in `restoreHistory`, for a response that came with messages; `known` says that the
  -- widget has the ids of a conversation.
  unfoldable pub restore_history :
      Bool → ℕ → Text → List (Sender × Text × Bool) → Messages → Messages
  unfolding add_all add_hero
  restore_history known now greeting msgs m =
      if not known || ltb 1 m.count || is_empty msgs
      then m
      else add_all now msgs (add_hero greeting (record m { children = []; count = 0 }))
