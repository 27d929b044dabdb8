-- ===== src/Start/Early.antt =====
-- A message that is sent before the start is over replaces the stored history.
use website_ai_assistant.Prelude.{ℕ, take}
use website_ai_assistant.Text.{Text}
use website_ai_assistant.History.{user, Item, Messages, Page, add_message}
use website_ai_assistant.Answer.Steps.{no_opts}
use website_ai_assistant.Start.Greeting.{emptied}

abbrev pub asked : ℕ → Text → Item
asked t s = record { sender = user; content = take 800 s; t = t }

module _ (page : Page) where
  -- The list after a message was sent on an empty page.
  abbrev pub early : ℕ → Text → Messages → Messages
  early t s m = add_message page t s user no_opts (emptied page t m)
