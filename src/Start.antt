-- ===== src/Start.antt =====
-- static/widget/widget.js, `initialize`: the list of messages as the page begins. `known` says that the
-- browser has the ids of a conversation, `msgs` is the server's history of it.
pub mod Greeting
pub mod Overlap
pub mod Once
pub mod Wiped
pub mod Locked
pub mod Early
mod Tests
use website_ai_assistant.Prelude.{ℕ, Bool, List, if◌then◌else◌, ◌==◌}
use website_ai_assistant.Text.{Text}
use website_ai_assistant.History.{Sender, Messages, Page, add_hero}
use website_ai_assistant.History.Local.{restore_local_history, restore_history}

module _ (page : Page) where
  unfoldable pub initialize : ℕ → Bool → Text → List (Sender × Text × Bool) → Messages → Messages
  unfolding restore_local_history restore_history add_hero
  initialize now known greeting msgs m =
      let (d, restored) = restore_local_history page now m in
      let e = if restored then d else restore_history page known now greeting msgs d in
      if e.count == 0 then add_hero greeting e else e
