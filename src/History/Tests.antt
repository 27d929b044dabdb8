-- ===== src/History/Tests.antt =====
-- Tests of the list of messages and its memory, and their theorems at concrete inputs.
use website_ai_assistant.Prelude.{ℕ, ◌≡◌, refl, [], ◌∷◌, List, map, true, false, arith, Bool}
use website_ai_assistant.Text.{text}
use website_ai_assistant.History.{
  user, bot, Item, nothing, saved, Messages, Page, add_message, click_retry, Child, row,
}
use website_ai_assistant.History.Local.{restore_local_history, is_expired, local_opts}
use website_ai_assistant.History.Steps.{here, next, adds}
use website_ai_assistant.History.Bounds.{IsBounded, Reach-IsBounded}
use website_ai_assistant.History.Newest.{IsMarked, Reach-IsMarked}
use website_ai_assistant.History.Restored.{dated, restore_local_history-saved}

abbrev site : Page
site = record {
  plain = λ s. s;
  day = λ t. t;
  day_label = λ now t. [];
  show_feedback = true;
  show_timestamp = true;
  show_citations = true;
}

abbrev stored : List Item
stored =
    record { sender = user; content = text "hi"; t = 5 }
    ∷ record { sender = bot; content = text "hello"; t = 5 }
    ∷ []

abbrev stored_at : ℕ
stored_at = 5

abbrev visit : Messages
visit = record {
  children = [];
  count = 0;
  store = saved stored_at stored;
  is_open = false;
  unread_marks = 0;
  last_user_message = [];
}

abbrev first_visit : Messages
first_visit = record visit { store = nothing }

abbrev asked : Messages
asked = add_message site 9 (text "hi") user (local_opts user) first_visit

asked_stored : asked.store ≡ saved 9 (record { sender = user; content = text "hi"; t = 9 } ∷ [])
unfolding add_message text
asked_stored = refl

Reach-IsBounded_example : IsBounded asked.store
Reach-IsBounded_example =
    Reach-IsBounded site true {m = first_visit} tt
      (next here (adds 9 (text "hi") user (local_opts user)))

Reach-IsMarked_example : IsMarked true asked.children
Reach-IsMarked_example =
    Reach-IsMarked site false {m = first_visit} tt
      (next here (adds 9 (text "hi") user (local_opts user)))

restore_local_history-saved_example :
    let (d, restored) = restore_local_history site 9 visit in
    (d.store ≡ saved 9 (map (dated 9) stored)) × (restored ≡ true)
unfolding is_expired text
restore_local_history-saved_example =
    restore_local_history-saved site 9 5 stored visit refl refl refl (omega arith)
      ((refl, omega arith), ((refl, omega arith), tt))

-- An error whose retry button was clicked while the widget could not send.
abbrev undone : Messages
undone = click_retry 1 (
    add_message site 9 (text "oops") bot (record (local_opts bot) { is_error = true })
      (record asked { last_user_message = text "hi" }))

abbrev marks : List Child → List Bool
marks [] = []
marks (row r ∷ cs) = r.is_last ∷ marks cs
marks (_ ∷ cs) = marks cs

no_mark : marks undone.children ≡ false ∷ []
unfolding click_retry add_message text
no_mark = refl
