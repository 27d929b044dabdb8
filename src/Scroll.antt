-- ===== src/Scroll.antt =====
-- static/widget/widget.js: whether the list of messages follows new messages (`scrollToBottom`,
-- `_updateScrollBtn`). Heights are whole pixels; `scrollTo` is seen at the end of its animation, and the
-- browser keeps the list within its content. A distance below 0 counts as 0, which passes the same
-- tests.
pub mod Stick
mod Tests
use website_ai_assistant.Prelude.{ℕ, ◌+◌, ◌-◌, Bool, true, false, not, ◌&&◌, if◌then◌else◌, ltb}

pub record MessageView : Type 0 where
  pub scroll_height : ℕ
  pub scroll_top : ℕ
  pub client_height : ℕ
  pub button_shown : Bool
  pub stick : Bool

abbrev pub dist : MessageView → ℕ
dist v = v.scroll_height - v.scroll_top - v.client_height

-- `_updateScrollBtn`.
unfoldable pub update_scroll_btn : MessageView → MessageView
update_scroll_btn v = record v { button_shown = ltb 160 (dist v); stick = ltb (dist v) 120 }

-- `scrollToBottom`.
unfoldable pub scroll_to_bottom : Bool → MessageView → MessageView
scroll_to_bottom force v =
    if not force && not v.stick
    then v
    else record v { scroll_top = v.scroll_height - v.client_height }

-- The `scroll` event of the list, at a new place.
unfoldable pub scrolled : ℕ → MessageView → MessageView
unfolding update_scroll_btn
scrolled top v = update_scroll_btn (record v { scroll_top = top })

-- The end of `addMessage` and `addHero`, for a child of a height.
unfoldable pub child_added : ℕ → MessageView → MessageView
unfolding update_scroll_btn scroll_to_bottom
child_added height v =
    scroll_to_bottom false
      (update_scroll_btn (record v { scroll_height = v.scroll_height + height }))

-- A frame of the typewriter, by which the last row grows.
unfoldable pub row_grown : ℕ → MessageView → MessageView
unfolding scroll_to_bottom
row_grown height v = scroll_to_bottom false (record v { scroll_height = v.scroll_height + height })

-- The click on the scroll button, with the `scroll` event that follows.
unfoldable pub click_scroll : MessageView → MessageView
unfolding scroll_to_bottom update_scroll_btn
click_scroll v = update_scroll_btn (scroll_to_bottom true v)
