-- ===== src/Scroll/Stick.antt =====
-- When the list of messages follows, and when it does not.
use website_ai_assistant.Prelude.{ℕ, ◌+◌, ◌≤◌, true, false, List, [], ◌∷◌, ◌≡◌, ◌∙◌, arith}
use website_ai_assistant.Scroll.{
  MessageView, update_scroll_btn, scroll_to_bottom, row_grown, click_scroll,
}

-- The end of the list is in view.
abbrev pub IsAtEnd : MessageView → Type 0
IsAtEnd v = v.scroll_height ≤ v.scroll_top + v.client_height

-- A view of a list that is longer than the view, scrolled to its end.
abbrev pub IsFull : MessageView → Type 0
IsFull v = v.scroll_height ≡ v.scroll_top + v.client_height

unfoldable pub rows_grown : List ℕ → MessageView → MessageView
unfolding row_grown
rows_grown [] v = v
rows_grown (h ∷ hs) v = rows_grown hs (row_grown h v)

row_grown-end : (h : ℕ) (v : MessageView) → v.stick ≡ true → IsAtEnd (row_grown h v)
unfolding row_grown scroll_to_bottom
row_grown-end h v e = ground arith

row_grown-stick : (h : ℕ) (v : MessageView) → (row_grown h v).stick ≡ v.stick
unfolding row_grown scroll_to_bottom
row_grown-stick h v = ground arith

rows_grown-end :
    (hs : List ℕ) (v : MessageView) → v.stick ≡ true → IsAtEnd v → IsAtEnd (rows_grown hs v)
unfolding rows_grown
rows_grown-end [] v e a = a
rows_grown-end (h ∷ hs) v e a =
    rows_grown-end hs (row_grown h v) (row_grown-stick h v ∙ e) (row_grown-end h v e)

click_scroll_lem :
    (v : MessageView)
    → ((click_scroll v).stick ≡ true)
      × ((click_scroll v).button_shown ≡ false)
      × IsAtEnd (click_scroll v)
unfolding click_scroll scroll_to_bottom update_scroll_btn
click_scroll_lem v = (ground arith, ground arith, ground arith)

-- Wherever the list stands, a click on the scroll button hides it and brings the end into view, and
-- then the end stays in view in every frame of the typewriter, however the row grows, as long as
-- the visitor does not scroll.
pub rows_grown-click_scroll :
    (hs : List ℕ) (v : MessageView)
    → ((click_scroll v).button_shown ≡ false) × IsAtEnd (rows_grown hs (click_scroll v))
rows_grown-click_scroll hs v =
    let (stick, hidden, end) = click_scroll_lem v in
    (hidden, rows_grown-end hs (click_scroll v) stick end)
