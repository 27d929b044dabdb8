-- ===== src/Panel/Unread.antt =====
-- The unread badge, the Escape key, the memory of the teaser, and what goes wrong with the sheet and
-- the title.
use mathlib.Core.Path.{subst}
use website_ai_assistant.Prelude.{
  ℕ, ◌+◌, Bool, true, false, List, [], ◌∷◌, ◌≡◌, refl, arith, length,
}
use website_ai_assistant.Panel.{
  Panel, page, news, flash, start_title_flash, stop_title_flash, mark_unread, badge_text, receive,
  maybe_show_teaser, teaser_due, teaser_appears, dismiss_teaser, hide_teaser, open_panel,
  close_panel, toggle, click_contact, open_sheet, sheet_appears, close_sheet, hide_sheet, escape,
}
use website_ai_assistant.Panel.Steps.{
  Step, clicks_fab, clicks_close, presses_escape, opens, offers_teaser, teaser_fires, teaser_slides,
  dismisses, teaser_goes, gets, title_ticks, comes_back, clicks_contact, sheet_slides, leaves_sheet,
  sheet_goes, Reach, here, next,
}

-- Answers that arrive one after another, each with the page hidden or not.
abbrev pub receive_all : List Bool → Panel → Panel
receive_all [] p = p
receive_all (h ∷ hs) p = receive_all hs (receive h p)

record IsUnread (n : ℕ) (p : Panel) : Type 0 where
  closed : p.is_open ≡ false
  count : p.unread ≡ n
  text_is : p.badge ≡ badge_text n
  visible : p.badge_hidden ≡ false

first-IsUnread : (h : Bool) (p : Panel) → p.is_open ≡ false → IsUnread (p.unread + 1) (receive h p)
unfolding receive mark_unread start_title_flash
first-IsUnread h p e = ground arith

receive-IsUnread : (n : ℕ) (h : Bool) (p : Panel) → IsUnread n p → IsUnread (n + 1) (receive h p)
unfolding receive mark_unread start_title_flash
receive-IsUnread n h p u = ground arith

receive_all-IsUnread :
    (n : ℕ) (hs : List Bool) (p : Panel)
    → IsUnread n p
    → IsUnread (n + length hs) (receive_all hs p)
receive_all-IsUnread n [] p u = subst (λ k. IsUnread k p) (omega arith) u
receive_all-IsUnread n (h ∷ hs) p u =
    subst (λ k. IsUnread k (receive_all hs (receive h p))) (omega arith)
      (receive_all-IsUnread (n + 1) hs (receive h p) (receive-IsUnread n h p u))

reopened : (p : Panel) → (close_panel (open_panel p)).is_open ≡ false
unfolding close_panel
reopened p = refl

reopened_unread : (p : Panel) → (close_panel (open_panel p)).unread ≡ 0
unfolding close_panel open_panel dismiss_teaser stop_title_flash
reopened_unread p = ground arith

-- After the panel was opened and closed, the badge is visible and counts exactly the answers that
-- have arrived since, at least one, as `badge_text` prints their number, whether the page was hidden
-- or not.
pub receive_all-badge :
    (p : Panel) (h : Bool) (hs : List Bool)
    → let q = receive_all (h ∷ hs) (close_panel (open_panel p)) in
      (q.unread ≡ length (h ∷ hs))
      × (q.badge ≡ badge_text (length (h ∷ hs)))
      × (q.badge_hidden ≡ false)
receive_all-badge p h hs =
    let u =
      receive_all-IsUnread _ hs _ (first-IsUnread h (close_panel (open_panel p)) (reopened p)) in
    ground (arith, reopened_unread p, u)

-- Escape closes the sheet first and leaves the panel as it is then; a second Escape has closed both.
pub escape-closes :
    (p : Panel)
    → (p.sheet_open ≡ true → (escape p).is_open ≡ p.is_open)
      × ((escape (escape p)).is_open ≡ false)
      × ((escape (escape p)).sheet_open ≡ false)
unfolding escape close_sheet close_panel
escape-closes p = ground arith

record IsDismissed (p : Panel) : Type 0 where
  pub remembered : p.teaser_dismissed ≡ true
  pub no_timer : p.teaser_timer ≡ false

Step-IsDismissed : {p q : Panel} → Step p q → IsDismissed p → IsDismissed q
unfolding toggle escape flash teaser_due teaser_appears dismiss_teaser hide_teaser maybe_show_teaser
    click_contact open_sheet sheet_appears hide_sheet open_panel close_panel stop_title_flash
    receive mark_unread start_title_flash close_sheet
Step-IsDismissed {p} clicks_fab h = ground arith
Step-IsDismissed {p} clicks_close h = ground arith
Step-IsDismissed {p} presses_escape h = ground arith
Step-IsDismissed {p} opens h = ground arith
Step-IsDismissed {p} (offers_teaser b) h = ground arith
Step-IsDismissed {p} (teaser_fires e) h = ground arith
Step-IsDismissed {p} (teaser_slides e) h = ground arith
Step-IsDismissed {p} dismisses h = ground arith
Step-IsDismissed {p} teaser_goes h = ground arith
Step-IsDismissed {p} (gets b) h = ground arith
Step-IsDismissed {p} (title_ticks e) h = ground arith
Step-IsDismissed {p} comes_back h = ground arith
Step-IsDismissed {p} (clicks_contact b) h = ground arith
Step-IsDismissed {p} (sheet_slides e) h = ground arith
Step-IsDismissed {p} leaves_sheet h = ground arith
Step-IsDismissed {p} sheet_goes h = ground arith

Reach-IsDismissed : {p q : Panel} → IsDismissed p → Reach p q → IsDismissed q
Reach-IsDismissed h here = h
Reach-IsDismissed h (next r s) = Step-IsDismissed s (Reach-IsDismissed h r)

dismiss_teaser-IsDismissed : (p : Panel) → IsDismissed (dismiss_teaser p)
unfolding dismiss_teaser
dismiss_teaser-IsDismissed p = ground arith

-- Once the teaser is dismissed, nothing that happens later starts the teaser's
-- timer again or forgets the dismissal.
pub Reach-dismissed :
    (p : Panel) {q : Panel}
    → Reach (dismiss_teaser p) q
    → (q.teaser_dismissed ≡ true) × (q.teaser_timer ≡ false)
Reach-dismissed p r =
    let h = Reach-IsDismissed (dismiss_teaser-IsDismissed p) r in (h.remembered, h.no_timer)

-- A contact sheet that is closed and opened again before the timer of its closing fires is hidden by
-- that timer, although it counts as open, if no other such timer is pending.
pub hide_sheet-reopened :
    (p : Panel)
    → p.sheet_open ≡ true
    → p.sheet_timers ≡ 0
    → let q = hide_sheet (open_sheet (close_sheet p)) in
      (q.sheet_open ≡ true) × (q.sheet_hidden ≡ true)
unfolding hide_sheet open_sheet close_sheet
hide_sheet-reopened p e f = ground arith

-- On a page whose title is empty, a flash that has shown its message leaves it there when it stops.
pub stop_title_flash-untitled :
    (p : Panel)
    → p.title ≡ page []
    → p.title_timer ≡ false
    → (stop_title_flash (flash (start_title_flash p))).title ≡ news
unfolding stop_title_flash flash start_title_flash
stop_title_flash-untitled p e f = ground arith
