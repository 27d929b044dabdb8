-- ===== src/Panel/Tidy.antt =====
-- What holds of the panel in every state that the page can reach.
use website_ai_assistant.Prelude.{Bool, true, false, not, ◌≡◌, arith, ◌==◌, is_empty}
use website_ai_assistant.Text.{Text}
use website_ai_assistant.Panel.{
  Panel, page, flash, start_title_flash, stop_title_flash, mark_unread, badge_text, receive,
  maybe_show_teaser, teaser_due, teaser_appears, dismiss_teaser, hide_teaser, open_panel,
  close_panel, toggle, click_contact, open_sheet, sheet_appears, close_sheet, hide_sheet, escape,
}
use website_ai_assistant.Panel.Steps.{
  mounted, Step, clicks_fab, clicks_close, presses_escape, opens, offers_teaser, teaser_fires,
  teaser_slides, dismisses, teaser_goes, gets, title_ticks, comes_back, clicks_contact,
  sheet_slides, leaves_sheet, sheet_goes, Reach, here, next,
}

-- The panel's classes and ARIA attributes agree with `isOpen`; an open panel has no unread answers
-- and no flashing title, and the teaser has been dismissed; the badge shows the number of unread
-- answers; while no title flashes the page has its own title; a dismissed teaser has no timer; the
-- sheet is hidden once it is closed and its timers have run.
pub record IsTidy (t : Text) (p : Panel) : Type 0 where
  pub shown : p.panel_open ≡ p.is_open
  pub aria : p.aria_hidden ≡ not p.is_open
  pub active : p.fab_active ≡ p.is_open
  pub glowing : p.glow ≡ p.is_open
  pub all_read : p.is_open ≡ true → p.unread ≡ 0
  pub no_flash : p.is_open ≡ true → p.title_timer ≡ false
  pub greeted : p.is_open ≡ true → p.teaser_dismissed ≡ true
  pub no_teaser : p.teaser_dismissed ≡ true → p.teaser_timer ≡ false
  pub badge_off : p.badge_hidden ≡ (p.unread == 0)
  pub badge_on : p.badge_hidden ≡ false → p.badge ≡ badge_text p.unread
  pub own_title : p.title_timer ≡ false → p.title ≡ page t
  pub saved_title : p.title_timer ≡ true → p.orig_title ≡ t
  pub sheet : p.sheet_open ≡ false → p.sheet_timers ≡ 0 → p.sheet_hidden ≡ true

mounted-IsTidy : (t : Text) (d : Bool) → IsTidy t (mounted t d)
mounted-IsTidy t d = ground arith

module _ (t : Text) (named : is_empty t ≡ false) where
  stop-IsTidy : (p : Panel) → IsTidy t p → IsTidy t (stop_title_flash p)
  unfolding stop_title_flash
  stop-IsTidy p h = ground arith

  open_panel-IsTidy : (p : Panel) → IsTidy t p → IsTidy t (open_panel p)
  unfolding open_panel dismiss_teaser stop_title_flash
  open_panel-IsTidy p h = ground arith

  close_panel-IsTidy : (p : Panel) → IsTidy t p → IsTidy t (close_panel p)
  unfolding close_panel
  close_panel-IsTidy p h = ground arith

  receive-IsTidy : (b : Bool) (p : Panel) → IsTidy t p → IsTidy t (receive b p)
  unfolding receive mark_unread start_title_flash
  receive-IsTidy b p h = ground arith

  close_sheet-IsTidy : (p : Panel) → IsTidy t p → IsTidy t (close_sheet p)
  unfolding close_sheet
  close_sheet-IsTidy p h = ground arith

  Step-IsTidy : {p q : Panel} → Step p q → IsTidy t p → IsTidy t q
  unfolding toggle escape flash teaser_due teaser_appears dismiss_teaser hide_teaser
      maybe_show_teaser click_contact open_sheet sheet_appears hide_sheet
  Step-IsTidy {p} clicks_fab h = ground (arith, open_panel-IsTidy p h, close_panel-IsTidy p h)
  Step-IsTidy {p} clicks_close h = close_panel-IsTidy p h
  Step-IsTidy {p} presses_escape h = ground (arith, close_sheet-IsTidy p h, close_panel-IsTidy p h)
  Step-IsTidy {p} opens h = open_panel-IsTidy p h
  Step-IsTidy {p} (offers_teaser b) h = ground arith
  Step-IsTidy {p} (teaser_fires e) h = ground arith
  Step-IsTidy {p} (teaser_slides e) h = ground arith
  Step-IsTidy {p} dismisses h = ground arith
  Step-IsTidy {p} teaser_goes h = ground arith
  Step-IsTidy {p} (gets b) h = receive-IsTidy b p h
  Step-IsTidy {p} (title_ticks e) h = ground arith
  Step-IsTidy {p} comes_back h = stop-IsTidy p h
  Step-IsTidy {p} (clicks_contact b) h = ground arith
  Step-IsTidy {p} (sheet_slides e) h = ground arith
  Step-IsTidy {p} leaves_sheet h = close_sheet-IsTidy p h
  Step-IsTidy {p} sheet_goes h = ground arith

  Reach-IsTidy : {p q : Panel} → IsTidy t p → Reach p q → IsTidy t q
  Reach-IsTidy h here = h
  Reach-IsTidy h (next r s) = Step-IsTidy s (Reach-IsTidy h r)

-- Whatever the visitor, the previewing page and the timers do, on a page with a title that is not
-- empty: the panel's classes and ARIA attributes agree with `isOpen`; an open panel has no unread
-- answers and no flashing title, and the teaser has been dismissed for good; the badge is shown just
-- when there are unread answers, with their number; while no title flashes the page has its own
-- title; a dismissed teaser has no timer; a closed sheet whose timers have run is hidden.
pub reachable-IsTidy :
    (t : Text)
    → is_empty t ≡ false
    → (dismissed : Bool) {p : Panel} → Reach (mounted t dismissed) p
    → IsTidy t p
reachable-IsTidy t named d r = Reach-IsTidy t named (mounted-IsTidy t d) r
