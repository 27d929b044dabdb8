-- ===== src/Panel/Steps.antt =====
-- The panel in the page: what the visitor, the page that embeds a preview, and the timers can do.
use website_ai_assistant.Prelude.{Bool, true, false, [], ◌≡◌}
use website_ai_assistant.Text.{Text}
use website_ai_assistant.Panel.{
  Panel, page, flash, stop_title_flash, receive, maybe_show_teaser, teaser_due, teaser_appears,
  dismiss_teaser, hide_teaser, open_panel, close_panel, toggle, click_contact, sheet_appears,
  close_sheet, hide_sheet, escape,
}

-- The widget after `mount`, in a page with a title; `dismissed` is the session's memory.
abbrev pub mounted : Text → Bool → Panel
mounted t dismissed = record {
  is_open = false;
  panel_open = false;
  aria_hidden = true;
  fab_active = false;
  glow = false;
  unread = 0;
  badge = [];
  badge_hidden = true;
  title = page t;
  orig_title = [];
  title_timer = false;
  flip = false;
  teaser_timer = false;
  teaser_frames = false;
  teaser_hidden = true;
  teaser_show = false;
  teaser_dismissed = dismissed;
  teaser_timers = 0;
  sheet_open = false;
  sheet_hidden = true;
  sheet_class = false;
  sheet_frames = false;
  sheet_timers = 0;
}

pub data Step (p : Panel) : Panel → Type 0 where
  clicks_fab : Step p (toggle p)
  clicks_close : Step p (close_panel p)
  presses_escape : Step p (escape p)
  -- the teaser, or the message of the preview
  opens : Step p (open_panel p)
  offers_teaser : (allowed : Bool) → Step p (maybe_show_teaser allowed p)
  teaser_fires : p.teaser_timer ≡ true → Step p (teaser_due p)
  teaser_slides : p.teaser_frames ≡ true → Step p (teaser_appears p)
  dismisses : Step p (dismiss_teaser p)
  teaser_goes : Step p (hide_teaser p)
  gets : (hidden : Bool) → Step p (receive hidden p)
  title_ticks : p.title_timer ≡ true → Step p (flash p)
  comes_back : Step p (stop_title_flash p)
  clicks_contact : (enabled : Bool) → Step p (click_contact enabled p)
  sheet_slides : p.sheet_frames ≡ true → Step p (sheet_appears p)
  leaves_sheet : Step p (close_sheet p)
  sheet_goes : Step p (hide_sheet p)

pub data Reach (p : Panel) : Panel → Type 0 where
  here : Reach p p
  next : {q r : Panel} → Reach p q → Step q r → Reach p r
