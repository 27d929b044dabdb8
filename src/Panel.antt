-- ===== src/Panel.antt =====
-- static/widget/widget.js: the panel around the conversation (`open`, `close`, `toggle`, Escape), the
-- contact sheet, the teaser, the unread badge and the flashing of the page's title. Elements' flags and
-- classes are fields; a pending timer or frame is a flag that its event clears.
pub mod Steps
pub mod Tidy
pub mod Unread
mod Tests
use website_ai_assistant.Prelude.{
  ℕ, zero, suc, ◌+◌, Bool, true, false, not, ◌&&◌, ◌||◌, List, [], ◌∷◌, if◌then◌else◌, ltb,
  is_empty,
}
use website_ai_assistant.Text.{Text, text}
use website_ai_assistant.Text.Decimal.{decimal}

-- `document.title`: the page's own, or the message of a new answer.
pub data Title : Type 0 where
  page : Text → Title
  news : Title

pub record Panel : Type 0 where
  pub is_open : Bool
  pub panel_open : Bool
  pub aria_hidden : Bool
  pub fab_active : Bool
  pub glow : Bool
  pub unread : ℕ
  pub badge : Text
  pub badge_hidden : Bool
  pub title : Title
  pub orig_title : Text
  pub title_timer : Bool
  pub flip : Bool
  pub teaser_timer : Bool
  pub teaser_frames : Bool
  pub teaser_hidden : Bool
  pub teaser_show : Bool
  pub teaser_dismissed : Bool
  pub teaser_timers : ℕ
  pub sheet_open : Bool
  pub sheet_hidden : Bool
  pub sheet_class : Bool
  pub sheet_frames : Bool
  pub sheet_timers : ℕ

-- `document.title` when a flash starts; `news` is never read, since the timer is off then.
abbrev shown_title : Title → Text
shown_title (page t) = t
shown_title news = []

unfoldable pub start_title_flash : Panel → Panel
start_title_flash p =
    if p.title_timer
    then p
    else record p { orig_title = shown_title p.title; flip = false; title_timer = true }

-- The interval's callback.
unfoldable pub flash : Panel → Panel
flash p = record p { flip = not p.flip; title = if not p.flip then news else page p.orig_title }

unfoldable pub stop_title_flash : Panel → Panel
stop_title_flash p =
    if p.title_timer
    then record p {
      title_timer = false;
      title = if is_empty p.orig_title then p.title else page p.orig_title;
    }
    else p

unfoldable pub badge_text : ℕ → Text
unfolding text
badge_text n = if ltb 9 n then text "9+" else decimal n

-- `_markUnread`; the argument is `document.hidden`.
unfoldable pub mark_unread : Bool → Panel → Panel
unfolding start_title_flash
mark_unread hidden p =
    let q = record p {
      unread = p.unread + 1;
      badge = badge_text (p.unread + 1);
      badge_hidden = false;
    } in
    if hidden then start_title_flash q else q

-- What `addMessage` does to the panel for a message of the bot that is not streamed.
unfoldable pub receive : Bool → Panel → Panel
unfolding mark_unread
receive hidden p = if p.is_open then p else mark_unread hidden p

-- `_maybeShowTeaser`; `allowed` is the test of the options, the preview and the window's width.
unfoldable pub maybe_show_teaser : Bool → Panel → Panel
maybe_show_teaser allowed p =
    if not allowed || p.is_open || p.teaser_dismissed then p else record p { teaser_timer = true }

-- The teaser's timer fires.
unfoldable pub teaser_due : Panel → Panel
teaser_due p =
    let q = record p { teaser_timer = false } in
    if p.is_open then q else record q { teaser_hidden = false; teaser_frames = true }

-- The second of the two animation frames.
unfoldable pub teaser_appears : Panel → Panel
teaser_appears p = record p { teaser_frames = false; teaser_show = true }

-- `_dismissTeaser(true)`; all calls pass `true`.
unfoldable pub dismiss_teaser : Panel → Panel
dismiss_teaser p = record p {
  teaser_timer = false;
  teaser_show = false;
  teaser_dismissed = true;
  teaser_timers = p.teaser_timers + 1;
}

-- Its timer, 320 ms later.
unfoldable pub hide_teaser : Panel → Panel
hide_teaser p = elim p.teaser_timers [
  | zero ↦ p
  | suc n ↦ record p { teaser_hidden = true; teaser_timers = n }
]

unfoldable pub open_panel : Panel → Panel
unfolding stop_title_flash dismiss_teaser
open_panel p =
    let q = dismiss_teaser (record (stop_title_flash (record p { is_open = true; unread = 0 })) {
      badge_hidden = true;
    }) in
    record q { glow = true; panel_open = true; aria_hidden = false; fab_active = true }

unfoldable pub close_panel : Panel → Panel
close_panel p = record p {
  is_open = false;
  panel_open = false;
  aria_hidden = true;
  fab_active = false;
  glow = false;
}

unfoldable pub toggle : Panel → Panel
unfolding open_panel close_panel
toggle p = if p.is_open then close_panel p else open_panel p

unfoldable pub open_sheet : Panel → Panel
open_sheet p = record p { sheet_hidden = false; sheet_frames = true; sheet_open = true }

-- The click on the contact button.
unfoldable pub click_contact : Bool → Panel → Panel
unfolding open_sheet
click_contact enable_lead_capture p = if enable_lead_capture then open_sheet p else p

unfoldable pub sheet_appears : Panel → Panel
sheet_appears p = record p { sheet_frames = false; sheet_class = true }

unfoldable pub close_sheet : Panel → Panel
close_sheet p =
    if p.sheet_open
    then record p { sheet_class = false; sheet_open = false; sheet_timers = p.sheet_timers + 1 }
    else p

-- The timer that `closeSheet` sets, 380 ms later.
unfoldable pub hide_sheet : Panel → Panel
hide_sheet p = elim p.sheet_timers [
  | zero ↦ p
  | suc n ↦ record p { sheet_hidden = true; sheet_timers = n }
]

unfoldable pub escape : Panel → Panel
unfolding close_sheet close_panel
escape p = if p.sheet_open then close_sheet p else if p.is_open then close_panel p else p
