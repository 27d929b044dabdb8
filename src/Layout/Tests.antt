-- ===== src/Layout/Tests.antt =====
-- Tests of place and colours, and their theorems at concrete inputs.
use website_ai_assistant.Prelude.{◌≡◌, refl, [], Bool, true, false}
use website_ai_assistant.Text.{Text, text, starts_with, eq_text}
use website_ai_assistant.Layout.{
  whole, negative, Options, Look, Box, auto, px, letters, apply_visuals, corner_of,
}

abbrev night : Options
night = record {
  primary_color = text "navy";
  secondary_color = text "teal";
  accent_color = [];
  theme_mode = text "solid";
  dark_mode = text "dark";
  panel_width = whole 900;
  panel_height = whole 600;
  border_radius = whole 20;
  font_family = text "Vazir";
  font_size = text "large";
  bubble_style = [];
  enable_animations = true;
  position = text "top-left";
  vertical_offset = negative;
  horizontal_offset = whole 24;
  mobile_fullscreen = true;
  logo_url = [];
  bot_avatar_text = text "A";
  title = text "Help";
  header_badge = [];
  subtitle = [];
  input_placeholder = [];
  show_powered_by = true;
  show_avatar = true;
}

abbrev nowhere : Box
nowhere = record { top = auto; bottom = auto; left = auto; right = auto }

abbrev plain_look : Look
plain_look = record {
  vars = record {
    primary = [];
    secondary = [];
    accent = [];
    header_bg = [];
    panel_w = 0;
    panel_h = 0;
    radius = 0;
    font = [];
    font_px = 0;
    bubble = [];
    font_name = [];
    anim = true;
  };
  dark = true;
  corner = [];
  fullscreen = false;
  root = nowhere;
  fab = nowhere;
  teaser = nowhere;
  glow = nowhere;
  panel = nowhere;
  avatar = letters [];
  title = [];
  badge = [];
  subtitle = [];
  placeholder = [];
  powered_hidden = false;
  no_avatar = false;
}

abbrev any_url : Text → Bool
any_url _ = true

abbrev dressed : Look
dressed = apply_visuals any_url false false night plain_look

dressed_corner : dressed.corner ≡ text "tl"
unfolding apply_visuals corner_of text eq_text
dressed_corner = refl

dressed_panel : dressed.panel ≡ record { top = px 80; bottom = auto; left = px 24; right = auto }
unfolding apply_visuals text starts_with
dressed_panel = refl

dressed_width : dressed.vars.panel_w ≡ 520
unfolding apply_visuals
dressed_width = refl
