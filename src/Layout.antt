-- ===== src/Layout.antt =====
-- static/widget/widget.js: place and colours (`clamp`, `detectDarkMode`, `applyThemeVars`,
-- `getHeaderBg`, `applyTheme`, `applyVisuals`, the theme button). Classes and inline styles are fields.
-- Sizes are whole numbers; `auto_dark` is the system's preference, `is_safe_url` the browser's verdict.
pub mod Theme
mod Tests
use website_ai_assistant.Prelude.{
  ℕ, ◌+◌, min, max, Bool, true, false, not, ◌&&◌, ◌||◌, [], ◌∷◌, ◌++◌, if◌then◌else◌, is_empty,
}
use website_ai_assistant.Text.{Text, text, starts_with, eq_text}

-- `Number(val)`: `NaN`, infinite, below zero, or a whole number.
pub data Number : Type 0 where
  not_number infinite negative : Number
  whole : ℕ → Number

unfoldable pub clamp : Number → ℕ → ℕ → ℕ
clamp not_number lo hi = lo
clamp infinite lo hi = lo
clamp negative lo hi = min hi lo
clamp (whole n) lo hi = min hi (max lo n)

-- The options that are read here; a flag whose test is `!== false` or `=== false` is a Boolean.
pub record Options : Type 0 where
  pub primary_color : Text
  pub secondary_color : Text
  pub accent_color : Text
  pub theme_mode : Text
  pub dark_mode : Text
  pub panel_width : Number
  pub panel_height : Number
  pub border_radius : Number
  pub font_family : Text
  pub font_size : Text
  pub bubble_style : Text
  pub enable_animations : Bool
  pub position : Text
  pub vertical_offset : Number
  pub horizontal_offset : Number
  pub mobile_fullscreen : Bool
  pub logo_url : Text
  pub bot_avatar_text : Text
  pub title : Text
  pub header_badge : Text
  pub subtitle : Text
  pub input_placeholder : Text
  pub show_powered_by : Bool
  pub show_avatar : Bool

-- An inset: `auto`, `0`, a number of pixels, or the difference of two.
pub data Inset : Type 0 where
  auto zero_inset : Inset
  px : ℕ → Inset
  px_minus : ℕ → ℕ → Inset

pub record Box : Type 0 where
  pub top : Inset
  pub bottom : Inset
  pub left : Inset
  pub right : Inset

pub record Vars : Type 0 where
  pub primary : Text
  pub secondary : Text
  pub accent : Text
  pub header_bg : Text
  pub panel_w : ℕ
  pub panel_h : ℕ
  pub radius : ℕ
  pub font : Text
  pub font_px : ℕ
  pub bubble : Text
  pub font_name : Text
  pub anim : Bool

pub data Avatar : Type 0 where
  image letters : Text → Avatar

-- The classes and styles that the functions write.
pub record Look : Type 0 where
  pub vars : Vars
  pub dark : Bool
  pub corner : Text
  pub fullscreen : Bool
  pub root : Box
  pub fab : Box
  pub teaser : Box
  pub glow : Box
  pub panel : Box
  pub avatar : Avatar
  pub title : Text
  pub badge : Text
  pub subtitle : Text
  pub placeholder : Text
  pub powered_hidden : Bool
  pub no_avatar : Bool

-- `s.indexOf(p) !== -1`
unfoldable pub contains : Text → Text → Bool
unfolding starts_with
contains p [] = is_empty p
contains p (c ∷ s) = starts_with p (c ∷ s) || contains p s

abbrev or_text : Text → Text → Text
or_text s t = if is_empty s then t else s

unfoldable pub detect_dark_mode : Bool → Text → Bool
unfolding eq_text text
detect_dark_mode auto_dark mode =
    if eq_text mode (text "dark")
    then true
    else if eq_text mode (text "light")
    then false
    else auto_dark

unfoldable pub get_header_bg : Options → Text
unfolding eq_text text
get_header_bg o =
    if eq_text o.theme_mode (text "solid")
    then o.primary_color
    else if eq_text o.theme_mode (text "glass")
    then text "linear-gradient(135deg, "
      ++ (o.primary_color ++ (text "dd, " ++ (o.secondary_color ++ text "cc)")))
    else text "linear-gradient(135deg, "
      ++ (o.primary_color ++ (text ", " ++ (o.secondary_color ++ text ")")))

unfoldable pub font_pixels : Text → ℕ
unfolding eq_text text
font_pixels size =
    if eq_text size (text "small") then 12 else if eq_text size (text "large") then 16 else 14

unfoldable pub apply_theme_vars : Options → Look → Look
unfolding clamp get_header_bg font_pixels text
apply_theme_vars o l = record l {
  vars = record {
    primary = o.primary_color;
    secondary = o.secondary_color;
    accent = or_text o.accent_color o.secondary_color;
    header_bg = get_header_bg o;
    panel_w = clamp o.panel_width 300 520;
    panel_h = clamp o.panel_height 400 800;
    radius = clamp o.border_radius 12 36;
    font = o.font_family;
    font_px = font_pixels o.font_size;
    bubble = or_text o.bubble_style (text "rounded");
    font_name = or_text o.font_size (text "normal");
    anim = o.enable_animations;
  };
}

unfoldable pub apply_theme : Bool → Options → Look → Look
unfolding detect_dark_mode
apply_theme auto_dark o l = record l { dark = detect_dark_mode auto_dark o.dark_mode }

-- The click on the theme button, up to `applyTheme`.
unfoldable pub next_mode : Bool → Text → Text
unfolding detect_dark_mode eq_text text
next_mode auto_dark mode =
    if eq_text mode (text "auto")
    then if detect_dark_mode auto_dark (text "auto") then text "light" else text "dark"
    else if eq_text mode (text "dark")
    then text "light"
    else text "dark"

unfoldable pub click_theme : Bool → Options → Look → Options × Look
unfolding next_mode apply_theme
click_theme auto_dark o l =
    let p = record o { dark_mode = next_mode auto_dark o.dark_mode } in
    (p, apply_theme auto_dark p l)

-- `cornerMap[pos] || "br"`
unfoldable pub corner_of : Text → Text
unfolding eq_text text
corner_of pos =
    if eq_text pos (text "bottom-left")
    then text "bl"
    else if eq_text pos (text "top-right")
    then text "tr"
    else if eq_text pos (text "top-left")
    then text "tl"
    else text "br"

-- An element at one edge of each direction.
abbrev pub at : Bool → Bool → Inset → Inset → Box
at is_bottom is_left v h = record {
  top = if is_bottom then auto else v;
  bottom = if is_bottom then v else auto;
  left = if is_left then h else auto;
  right = if is_left then auto else h;
}

abbrev pub pos_of : Options → Text
pos_of o = or_text o.position (text "bottom-right")

module _ (is_safe_url : Text → Bool) where
  -- The boxes of `applyVisuals`.
  unfoldable pub place : Options → Look → Look
  unfolding clamp contains corner_of text
  place o l =
      let pos = pos_of o in
      let vert = clamp o.vertical_offset 8 200 in
      let horiz = clamp o.horizontal_offset 8 200 in
      let is_bottom = contains (text "bottom") pos in
      let is_left = contains (text "left") pos in
      record l {
        dark = false;
        fullscreen = false;
        corner = corner_of pos;
        root = at is_bottom is_left zero_inset zero_inset;
        fab = at is_bottom is_left (px vert) (px horiz);
        teaser = at is_bottom is_left (px (vert + 72)) (px horiz);
        glow = at is_bottom is_left (px_minus vert 190) (px_minus horiz 180);
        panel = at is_bottom is_left (px (vert + 60 + 12)) (px horiz);
      }

  -- `applyVisuals`; setting `className` takes away the class `dark`.
  unfoldable pub apply_visuals : Bool → Bool → Options → Look → Look
  unfolding apply_theme_vars apply_theme place text
  apply_visuals auto_dark is_loading o l =
      record (place o (apply_theme auto_dark o (apply_theme_vars o l))) {
        fullscreen = o.mobile_fullscreen;
        avatar =
            if not (is_empty o.logo_url) && is_safe_url o.logo_url
            then image o.logo_url
            else letters (or_text o.bot_avatar_text (0x2726 ∷ []));
        title = o.title;
        badge = o.header_badge;
        subtitle = if is_loading then l.subtitle else o.subtitle;
        placeholder = o.input_placeholder;
        powered_hidden = not o.show_powered_by;
        no_avatar = not o.show_avatar;
      }
