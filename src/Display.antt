-- ===== src/Display.antt =====
-- static/widget/widget.js: what of the options is drawn on the page, and when it is drawn again: `mount`,
-- `loadConfig` and `applyConfig` with the parts of `applyVisuals`, `renderSuggestions`, `renderResources` and
-- `renderChannels` that show options, and `bindPreviewChannel`. `shown` is the text that the browser
-- makes of an option's value, `is_safe_url` its verdict on an address.
pub mod Fresh
pub mod Stale
mod Tests
use website_ai_assistant.Prelude.{
  Bool, true, false, not, ◌&&◌, List, [], ◌∷◌, Option, none, some, if◌then◌else◌, is_empty, map,
}
use website_ai_assistant.Text.{Text, text, eq_text}
use website_ai_assistant.Layout.{Number}
use website_ai_assistant.Config.Values.{
  Value, undefined, null, bool, num, str, texts, object, Store, get, truthy, text_of,
}
use website_ai_assistant.Config.Remote.{Fetched, failed, loaded, load_config}
use website_ai_assistant.Config.Preview.{apply_config}
use website_ai_assistant.Links.{Contacts, Anchor, render_resources, render_channels}
use website_ai_assistant.Markup.{render}
use website_ai_assistant.Markup.Front.{Shell}
use website_ai_assistant.Markup.Shell.{fab_icon}
use website_ai_assistant.Markup.Cards.{Site, strip_template, strip_hidden}
use website_ai_assistant.History.{Child}
use website_ai_assistant.Panel.{Panel, open_panel, close_panel}

pub data Avatar : Type 0 where
  image letters : Text → Avatar

-- The parts of the page that show options.
pub record Look : Type 0 where
  pub title : Text
  pub badge : Text
  pub avatar : Avatar
  pub powered_hidden : Bool
  pub no_avatar : Bool
  pub mobile_fullscreen : Bool
  pub strip : Text
  pub resources : List Anchor
  pub channels : List Anchor × Bool
  pub sheet_title : Text
  pub sheet_desc : Text
  pub teaser_text : Text
  pub fab_label : Text
  pub fab_icon_html : Text

-- `placeholder` and `subtitle` also tell that an answer is under way; `panel_label` is the panel's
-- `aria-label`.
pub record Drawn : Type 0 where
  pub look : Look
  pub subtitle : Text
  pub placeholder : Text
  pub strip_is_hidden : Bool
  pub contact_hidden : Bool
  pub panel_label : Text

-- What else the drawing reads at its time.
pub record Moment : Type 0 where
  pub is_loading : Bool
  pub chat_started : Bool
  pub children : List Child

-- `v === false`.
abbrev pub is_false : Value → Bool
is_false (bool b) = not b
is_false _ = false

abbrev pub texts_of : Value → List Text
texts_of (texts l) = l
texts_of _ = []

-- An entry of `handoffUrls`.
unfoldable pub entry : Text → List (Text × Text) → Text
entry k [] = []
entry k ((j, v) ∷ es) = if eq_text j k then v else entry k es

abbrev pub entries_of : Value → List (Text × Text)
entries_of (object es) = es
entries_of _ = []

module _ (shown : Value → Text) (is_safe_url : Text → Bool) where
  -- The text of a truthy value, otherwise empty.
  unfoldable pub if_truthy : Value → Text
  unfolding truthy
  if_truthy v = if truthy v then shown v else []

  unfoldable pub avatar_of : Store → Avatar
  unfolding if_truthy get text
  avatar_of o =
      let logo = if_truthy (get (text "logoUrl") o) in
      let letters_text = if_truthy (get (text "botAvatarText") o) in
      if not (is_empty logo) && is_safe_url logo
      then image logo
      else letters (if is_empty letters_text then text "✦" else letters_text)

  unfoldable pub site_of : Store → Site
  unfolding if_truthy get text
  site_of o = record {
    suggestions = texts_of (get (text "suggestions") o);
    logo_url = if_truthy (get (text "logoUrl") o);
  }

  unfoldable pub contacts_of : Store → Contacts
  unfolding if_truthy get text entry
  contacts_of o =
      let urls = entries_of (get (text "handoffUrls") o) in
      record {
        faq_url = if_truthy (get (text "faqUrl") o);
        privacy_url = if_truthy (get (text "privacyUrl") o);
        support_email = if_truthy (get (text "supportEmail") o);
        support_phone = if_truthy (get (text "supportPhone") o);
        telegram = entry (text "telegram") urls;
        whatsapp = entry (text "whatsapp") urls;
        contact_form = entry (text "contact_form") urls;
      }

  -- The options that `getFabIconHtml` reads, beside those of the shell's texts.
  unfoldable pub shell_of : Store → Shell
  unfolding if_truthy get text text_of
  shell_of o = record {
    title = shown (get (text "title") o);
    input_placeholder = shown (get (text "inputPlaceholder") o);
    lead_form_title = shown (get (text "leadFormTitle") o);
    lead_form_description = shown (get (text "leadFormDescription") o);
    fab_label = shown (get (text "fabLabel") o);
    teaser_text = shown (get (text "teaserText") o);
    icon_type = text_of (get (text "iconType") o);
    custom_icon_url = if_truthy (get (text "customIconUrl") o);
    default_icon_choice = text_of (get (text "defaultIconChoice") o);
  }

  unfoldable pub icon_html : Store → Text
  unfolding shell_of fab_icon render
  icon_html o = render (fab_icon is_safe_url (shell_of o))

  -- The end of `applyVisuals`.
  unfoldable pub draw_visuals : Moment → Store → Drawn → Drawn
  unfolding avatar_of get text
  draw_visuals now o d = record d {
    look = record d.look {
      mobile_fullscreen = not (is_false (get (text "mobileFullscreen") o));
      avatar = avatar_of o;
      title = shown (get (text "title") o);
      badge = shown (get (text "headerBadge") o);
      powered_hidden = is_false (get (text "showPoweredBy") o);
      no_avatar = is_false (get (text "showAvatar") o);
    };
    subtitle = if now.is_loading then d.subtitle else shown (get (text "subtitle") o);
    placeholder = shown (get (text "inputPlaceholder") o);
  }

  -- `renderSuggestions`, `renderResources` and `renderChannels`.
  unfoldable pub draw_lists : Moment → Store → Drawn → Drawn
  unfolding site_of contacts_of strip_template strip_hidden render_resources render_channels render
  draw_lists now o d = record d {
    look = record d.look {
      strip = render (strip_template (site_of o));
      resources = render_resources is_safe_url (contacts_of o);
      channels = render_channels is_safe_url (contacts_of o);
    };
    strip_is_hidden = strip_hidden (site_of o) now.chat_started now.children;
  }

  -- The texts of the sheet and of the round button, at the end of `loadConfig` and `applyConfig`.
  unfoldable pub draw_texts : Store → Drawn → Drawn
  unfolding icon_html get text
  draw_texts o d = record d {
    look = record d.look {
      sheet_title = shown (get (text "leadFormTitle") o);
      sheet_desc = shown (get (text "leadFormDescription") o);
      fab_label = shown (get (text "fabLabel") o);
      fab_icon_html = icon_html o;
    };
  }

  unfoldable pub draw_teaser : Store → Drawn → Drawn
  unfolding get text
  draw_teaser o d = record d {
    look = record d.look { teaser_text = shown (get (text "teaserText") o) };
  }

  -- The empty shell, and the shell of `mount` with what its HTML shows of the options.
  abbrev blank : Drawn
  blank = record {
    look = record {
      title = [];
      badge = [];
      avatar = letters [];
      powered_hidden = false;
      no_avatar = false;
      mobile_fullscreen = false;
      strip = [];
      resources = [];
      channels = ([], false);
      sheet_title = [];
      sheet_desc = [];
      teaser_text = [];
      fab_label = [];
      fab_icon_html = [];
    };
    subtitle = [];
    placeholder = [];
    strip_is_hidden = false;
    contact_hidden = false;
    panel_label = [];
  }

  abbrev at_mount : Moment
  at_mount = record { is_loading = false; chat_started = false; children = [] }

  -- `mount`, as far as options show.
  unfoldable pub mount : Store → Drawn
  unfolding draw_visuals draw_lists draw_texts draw_teaser get text
  mount o =
      let shell = record (draw_teaser o (draw_texts o blank)) {
        panel_label = shown (get (text "title") o);
      } in
      draw_lists at_mount o (draw_visuals at_mount o shell)

  -- `loadConfig` behind the response, with the options `o` that it leaves.
  unfoldable pub redraw_loaded : Moment → Store → Drawn → Drawn
  unfolding draw_visuals draw_lists draw_texts get text truthy
  redraw_loaded now o d =
      let titled = record d { subtitle = shown (get (text "subtitle") o) } in
      draw_texts o (record (draw_lists now o (draw_visuals now o titled)) {
        contact_hidden = not (truthy (get (text "enableLeadCapture") o));
      })

  -- `applyConfig`, with the options that it leaves.
  unfoldable pub redraw_applied : Moment → Store → Drawn → Drawn
  unfolding draw_visuals draw_lists draw_texts draw_teaser
  redraw_applied now o d = draw_texts o (draw_teaser o (draw_lists now o (draw_visuals now o d)))

-- The widget's face: options, what is drawn of them, and the panel.
pub record Face : Type 0 where
  pub options : Store
  pub drawn : Drawn
  pub panel : Panel

-- `e.data` of a message to the window; `config` is there if it is truthy.
pub record Message : Type 0 where
  pub type_ : Text
  pub config : Option Store

-- "answering…", and "writing…".
abbrev pub answering : Text
answering =
    text
      "\u{62f}\u{631} \u{62d}\u{627}\u{644} \u{67e}\u{627}\u{633}\u{62e}\u{200c}\u{62f}\u{647}\u{6cc}..."

abbrev pub writing : Text
writing = text "\u{62f}\u{631} \u{62d}\u{627}\u{644} \u{646}\u{648}\u{634}\u{62a}\u{646}…"

pub data Event : Type 0 where
  loads : Fetched → Moment → Event
  messages : Message → Moment → Event
  awaits : Bool → Event
  -- whatever the visitor and the timers do to the panel
  moves : Panel → Event

module _ (shown : Value → Text) (is_safe_url : Text → Bool) (to_text : Value → Text)
    (to_number : Value → Number) where
  -- `loadConfig`; without a configuration nothing is drawn.
  unfoldable pub load : Store → Fetched → Moment → Face → Face
  unfolding load_config redraw_loaded
  load explicit failed now f = f
  load explicit (loaded raw) now f =
      let o = load_config explicit (loaded raw) f.options in
      record f { options = o; drawn = redraw_loaded shown is_safe_url now o f.drawn }

  unfoldable pub configure : Option Store → Moment → Face → Face
  unfolding apply_config redraw_applied
  configure none now f = f
  configure (some cfg) now f =
      let o = apply_config to_text to_number cfg f.options in
      record f { options = o; drawn = redraw_applied shown is_safe_url now o f.drawn }

  -- The listener of `bindPreviewChannel`.
  unfoldable pub on_message : Message → Moment → Face → Face
  unfolding configure open_panel close_panel text eq_text
  on_message e now f =
      let g = if eq_text e.type_ (text "aiss:config") then configure e.config now f else f in
      let h =
        if eq_text e.type_ (text "aiss:open") then record g { panel = open_panel g.panel } else g in
      if eq_text e.type_ (text "aiss:close") then record h { panel = close_panel h.panel } else h

  -- `setLoading`, as far as it shows texts of the options.
  unfoldable pub show_loading : Bool → Face → Face
  unfolding get text
  show_loading loading f = record f {
    drawn = record f.drawn {
      subtitle = if loading then writing else shown (get (text "subtitle") f.options);
      placeholder = if loading then answering else shown (get (text "inputPlaceholder") f.options);
    };
  }

  unfoldable pub happen : Store → Event → Face → Face
  unfolding load on_message show_loading
  happen explicit (loads r now) f = load explicit r now f
  happen explicit (messages e now) f = on_message e now f
  happen explicit (awaits b) f = show_loading b f
  happen explicit (moves p) f = record f { panel = p }

  unfoldable pub happen_all : Store → List Event → Face → Face
  unfolding happen
  happen_all explicit [] f = f
  happen_all explicit (e ∷ es) f = happen_all explicit es (happen explicit e f)
