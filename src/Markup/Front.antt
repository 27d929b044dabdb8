-- ===== src/Markup/Front.antt =====
-- static/widget/widget.js: the HTML of the shell (`mount`) up to the icon of the round button.
use website_ai_assistant.Prelude.{List, [], ◌∷◌}
use website_ai_assistant.Text.{Text, text}
use website_ai_assistant.Markup.{Symbol, put, fixed, template}
use website_ai_assistant.Markup.Icons

-- The options that stand in the shell; one that is missing is empty.
pub record Shell : Type 0 where
  pub title : Text
  pub input_placeholder : Text
  pub lead_form_title : Text
  pub lead_form_description : Text
  pub fab_label : Text
  pub teaser_text : Text
  pub icon_type : Text
  pub custom_icon_url : Text
  pub default_icon_choice : Text

unfoldable pub shell_before : Shell → List Symbol
unfolding text fixed
shell_before o = template (
    fixed (text "<div class=\"asw-glow\" id=\"asw-glow\" aria-hidden=\"true\"></div>")
    ∷ fixed (text "<section class=\"asw-panel\" role=\"dialog\" aria-label=\"")
    ∷ put o.title
    ∷ fixed (text "\" aria-hidden=\"true\">")
    ∷ fixed (text "<header class=\"asw-header\">")
    ∷ fixed (text "<div class=\"asw-heading\">")
    ∷ fixed (text "<div class=\"asw-avatar-wrap\">")
    ∷ fixed (text "<div class=\"asw-avatar\" id=\"asw-avatar\"></div>")
    ∷ fixed (text "<span class=\"asw-status\" aria-hidden=\"true\"></span>")
    ∷ fixed (text "</div>")
    ∷ fixed (text "<div class=\"asw-info\">")
    ∷ fixed (
        text
          "<div class=\"asw-title-row\"><span class=\"asw-title\" id=\"asw-title\"></span><span class=\"asw-ai-chip\" aria-hidden=\"true\">")
    ∷ fixed Icons.icon_sparkles
    ∷ fixed (
        text
          "<span>AI</span></span><span class=\"asw-badge\" id=\"asw-badge\"><span class=\"asw-badge-dot\" aria-hidden=\"true\"></span><span id=\"asw-badge-text\"></span></span></div>")
    ∷ fixed (text "<div class=\"asw-subtitle\" id=\"asw-subtitle\"></div>")
    ∷ fixed (text "</div>")
    ∷ fixed (text "</div>")
    ∷ fixed (text "<div class=\"asw-actions\">")
    ∷ fixed (
        text
          "<button class=\"asw-header-btn\" id=\"asw-clear-history\" type=\"button\" aria-label=\"\u{634}\u{631}\u{648}\u{639} \u{6af}\u{641}\u{62a}\u{6af}\u{648}\u{6cc} \u{62c}\u{62f}\u{6cc}\u{62f}\" title=\"\u{6af}\u{641}\u{62a}\u{6af}\u{648}\u{6cc} \u{62c}\u{62f}\u{6cc}\u{62f}\">")
    ∷ fixed Icons.icon_refresh
    ∷ fixed (text "</button>")
    ∷ fixed (
        text
          "<button class=\"asw-header-btn\" id=\"asw-contact\" type=\"button\" aria-label=\"\u{62a}\u{645}\u{627}\u{633} \u{628}\u{627} \u{6a9}\u{627}\u{631}\u{634}\u{646}\u{627}\u{633}\" title=\"\u{62a}\u{645}\u{627}\u{633} \u{628}\u{627} \u{6a9}\u{627}\u{631}\u{634}\u{646}\u{627}\u{633}\">")
    ∷ fixed Icons.icon_phone
    ∷ fixed (text "</button>")
    ∷ fixed (
        text
          "<button class=\"asw-header-btn\" id=\"asw-theme-toggle\" type=\"button\" aria-label=\"\u{62a}\u{63a}\u{6cc}\u{6cc}\u{631} \u{62a}\u{645}\" title=\"\u{62a}\u{63a}\u{6cc}\u{6cc}\u{631} \u{62a}\u{645}\"></button>")
    ∷ fixed (
        text
          "<button class=\"asw-header-btn asw-close\" id=\"asw-close\" type=\"button\" aria-label=\"\u{628}\u{633}\u{62a}\u{646} \u{686}\u{62a}\" title=\"\u{628}\u{633}\u{62a}\u{646}\">")
    ∷ fixed Icons.icon_close
    ∷ fixed (text "</button>")
    ∷ fixed (text "</div>")
    ∷ fixed (text "</header>")
    ∷ fixed (text "<div class=\"asw-netstatus\" id=\"asw-netstatus\" hidden role=\"status\">")
    ∷ fixed Icons.icon_wifi_off
    ∷ fixed (
        text
          "<span>\u{627}\u{62a}\u{635}\u{627}\u{644} \u{627}\u{6cc}\u{646}\u{62a}\u{631}\u{646}\u{62a} \u{642}\u{637}\u{639} \u{627}\u{633}\u{62a} — \u{67e}\u{627}\u{633}\u{62e}\u{200c}\u{647}\u{627} \u{627}\u{631}\u{633}\u{627}\u{644} \u{646}\u{645}\u{6cc}\u{200c}\u{634}\u{648}\u{646}\u{62f}</span></div>")
    ∷ fixed (
        text
          "<div class=\"asw-messages\" id=\"asw-messages\" role=\"log\" aria-live=\"polite\"></div>")
    ∷ fixed (
        text
          "<div class=\"asw-typing\" id=\"asw-typing\" hidden aria-label=\"\u{62f}\u{631} \u{62d}\u{627}\u{644} \u{62a}\u{627}\u{6cc}\u{67e}...\">")
    ∷ fixed (text "<div class=\"asw-typing-ava\" aria-hidden=\"true\">")
    ∷ fixed Icons.icon_sparkles
    ∷ fixed (text "</div>")
    ∷ fixed (
        text
          "<div class=\"asw-typing-bubble\" aria-hidden=\"true\"><span class=\"asw-typing-dot\"></span><span class=\"asw-typing-dot\"></span><span class=\"asw-typing-dot\"></span></div>")
    ∷ fixed (text "<span class=\"asw-typing-label\" id=\"asw-typing-label\">")
    ∷ fixed Icons.thinking_first
    ∷ fixed (text "</span>")
    ∷ fixed (text "</div>")
    ∷ fixed (text "<div class=\"asw-suggestions\" id=\"asw-suggestions\"></div>")
    ∷ fixed (text "<footer class=\"asw-footer\">")
    ∷ fixed (
        text
          "<button class=\"asw-scrollbtn\" id=\"asw-scrollbtn\" type=\"button\" aria-label=\"\u{631}\u{641}\u{62a}\u{646} \u{628}\u{647} \u{622}\u{62e}\u{631}\u{6cc}\u{646} \u{67e}\u{6cc}\u{627}\u{645}\">")
    ∷ fixed Icons.icon_chevron_down
    ∷ fixed (text "</button>")
    ∷ fixed (text "<div class=\"asw-input-wrap\" id=\"asw-input-wrap\">")
    ∷ fixed (
        text
          "<textarea class=\"asw-input\" id=\"asw-input\" rows=\"1\" autocomplete=\"off\" enterkeyhint=\"send\" placeholder=\"")
    ∷ put o.input_placeholder
    ∷ fixed (
        text
          "\" aria-label=\"\u{67e}\u{6cc}\u{627}\u{645}\" style=\"height:auto;min-height:24px;max-height:132px\"></textarea>")
    ∷ fixed (
        text
          "<div class=\"asw-wave\" id=\"asw-wave\" hidden aria-hidden=\"true\"><span></span><span></span><span></span><span></span><span></span></div>")
    ∷ fixed (
        text
          "<button class=\"asw-mic\" id=\"asw-mic\" type=\"button\" aria-label=\"\u{648}\u{631}\u{648}\u{62f}\u{6cc} \u{635}\u{648}\u{62a}\u{6cc}\" title=\"\u{648}\u{631}\u{648}\u{62f}\u{6cc} \u{635}\u{648}\u{62a}\u{6cc}\" hidden>")
    ∷ fixed Icons.icon_mic
    ∷ fixed (text "</button>")
    ∷ fixed (
        text
          "<button class=\"asw-send\" id=\"asw-send\" type=\"button\" aria-label=\"\u{627}\u{631}\u{633}\u{627}\u{644} \u{67e}\u{6cc}\u{627}\u{645}\" disabled>")
    ∷ fixed Icons.icon_arrow_up
    ∷ fixed (text "</button>")
    ∷ fixed (text "</div>")
    ∷ fixed (text "<div class=\"asw-foot-meta\">")
    ∷ fixed (
        text
          "<div class=\"asw-disclaim\">\u{67e}\u{627}\u{633}\u{62e}\u{200c}\u{647}\u{627} \u{62a}\u{648}\u{633}\u{637} \u{647}\u{648}\u{634} \u{645}\u{635}\u{646}\u{648}\u{639}\u{6cc} \u{62a}\u{648}\u{644}\u{6cc}\u{62f} \u{645}\u{6cc}\u{200c}\u{634}\u{648}\u{646}\u{62f} \u{648} \u{645}\u{645}\u{6a9}\u{646} \u{627}\u{633}\u{62a} \u{627}\u{634}\u{62a}\u{628}\u{627}\u{647} \u{628}\u{627}\u{634}\u{646}\u{62f}.</div>")
    ∷ fixed (
        text
          "<div class=\"asw-powered\" id=\"asw-powered\">\u{62a}\u{648}\u{633}\u{639}\u{647}\u{200c}\u{6cc} <a href=\"https://ai-support.ir\" target=\"_blank\" rel=\"noopener\">AI Support</a><span class=\"asw-resource-links\" id=\"asw-resources\"></span></div>")
    ∷ fixed (text "</div>")
    ∷ fixed (text "</footer>")
    ∷ fixed (
        text
          "<div class=\"asw-sheet\" id=\"asw-sheet\" hidden aria-hidden=\"true\" role=\"dialog\" aria-label=\"\u{62a}\u{645}\u{627}\u{633} \u{628}\u{627} \u{645}\u{627}\">")
    ∷ fixed (text "<div class=\"asw-sheet-card\">")
    ∷ fixed (text "<div class=\"asw-sheet-grip\" aria-hidden=\"true\"></div>")
    ∷ fixed (
        text
          "<button class=\"asw-sheet-close\" id=\"asw-sheet-close\" type=\"button\" aria-label=\"\u{628}\u{633}\u{62a}\u{646}\">")
    ∷ fixed Icons.icon_close
    ∷ fixed (text "</button>")
    ∷ fixed (text "<div class=\"asw-sheet-title\">")
    ∷ put o.lead_form_title
    ∷ fixed (text "</div>")
    ∷ fixed (text "<div class=\"asw-sheet-desc\">")
    ∷ put o.lead_form_description
    ∷ fixed (text "</div>")
    ∷ fixed (text "<div class=\"asw-chans\" id=\"asw-chans\"></div>")
    ∷ fixed (text "<div id=\"asw-sheet-form\"></div>")
    ∷ fixed (text "</div>")
    ∷ fixed (text "</div>")
    ∷ fixed (text "<div class=\"asw-toast\" id=\"asw-toast\" role=\"status\"></div>")
    ∷ fixed (text "</section>")
    ∷ fixed (
        text
          "<button class=\"asw-fab\" id=\"asw-fab\" type=\"button\" aria-label=\"\u{628}\u{627}\u{632} \u{6a9}\u{631}\u{62f}\u{646} \u{686}\u{62a}\" aria-expanded=\"false\">")
    ∷ fixed (text "<span class=\"asw-fab-label\" aria-hidden=\"true\">")
    ∷ put o.fab_label
    ∷ fixed (text "</span>")
    ∷ fixed (text "<span class=\"asw-fab-pulse\" aria-hidden=\"true\"></span>")
    ∷ fixed (text "<span class=\"asw-fab-shine\" aria-hidden=\"true\"></span>")
    ∷ fixed (text "<span class=\"asw-fab-icon-main\">")
    ∷ [])
