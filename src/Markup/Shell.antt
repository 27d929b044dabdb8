-- ===== src/Markup/Shell.antt =====
-- static/widget/widget.js: the HTML of the shell (`mount`, `getFabIconHtml`) as a template: the icon of
-- the round button and what follows; the ids that `mount` looks up.
use website_ai_assistant.Prelude.{Bool, ◌&&◌, not, is_empty, List, [], ◌∷◌, ◌++◌, if◌then◌else◌}
use website_ai_assistant.Text.{Text, text, eq_text}
use website_ai_assistant.Markup.{Symbol, put, fixed, template, render}
use website_ai_assistant.Markup.Icons
use website_ai_assistant.Markup.Front.{Shell, shell_before}

abbrev pub chosen_icon : Text → Text
chosen_icon n =
    if eq_text n (text "message-circle")
    then Icons.fab_message_circle
    else if eq_text n (text "robot")
    then Icons.fab_robot
    else if eq_text n (text "headset")
    then Icons.fab_headset
    else if eq_text n (text "sparkle")
    then Icons.fab_sparkle
    else if eq_text n (text "lightning")
    then Icons.fab_lightning
    else Icons.fab_chat_bubble

abbrev pub is_custom : (Text → Bool) → Shell → Bool
is_custom is_safe_url o =
    eq_text o.icon_type (text "custom")
    && not (is_empty o.custom_icon_url)
    && is_safe_url o.custom_icon_url

unfoldable pub custom_icon : Shell → List Symbol
unfolding text fixed put template
custom_icon o = template (
    fixed (text "<img class=\"asw-fab-custom-icon\" src=\"")
    ∷ put o.custom_icon_url
    ∷ fixed (text "\" alt=\"\u{686}\u{62a}\" referrerpolicy=\"no-referrer\">")
    ∷ [])

-- `getFabIconHtml`; `is_safe_url` is the browser's verdict on an address.
unfoldable pub fab_icon : (Text → Bool) → Shell → List Symbol
unfolding text fixed eq_text custom_icon
fab_icon is_safe_url o =
    if is_custom is_safe_url o then custom_icon o else fixed (chosen_icon o.default_icon_choice)

unfoldable pub shell_after : Shell → List Symbol
unfolding text fixed
shell_after o = template (
    fixed (text "</span>")
    ∷ fixed (text "<span class=\"asw-fab-icon-close\" aria-hidden=\"true\">")
    ∷ fixed Icons.icon_close
    ∷ fixed (text "</span>")
    ∷ fixed (
        text
          "<span class=\"asw-fab-badge\" id=\"asw-fab-badge\" hidden aria-hidden=\"true\"></span>")
    ∷ fixed (text "</button>")
    ∷ fixed (
        text
          "<div class=\"asw-teaser\" id=\"asw-teaser\" role=\"button\" tabindex=\"0\" aria-label=\"\u{6af}\u{641}\u{62a}\u{6af}\u{648} \u{628}\u{627} \u{67e}\u{634}\u{62a}\u{6cc}\u{628}\u{627}\u{646}\" hidden>")
    ∷ fixed (
        text
          "<button class=\"asw-teaser-close\" id=\"asw-teaser-close\" type=\"button\" aria-label=\"\u{628}\u{633}\u{62a}\u{646}\">")
    ∷ fixed Icons.icon_close
    ∷ fixed (text "</button>")
    ∷ fixed (text "<div class=\"asw-teaser-orb\" aria-hidden=\"true\">")
    ∷ fixed Icons.icon_sparkles
    ∷ fixed (text "</div>")
    ∷ fixed (
        text
          "<div class=\"asw-teaser-body\"><div class=\"asw-teaser-title\">\u{633}\u{648}\u{627}\u{644}\u{6cc} \u{62f}\u{627}\u{631}\u{6cc}\u{62f}\u{61f}</div><div class=\"asw-teaser-text\">")
    ∷ put o.teaser_text
    ∷ fixed (text "</div></div>")
    ∷ fixed (text "</div>")
    ∷ [])

-- `root.innerHTML` of `mount`.
unfoldable pub shell_template : (Text → Bool) → Shell → List Symbol
unfolding shell_before fab_icon shell_after
shell_template is_safe_url o = shell_before o ++ (fab_icon is_safe_url o ++ shell_after o)

abbrev pub mount_html : (Text → Bool) → Shell → Text
mount_html is_safe_url o = render (shell_template is_safe_url o)

-- The ids that `mount` looks up.
abbrev pub looked_up : List Text
looked_up =
    text "asw-glow"
    ∷ text "asw-fab"
    ∷ text "asw-fab-badge"
    ∷ text "asw-teaser"
    ∷ text "asw-teaser-close"
    ∷ text "asw-close"
    ∷ text "asw-theme-toggle"
    ∷ text "asw-contact"
    ∷ text "asw-title"
    ∷ text "asw-badge-text"
    ∷ text "asw-subtitle"
    ∷ text "asw-avatar"
    ∷ text "asw-netstatus"
    ∷ text "asw-messages"
    ∷ text "asw-typing"
    ∷ text "asw-typing-label"
    ∷ text "asw-suggestions"
    ∷ text "asw-input"
    ∷ text "asw-input-wrap"
    ∷ text "asw-wave"
    ∷ text "asw-mic"
    ∷ text "asw-send"
    ∷ text "asw-scrollbtn"
    ∷ text "asw-powered"
    ∷ text "asw-resources"
    ∷ text "asw-toast"
    ∷ text "asw-sheet"
    ∷ text "asw-sheet-close"
    ∷ text "asw-chans"
    ∷ text "asw-sheet-form"
    ∷ []
