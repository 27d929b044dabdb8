-- ===== src/Config/Remote.antt =====
-- static/widget/widget.js, `loadConfig`: the server's configuration under the site's options.
use website_ai_assistant.Prelude.{◌&&◌, not, List, [], ◌∷◌, if◌then◌else◌}
use website_ai_assistant.Text.{Text, text}
use website_ai_assistant.Config.Values.{Store, get, has, put, is_set}

-- `map`: an option's name, and the server's.
unfoldable pub remote_names : List (Text × Text)
unfolding text
remote_names =
    (text "title", text "title")
    ∷ (text "subtitle", text "subtitle")
    ∷ (text "greeting", text "greeting")
    ∷ (text "primaryColor", text "primary_color")
    ∷ (text "secondaryColor", text "secondary_color")
    ∷ (text "accentColor", text "accent_color")
    ∷ (text "headerBadge", text "header_badge")
    ∷ (text "botAvatarText", text "bot_avatar_text")
    ∷ (text "inputPlaceholder", text "input_placeholder")
    ∷ (text "themeMode", text "theme_mode")
    ∷ (text "darkMode", text "dark_mode")
    ∷ (text "panelWidth", text "panel_width")
    ∷ (text "panelHeight", text "panel_height")
    ∷ (text "borderRadius", text "border_radius")
    ∷ (text "mobileFullscreen", text "mobile_fullscreen")
    ∷ (text "logoUrl", text "logo_url")
    ∷ (text "fontFamily", text "font_family")
    ∷ (text "fontSize", text "font_size")
    ∷ (text "position", text "position")
    ∷ (text "showPoweredBy", text "show_powered_by")
    ∷ (text "showTimestamp", text "show_timestamp")
    ∷ (text "showAvatar", text "show_avatar")
    ∷ (text "showFeedback", text "show_feedback")
    ∷ (text "enableSounds", text "enable_sounds")
    ∷ (text "enableAnimations", text "enable_animations")
    ∷ (text "bubbleStyle", text "bubble_style")
    ∷ (text "positionVerticalOffset", text "positionVerticalOffset")
    ∷ (text "positionHorizontalOffset", text "positionHorizontalOffset")
    ∷ (text "iconType", text "iconType")
    ∷ (text "defaultIconChoice", text "defaultIconChoice")
    ∷ (text "customIconUrl", text "customIconUrl")
    ∷ (text "suggestions", text "suggestions")
    ∷ (text "faqUrl", text "faq_url")
    ∷ (text "privacyUrl", text "privacy_url")
    ∷ (text "supportEmail", text "support_email")
    ∷ (text "enableStreaming", text "enable_streaming")
    ∷ (text "showCitations", text "show_citations")
    ∷ (text "enableLeadCapture", text "enable_lead_capture")
    ∷ (text "leadFormTitle", text "lead_form_title")
    ∷ (text "leadFormDescription", text "lead_form_description")
    ∷ (text "enableHandoff", text "enable_handoff")
    ∷ (text "handoffTrigger", text "handoff_trigger")
    ∷ (text "handoffMessage", text "handoff_message")
    ∷ (text "handoffUrls", text "handoff_urls")
    ∷ (text "enableVoiceInput", text "enable_voice_input")
    ∷ (text "fabLabel", text "fab_label")
    ∷ (text "supportPhone", text "support_phone")
    ∷ []

-- The loop over `Object.keys(map)`.
unfoldable pub take_remote : Store → Store → List (Text × Text) → Store → Store
unfolding get has put is_set
take_remote explicit raw [] o = o
take_remote explicit raw ((k, a) ∷ names) o =
    take_remote explicit raw names
      (if is_set (get a raw) && not (has k explicit) then put k (get a raw) o else o)

-- How the request for the configuration ends: with no configuration, or with a JSON object.
pub data Fetched : Type 0 where
  failed : Fetched
  loaded : Store → Fetched

-- `loadConfig`, as far as the options go.
unfoldable pub load_config : Store → Fetched → Store → Store
unfolding take_remote remote_names
load_config explicit failed o = o
load_config explicit (loaded raw) o = take_remote explicit raw remote_names o
