-- ===== src/Config/Defaults.antt =====
-- static/widget/widget.js: the options that hold where neither the site nor the server sets them
-- (`DEFAULTS`). Characters beyond ASCII are written by their code units.
use website_ai_assistant.Prelude.{true, false, [], ◌∷◌, ◌++◌}
use website_ai_assistant.Text.{text}
use website_ai_assistant.Layout.{whole}
use website_ai_assistant.Config.Values.{Store, str, num, bool, texts, object}

unfoldable pub defaults : Store
unfolding text
defaults =
    (text "apiEndpoint", str (text "/api/chat/"))
    ∷ (text "configEndpoint", str (text ""))
    ∷ (text "eventsEndpoint", str (text ""))
    ∷ (text "feedbackEndpoint", str (text ""))
    ∷ (text "widgetPublicKey", str (text ""))
    ∷ (
      text "title",
      str (
          text
            "\u{62f}\u{633}\u{62a}\u{6cc}\u{627}\u{631} \u{647}\u{648}\u{634} \u{645}\u{635}\u{646}\u{648}\u{639}\u{6cc}"),
    )
    ∷ (
      text "subtitle",
      str (
          text
            "\u{622}\u{646}\u{644}\u{627}\u{6cc}\u{646} • \u{67e}\u{627}\u{633}\u{62e} \u{641}\u{648}\u{631}\u{6cc}"),
    )
    ∷ (
      text "greeting",
      str (
          (text "\u{633}\u{644}\u{627}\u{645}! "
            ++ ((55357 ∷ [])
                ++ ((56395 ∷ [])
                    ++ (text
                        " \u{686}\u{637}\u{648}\u{631} \u{645}\u{6cc}\u{200c}\u{62a}\u{648}\u{627}\u{646}\u{645} \u{6a9}\u{645}\u{6a9}\u{62a}\u{627}\u{646} \u{6a9}\u{646}\u{645}\u{61f}"))))),
    )
    ∷ (text "timeoutMs", num (whole 45000))
    ∷ (text "primaryColor", str (text "#6366f1"))
    ∷ (text "secondaryColor", str (text "#8b5cf6"))
    ∷ (text "accentColor", str (text "#a78bfa"))
    ∷ (text "headerBadge", str (text "\u{622}\u{646}\u{644}\u{627}\u{6cc}\u{646}"))
    ∷ (text "botAvatarText", str (text "✦"))
    ∷ (
      text "inputPlaceholder",
      str (
          text
            "\u{67e}\u{6cc}\u{627}\u{645} \u{62e}\u{648}\u{62f} \u{631}\u{627} \u{628}\u{646}\u{648}\u{6cc}\u{633}\u{6cc}\u{62f}..."),
    )
    ∷ (text "themeMode", str (text "gradient"))
    ∷ (text "darkMode", str (text "auto"))
    ∷ (text "panelWidth", num (whole 400))
    ∷ (text "panelHeight", num (whole 640))
    ∷ (text "borderRadius", num (whole 24))
    ∷ (text "mobileFullscreen", bool true)
    ∷ (text "logoUrl", str (text ""))
    ∷ (
      text "fontFamily",
      str (text "'Vazirmatn', 'Inter', 'IRANSansX', ui-sans-serif, system-ui, sans-serif"),
    )
    ∷ (text "fontSize", str (text "normal"))
    ∷ (text "showPoweredBy", bool true)
    ∷ (text "showTimestamp", bool true)
    ∷ (text "showAvatar", bool true)
    ∷ (text "showFeedback", bool true)
    ∷ (text "enableSounds", bool false)
    ∷ (text "enableAnimations", bool true)
    ∷ (text "bubbleStyle", str (text "rounded"))
    ∷ (text "position", str (text "bottom-right"))
    ∷ (text "positionVerticalOffset", num (whole 24))
    ∷ (text "positionHorizontalOffset", num (whole 24))
    ∷ (text "iconType", str (text "default"))
    ∷ (text "defaultIconChoice", str (text "chat-bubble"))
    ∷ (text "customIconUrl", str (text ""))
    ∷ (text "suggestions", texts [])
    ∷ (text "faqUrl", str (text ""))
    ∷ (text "privacyUrl", str (text ""))
    ∷ (text "supportEmail", str (text ""))
    ∷ (text "sessionId", str (text ""))
    ∷ (text "enableStreaming", bool true)
    ∷ (text "showCitations", bool true)
    ∷ (text "enableLeadCapture", bool true)
    ∷ (
      text "leadFormTitle",
      str (
          text
            "\u{62a}\u{645}\u{627}\u{633} \u{628}\u{627} \u{6a9}\u{627}\u{631}\u{634}\u{646}\u{627}\u{633}\u{627}\u{646} \u{645}\u{627}"),
    )
    ∷ (
      text "leadFormDescription",
      str (
          text
            "\u{631}\u{627}\u{647} \u{62f}\u{644}\u{62e}\u{648}\u{627}\u{647}\u{200c}\u{62a}\u{627}\u{646} \u{631}\u{627} \u{627}\u{646}\u{62a}\u{62e}\u{627}\u{628} \u{6a9}\u{646}\u{6cc}\u{62f} \u{6cc}\u{627} \u{641}\u{631}\u{645} \u{631}\u{627} \u{67e}\u{631} \u{6a9}\u{646}\u{6cc}\u{62f}\u{61b} \u{62f}\u{631} \u{627}\u{633}\u{631}\u{639} \u{648}\u{642}\u{62a} \u{67e}\u{627}\u{633}\u{62e} \u{645}\u{6cc}\u{200c}\u{62f}\u{647}\u{6cc}\u{645}."),
    )
    ∷ (text "enableHandoff", bool true)
    ∷ (text "handoffTrigger", str (text "low_confidence"))
    ∷ (
      text "handoffMessage",
      str (
          text
            "\u{67e}\u{627}\u{633}\u{62e} \u{627}\u{6cc}\u{646} \u{633}\u{624}\u{627}\u{644} \u{62f}\u{631} \u{62f}\u{627}\u{646}\u{634} \u{62f}\u{633}\u{62a}\u{6cc}\u{627}\u{631} \u{646}\u{628}\u{648}\u{62f}\u{61b} \u{6cc}\u{6a9} \u{6a9}\u{627}\u{631}\u{634}\u{646}\u{627}\u{633} \u{627}\u{646}\u{633}\u{627}\u{646}\u{6cc} \u{628}\u{631}\u{631}\u{633}\u{6cc} \u{645}\u{6cc}\u{200c}\u{6a9}\u{646}\u{62f}."),
    )
    ∷ (text "handoffUrls", object [])
    ∷ (
      text "handoffLabel",
      str (
          text
            "\u{6af}\u{641}\u{62a}\u{6af}\u{648} \u{628}\u{627} \u{6a9}\u{627}\u{631}\u{634}\u{646}\u{627}\u{633}"),
    )
    ∷ (text "showTeaser", bool true)
    ∷ (
      text "teaserText",
      str (
          text
            "\u{645}\u{639}\u{645}\u{648}\u{644}\u{627}ً \u{62f}\u{631} \u{6a9}\u{645}\u{62a}\u{631} \u{627}\u{632} \u{6cc}\u{6a9} \u{62f}\u{642}\u{6cc}\u{642}\u{647} \u{67e}\u{627}\u{633}\u{62e} \u{645}\u{6cc}\u{200c}\u{62f}\u{647}\u{6cc}\u{645}."),
    )
    ∷ (text "enableVoiceInput", bool true)
    ∷ (
      text "fabLabel",
      str (
          text
            "\u{633}\u{648}\u{627}\u{644}\u{6cc} \u{62f}\u{627}\u{631}\u{6cc}\u{62f}\u{61f} \u{647}\u{645}\u{6cc}\u{646} \u{62d}\u{627}\u{644}\u{627} \u{628}\u{67e}\u{631}\u{633}\u{6cc}\u{62f}"),
    )
    ∷ (text "supportPhone", str (text ""))
    ∷ []
