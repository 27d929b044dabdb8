-- ===== src/Config/Preview.antt =====
-- static/widget/widget.js, `applyConfig`: a configuration that the customizer's page sends. The
-- functions `String` and `Number` of JavaScript are parameters.
use website_ai_assistant.Prelude.{Bool, true, false, List, [], ◌∷◌, if◌then◌else◌}
use website_ai_assistant.Text.{Text, text}
use website_ai_assistant.Layout.{Number, not_number}
use website_ai_assistant.Config.Values.{
  Value, undefined, str, num, bool, texts, Store, get, put, is_set, truthy,
}

unfoldable pub text_names : List Text
unfolding text
text_names =
    text "title"
    ∷ text "subtitle"
    ∷ text "greeting"
    ∷ text "primaryColor"
    ∷ text "secondaryColor"
    ∷ text "accentColor"
    ∷ text "headerBadge"
    ∷ text "botAvatarText"
    ∷ text "inputPlaceholder"
    ∷ text "themeMode"
    ∷ text "darkMode"
    ∷ text "fontFamily"
    ∷ text "fontSize"
    ∷ text "bubbleStyle"
    ∷ text "position"
    ∷ text "logoUrl"
    ∷ text "leadFormTitle"
    ∷ text "leadFormDescription"
    ∷ text "handoffMessage"
    ∷ text "teaserText"
    ∷ text "fabLabel"
    ∷ text "supportPhone"
    ∷ []

unfoldable pub number_names : List Text
unfolding text
number_names =
    text "panelWidth"
    ∷ text "panelHeight"
    ∷ text "borderRadius"
    ∷ text "positionVerticalOffset"
    ∷ text "positionHorizontalOffset"
    ∷ []

unfoldable pub flag_names : List Text
unfolding text
flag_names =
    text "mobileFullscreen"
    ∷ text "showPoweredBy"
    ∷ text "showTimestamp"
    ∷ text "showAvatar"
    ∷ text "showFeedback"
    ∷ text "enableSounds"
    ∷ text "enableAnimations"
    ∷ text "showCitations"
    ∷ text "enableLeadCapture"
    ∷ text "enableHandoff"
    ∷ text "showTeaser"
    ∷ text "enableVoiceInput"
    ∷ []

-- `cfg[k]` when it is truthy.
abbrev pub copy_truthy : Text → Store → Store → Store
copy_truthy k cfg o = if truthy (get k cfg) then put k (get k cfg) o else o

abbrev pub is_undefined : Value → Bool
is_undefined undefined = true
is_undefined _ = false

abbrev pub is_array : Value → Bool
is_array (texts _) = true
is_array _ = false

module _ (to_text : Value → Text) (to_number : Value → Number) where
  unfoldable pub take_texts : Store → List Text → Store → Store
  unfolding get put is_set
  take_texts cfg [] o = o
  take_texts cfg (k ∷ ks) o =
      take_texts cfg ks (if is_set (get k cfg) then put k (str (to_text (get k cfg))) o else o)

  -- `if (!isNaN(v)) self.options[k] = v`
  abbrev pub put_number : Text → Number → Store → Store
  put_number k not_number o = o
  put_number k n o = put k (num n) o

  unfoldable pub take_numbers : Store → List Text → Store → Store
  unfolding get put
  take_numbers cfg [] o = o
  take_numbers cfg (k ∷ ks) o = take_numbers cfg ks (put_number k (to_number (get k cfg)) o)

  unfoldable pub take_flags : Store → List Text → Store → Store
  unfolding get put is_set truthy
  take_flags cfg [] o = o
  take_flags cfg (k ∷ ks) o =
      take_flags cfg ks (if is_set (get k cfg) then put k (bool (truthy (get k cfg))) o else o)

  -- `applyConfig`, as far as the options go.
  unfoldable pub apply_config : Store → Store → Store
  unfolding take_texts take_numbers take_flags text_names number_names flag_names get put truthy
      text
  apply_config cfg o =
      let p =
        take_flags cfg flag_names (take_numbers cfg number_names (take_texts cfg text_names o)) in
      let q =
        if is_array (get (text "suggestions") cfg)
        then put (text "suggestions") (get (text "suggestions") cfg) p
        else p in
      let r = copy_truthy (text "defaultIconChoice") cfg (copy_truthy (text "iconType") cfg q) in
      if is_undefined (get (text "customIconUrl") cfg)
      then r
      else put (text "customIconUrl") (get (text "customIconUrl") cfg) r
