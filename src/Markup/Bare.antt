-- ===== src/Markup/Bare.antt =====
-- The shell's template piece by piece: what it has of ids and placeholders.
use website_ai_assistant.Prelude.{Bool, true, ◌≡◌, refl, List, [], ◌∷◌, ◌++◌, if_both}
use website_ai_assistant.Text.{Text, text, eq_text}
use website_ai_assistant.Markup.{
  Symbol, fixed, put, template, content, next, glue, cuts, attributes,
}
use website_ai_assistant.Markup.Reading.{fits, plug}
use website_ai_assistant.Markup.Icons
use website_ai_assistant.Markup.Front.{Shell, shell_before}
use website_ai_assistant.Markup.Shell.{chosen_icon, is_custom, custom_icon, shell_after, fab_icon}

abbrev pub values_in : Text → List Symbol → List Text
values_in name ss = attributes name [] (plug content ss).1

abbrev pub id_name : Text
id_name = text " id="

abbrev pub placeholder_name : Text
placeholder_name = text " placeholder="

-- The ids in front of the round button's icon and behind it.
abbrev pub ids_before : List Text
ids_before =
    text "asw-glow"
    ∷ text "asw-avatar"
    ∷ text "asw-title"
    ∷ text "asw-badge"
    ∷ text "asw-badge-text"
    ∷ text "asw-subtitle"
    ∷ text "asw-clear-history"
    ∷ text "asw-contact"
    ∷ text "asw-theme-toggle"
    ∷ text "asw-close"
    ∷ text "asw-netstatus"
    ∷ text "asw-messages"
    ∷ text "asw-typing"
    ∷ text "asw-typing-label"
    ∷ text "asw-suggestions"
    ∷ text "asw-scrollbtn"
    ∷ text "asw-input-wrap"
    ∷ text "asw-input"
    ∷ text "asw-wave"
    ∷ text "asw-mic"
    ∷ text "asw-send"
    ∷ text "asw-powered"
    ∷ text "asw-resources"
    ∷ text "asw-sheet"
    ∷ text "asw-sheet-close"
    ∷ text "asw-chans"
    ∷ text "asw-sheet-form"
    ∷ text "asw-toast"
    ∷ text "asw-fab"
    ∷ []

abbrev pub ids_after : List Text
ids_after = text "asw-fab-badge" ∷ text "asw-teaser" ∷ text "asw-teaser-close" ∷ []

-- A piece of a template that has no id and no placeholder and ends where content is read.
abbrev pub IsBare : List Symbol → Type 0
IsBare ss =
    (rest : List Symbol)
    → (fits content (ss ++ rest) ≡ fits content rest)
      × (values_in id_name (ss ++ rest) ≡ values_in id_name rest)
      × (values_in placeholder_name (ss ++ rest) ≡ values_in placeholder_name rest)

chosen_icon-kept :
    (P : Text → Type 0) (n : Text)
    → P Icons.fab_chat_bubble
    → P Icons.fab_message_circle
    → P Icons.fab_robot
    → P Icons.fab_headset
    → P Icons.fab_sparkle
    → P Icons.fab_lightning
    → P (chosen_icon n)
chosen_icon-kept P n a b c d e f = if_both P (eq_text n (text "message-circle")) b (
    if_both P (eq_text n (text "robot")) c (
      if_both P (eq_text n (text "headset")) d (
        if_both P (eq_text n (text "sparkle")) e (if_both P (eq_text n (text "lightning")) f (a)))))

module _ (is_safe_url : Text → Bool) (o : Shell) where
  chat_bubble-IsBare : IsBare (fixed Icons.fab_chat_bubble)
  unfolding fits plug text fixed next attributes cuts glue eq_text
  chat_bubble-IsBare rest = (refl, refl, refl)

  message_circle-IsBare : IsBare (fixed Icons.fab_message_circle)
  unfolding fits plug text fixed next attributes cuts glue eq_text
  message_circle-IsBare rest = (refl, refl, refl)

  robot-IsBare : IsBare (fixed Icons.fab_robot)
  unfolding fits plug text fixed next attributes cuts glue eq_text
  robot-IsBare rest = (refl, refl, refl)

  headset-IsBare : IsBare (fixed Icons.fab_headset)
  unfolding fits plug text fixed next attributes cuts glue eq_text
  headset-IsBare rest = (refl, refl, refl)

  sparkle-IsBare : IsBare (fixed Icons.fab_sparkle)
  unfolding fits plug text fixed next attributes cuts glue eq_text
  sparkle-IsBare rest = (refl, refl, refl)

  lightning-IsBare : IsBare (fixed Icons.fab_lightning)
  unfolding fits plug text fixed next attributes cuts glue eq_text
  lightning-IsBare rest = (refl, refl, refl)

  chosen-IsBare : (n : Text) → IsBare (fixed (chosen_icon n))
  chosen-IsBare n =
      chosen_icon-kept (λ t. IsBare (fixed t)) n chat_bubble-IsBare message_circle-IsBare
        robot-IsBare headset-IsBare sparkle-IsBare lightning-IsBare

  custom-IsBare : IsBare (custom_icon o)
  unfolding custom_icon fits plug text fixed put template next attributes cuts glue eq_text
  custom-IsBare rest = (refl, refl, refl)

  pub fab_icon-IsBare : IsBare (fab_icon is_safe_url o)
  unfolding fab_icon
  fab_icon-IsBare =
      if_both IsBare (is_custom is_safe_url o) {x = custom_icon o} custom-IsBare
        (chosen-IsBare o.default_icon_choice)

  module _ (rest : List Symbol) where
    pub before-fits : fits content (shell_before o ++ rest) ≡ fits content rest
    unfolding shell_before fits text fixed put template next
    before-fits = refl

    pub before-ids :
        values_in id_name (shell_before o ++ rest) ≡ ids_before ++ values_in id_name rest
    unfolding shell_before plug text fixed put template next attributes cuts glue eq_text
    before-ids = refl

    pub before-placeholders :
        values_in placeholder_name (shell_before o ++ rest)
        ≡ (o.input_placeholder ++ []) ∷ values_in placeholder_name rest
    unfolding shell_before plug text fixed put template next attributes cuts glue eq_text
    before-placeholders = refl

  pub after-fits : fits content (shell_after o) ≡ true
  unfolding shell_after fits text fixed put template next
  after-fits = refl

  pub after-values :
      (values_in id_name (shell_after o) ≡ ids_after)
      × (values_in placeholder_name (shell_after o) ≡ [])
  unfolding shell_after plug text fixed put template next attributes cuts glue eq_text
  after-values = (refl, refl)
