-- ===== src/Layout/Theme.antt =====
-- The dark theme.
use mathlib.Core.Path.{subst, ap, ◌∙◌}
use website_ai_assistant.Prelude.{Bool, true, false, not, ◌≡◌, ◌⊎◌, inl, inr, refl, sym}
use website_ai_assistant.Text.{Text, text, eq_text}
use website_ai_assistant.Layout.{
  Options, Look, detect_dark_mode, apply_theme, next_mode, click_theme, place, apply_visuals,
}

abbrev IsFlipped : Text → Type 0
IsFlipped mode = (d : Bool) → detect_dark_mode d (next_mode d mode) ≡ not (detect_dark_mode d mode)

auto-IsFlipped : IsFlipped (text "auto")
unfolding detect_dark_mode next_mode text eq_text
auto-IsFlipped true = refl
auto-IsFlipped false = refl

dark-IsFlipped : IsFlipped (text "dark")
unfolding detect_dark_mode next_mode text eq_text
dark-IsFlipped d = refl

light-IsFlipped : IsFlipped (text "light")
unfolding detect_dark_mode next_mode text eq_text
light-IsFlipped d = refl

mode-IsFlipped :
    (mode : Text)
    → (mode ≡ text "auto") ⊎ ((mode ≡ text "dark") ⊎ (mode ≡ text "light"))
    → IsFlipped mode
mode-IsFlipped mode (inl e) = subst IsFlipped (sym e) auto-IsFlipped
mode-IsFlipped mode (inr (inl e)) = subst IsFlipped (sym e) dark-IsFlipped
mode-IsFlipped mode (inr (inr e)) = subst IsFlipped (sym e) light-IsFlipped

-- In each of the modes `auto`, `dark` and `light`, whatever the system prefers: a click on the theme
-- button makes the widget dark just when the mode did not stand for dark.
pub click_theme-dark :
    (auto_dark : Bool) (o : Options) (l : Look)
    → (o.dark_mode ≡ text "auto") ⊎ ((o.dark_mode ≡ text "dark") ⊎ (o.dark_mode ≡ text "light"))
    → (click_theme auto_dark o l).1.dark ≡ not (detect_dark_mode auto_dark o.dark_mode)
unfolding click_theme apply_theme
click_theme-dark d o l h = mode-IsFlipped o.dark_mode h d

dark_detected : (d : Bool) → detect_dark_mode d (text "dark") ≡ true
unfolding detect_dark_mode text eq_text
dark_detected d = refl

-- In the mode `dark`, whatever the system prefers: `applyTheme` makes the widget dark, but
-- `applyVisuals`, which calls it, leaves the widget not dark.
pub apply_visuals-light :
    (is_safe_url : Text → Bool) (auto_dark is_loading : Bool) (o : Options) (l : Look)
    → o.dark_mode ≡ text "dark"
    → ((apply_theme auto_dark o l).dark ≡ true)
      × ((apply_visuals is_safe_url auto_dark is_loading o l).dark ≡ false)
unfolding apply_theme apply_visuals place
apply_visuals-light is_safe_url d b o l e = (ap (detect_dark_mode d) e ∙ dark_detected d, refl)
