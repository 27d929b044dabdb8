-- ===== src/Markup/Ids.antt =====
-- The ids of the shell: what `mount` looks up is there just once, and no option adds or hides one.
use website_ai_assistant.Prelude.{
  ℕ, ◌+◌, ◌&&◌, Bool, true, ◌≡◌, refl, ap, ◌∙◌, ◌==◌, List, [], ◌∷◌, ◌++◌, append-nil,
  if◌then◌else◌,
}
use website_ai_assistant.Text.{Text, text, eq_text}
use website_ai_assistant.Markup.{content, attributes, pieces}
use website_ai_assistant.Markup.Reading.{fits, meant, pieces-render}
use website_ai_assistant.Markup.Front.{Shell}
use website_ai_assistant.Markup.Shell.{shell_after, fab_icon, shell_template, mount_html, looked_up}
use website_ai_assistant.Markup.Bare.{
  values_in, id_name, placeholder_name, ids_before, ids_after, fab_icon-IsBare, before-fits,
  before-ids, before-placeholders, after-fits, after-values,
}

module _ (is_safe_url : Text → Bool) (o : Shell) where
  shell-fits : fits content (shell_template is_safe_url o) ≡ true
  unfolding shell_template
  shell-fits =
      before-fits is_safe_url o (fab_icon is_safe_url o ++ shell_after o)
      ∙ (fab_icon-IsBare is_safe_url o (shell_after o)).0
      ∙ after-fits is_safe_url o

  shell-ids : values_in id_name (shell_template is_safe_url o) ≡ ids_before ++ ids_after
  unfolding shell_template
  shell-ids =
      before-ids is_safe_url o (fab_icon is_safe_url o ++ shell_after o)
      ∙ ap (◌++◌ ids_before)
          ((fab_icon-IsBare is_safe_url o (shell_after o)).1 ∙ (after-values is_safe_url o).0)

  shell-placeholders :
      values_in placeholder_name (shell_template is_safe_url o) ≡ o.input_placeholder ∷ []
  unfolding shell_template
  shell-placeholders =
      before-placeholders is_safe_url o (fab_icon is_safe_url o ++ shell_after o)
      ∙ ap (λ x. x ∷ values_in placeholder_name (fab_icon is_safe_url o ++ shell_after o))
          (append-nil o.input_placeholder)
      ∙ ap (◌∷◌ o.input_placeholder)
          ((fab_icon-IsBare is_safe_url o (shell_after o)).2 ∙ (after-values is_safe_url o).1)

  mount-values :
      (name : Text)
      → attributes name [] (pieces (mount_html is_safe_url o))
        ≡ values_in name (shell_template is_safe_url o)
  unfolding meant attributes
  mount-values name =
      ap (attributes name []) (pieces-render (shell_template is_safe_url o) shell-fits)

unfoldable pub occurrences : Text → List Text → ℕ
occurrences x [] = 0
occurrences x (y ∷ ys) = (if eq_text x y then 1 else 0) + occurrences x ys

-- Each text of the first list occurs once in the second.
abbrev pub each_once : List Text → List Text → Bool
each_once [] ys = true
each_once (x ∷ xs) ys = (occurrences x ys == 1) && each_once xs ys

once-looked_up : each_once looked_up (ids_before ++ ids_after) ≡ true
unfolding occurrences text eq_text
once-looked_up = refl

-- Whatever the options and the browser's verdict on addresses: in the shell as a browser reads it,
-- each id that `mount` looks up belongs to exactly one element, and the only placeholder is the
-- configured one, character by character.
pub mount-ids :
    (is_safe_url : Text → Bool) (o : Shell)
    → (each_once looked_up (attributes id_name [] (pieces (mount_html is_safe_url o))) ≡ true)
      × (attributes placeholder_name [] (pieces (mount_html is_safe_url o))
          ≡ o.input_placeholder ∷ [])
mount-ids is_safe_url o = (
  ap (each_once looked_up) (mount-values is_safe_url o id_name ∙ shell-ids is_safe_url o)
      ∙ once-looked_up,
  mount-values is_safe_url o placeholder_name ∙ shell-placeholders is_safe_url o,
)
