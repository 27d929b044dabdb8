-- ===== src/Markup/Tests.antt =====
-- Tests of the templates, and their theorems at concrete inputs.
use website_ai_assistant.Prelude.{
  ℕ, Bool, true, false, some, All, ◌≢◌, arith, ◌≡◌, refl, [], ◌∷◌, take,
}
use website_ai_assistant.Text.{Text, text, starts_with, eq_text}
use website_ai_assistant.Escape.{escape_html, escape_char}
use website_ai_assistant.Markup.{
  content, pieces, fixed, put, template, render, attributes, read, glue, next, cuts, decode_in,
}
use website_ai_assistant.Markup.Reading.{fits}
use website_ai_assistant.Markup.Front.{Shell}
use website_ai_assistant.Markup.Shell.{mount_html, looked_up}
use website_ai_assistant.Markup.Bare.{id_name, placeholder_name}
use website_ai_assistant.Markup.Ids.{each_once, mount-ids}
use website_ai_assistant.Markup.Cards.{
  Site, filled, strip_template, hero_template, toast_template, cards, strip_card,
}
use website_ai_assistant.Markdown.Table.{render_code_block}
use website_ai_assistant.Markup.Code.{
  data_code_id, code_id, text_by_id, render_code_block-text_by_id,
}
use website_ai_assistant.Markup.Labels.{widget_form, handoff_email}
use website_ai_assistant.Markup.Apart.{ids_of, ids_of-apart}
use website_ai_assistant.Markup.Offered.{data_msg, suggestions-data_msg}

abbrev https_only : Text → Bool
https_only s = starts_with (text "https:") s

-- A title that tries to leave its attribute.
abbrev sly : Shell
sly = record {
  title = text "\"><b id=\"asw-fab\">";
  input_placeholder = text "Say \"hi\" & more";
  lead_form_title = text "</div>";
  lead_form_description = [];
  fab_label = text "<i>";
  teaser_text = [];
  icon_type = text "custom";
  custom_icon_url = text "https://x/\"y";
  default_icon_choice = [];
}

mount-ids_example :
    (each_once looked_up (attributes id_name [] (pieces (mount_html https_only sly))) ≡ true)
    × (attributes placeholder_name [] (pieces (mount_html https_only sly))
        ≡ text "Say \"hi\" & more" ∷ [])
mount-ids_example = mount-ids https_only sly

abbrev shop : Site
shop = record { suggestions = text "Prices?" ∷ [] ∷ text "\"A\" < B" ∷ []; logo_url = [] }

suggestions-data_msg_example :
    (attributes data_msg [] (pieces (render (strip_template shop)))
      ≡ take 6 (filled shop.suggestions))
    × (attributes data_msg [] (pieces (render (hero_template https_only shop (text "Hello"))))
        ≡ take 4 (take 6 (filled shop.suggestions)))
suggestions-data_msg_example = suggestions-data_msg https_only shop (text "Hello")

-- The reading computes.
two_buttons :
    attributes data_msg [] (pieces (render (strip_template shop)))
    ≡ text "Prices?" ∷ text "\"A\" < B" ∷ []
unfolding filled strip_template cards strip_card text fixed put template eq_text attributes pieces
    read glue next cuts decode_in render escape_html escape_char
two_buttons = refl

toast-fits : fits content (toast_template (text "<b>")) ≡ true
unfolding toast_template fits text fixed put template next
toast-fits = refl

-- A block of code with characters that HTML reserves.
render_code_block-text_by_id_example :
    (attributes data_code_id []
        (pieces (render_code_block (text "k3x9") (text "if (a < b && c) \"x\"") (text "js")))
      ≡ code_id (text "k3x9") ∷ [])
    × (text_by_id
          (code_id (text "k3x9"))
          []
          (pieces (render_code_block (text "k3x9") (text "if (a < b && c) \"x\"") (text "js")))
        ≡ some (text "if (a < b && c) \"x\""))
unfolding text
render_code_block-text_by_id_example =
    render_code_block-text_by_id (text "k3x9") (text "if (a < b && c) \"x\"") (text "js")
      (refl, (refl, (refl, (refl, tt))))

one_is_not_eleven : ◌≢◌ {A = ℕ} 1 11
one_is_not_eleven = λ e. omega arith

ids_of-apart_example :
    All (λ i. All (λ j. i ≢ j) (ids_of false 11 widget_form sly)) (ids_of true 1 handoff_email sly)
ids_of-apart_example =
    ids_of-apart true false 1 11 handoff_email widget_form sly sly one_is_not_eleven
