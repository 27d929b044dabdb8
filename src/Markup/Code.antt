-- ===== src/Markup/Code.antt =====
-- static/widget/widget.js, `renderCodeBlock` as a browser reads it, and the click on its copy button: the
-- handler looks the block up by the id in `data-code-id` and takes its `textContent`.
use website_ai_assistant.Prelude.{
  leb, ◌||◌, take_last, ℕ, Bool, true, ◌&&◌, List, [], ◌∷◌, ◌++◌, append-nil, Option, none, some,
  if◌then◌else◌, is_empty, All, ◌≡◌, refl, ap, sym, ◌∙◌, arith,
}
use mathlib.Core.Path.{ap₂}
use website_ai_assistant.Text.{Text, text, eq_text}
use website_ai_assistant.Text.Laws.{eq_text_refl}
use website_ai_assistant.Escape.{escape_char, escape_html}
use website_ai_assistant.Markdown.Table.{render_code_block, icon_copy, copy_label}
use website_ai_assistant.Markup.{
  Symbol, Piece, piece, content, tag, value, put, fixed, template, next, glue, cuts, attributes,
  pieces, render,
}
use website_ai_assistant.Markup.Reading.{fits, plug, meant, pieces-render}

unfoldable pub lang_label : Text → Text
unfolding text
lang_label lang = if is_empty lang then text "code" else lang

-- The HTML as a template; the ids hold nothing that is escaped.
unfoldable pub code_template : Text → Text → Text → List Symbol
unfolding text fixed put template lang_label
code_template id code lang = template (
    fixed (text "<div class=\"asw-code-wrap\">")
    ∷ fixed (
        text
          "<div class=\"asw-code-header\"><span class=\"asw-code-dots\"><span></span><span></span><span></span></span>")
    ∷ fixed (text "<span class=\"asw-code-lang\">")
    ∷ put (lang_label lang)
    ∷ fixed (text "</span>")
    ∷ fixed (text "<button class=\"asw-code-copy\" data-code-id=\"")
    ∷ put (text "asw-code-" ++ id)
    ∷ fixed (text "\" type=\"button\">")
    ∷ fixed icon_copy
    ∷ fixed (text "<span>")
    ∷ fixed copy_label
    ∷ fixed (text "</span></button></div>")
    ∷ fixed (text "<pre class=\"asw-code-block\"><code id=\"")
    ∷ put (text "asw-code-" ++ id)
    ∷ fixed (text "\">")
    ∷ put code
    ∷ fixed (text "</code></pre></div>")
    ∷ [])

-- The text of the first element with an id, as far as its first child; the second argument is the
-- text of the tag in front.
unfoldable pub text_by_id : Text → Text → List Piece → Option Text
unfolding eq_text
text_by_id id before [] = none
text_by_id id before (piece content s ∷ ps) = text_by_id id [] ps
text_by_id id before (piece tag s ∷ ps) = text_by_id id s ps
text_by_id id before (piece value s ∷ piece tag t ∷ piece content u ∷ ps) =
    let rest = text_by_id id [] (piece tag t ∷ piece content u ∷ ps) in
    if eq_text (take_last 4 before) (text " id=") && eq_text s id then some u else rest
text_by_id id before (piece value s ∷ ps) = text_by_id id [] ps

-- A digit or a small letter, as `toString(36)` writes them.
abbrev pub is_base36 : ℕ → Bool
is_base36 c = leb b'0' c && leb c b'9' || leb b'a' c && leb c b'z'

abbrev pub IsBase36 : Text → Type 0
IsBase36 = All (λ c. is_base36 c ≡ true)

escape_char-base36 : (c : ℕ) → is_base36 c ≡ true → escape_char c ≡ c ∷ []
unfolding escape_char
escape_char-base36 c h = ground arith

escape_html-IsBase36 : (id : Text) → IsBase36 id → escape_html id ≡ id
unfolding escape_html
escape_html-IsBase36 [] h = refl
escape_html-IsBase36 (c ∷ id) (p, h) = rw (escape_char-base36 c p, escape_html-IsBase36 id h)

-- The template renders to the code's text.
render-code_template :
    (id code lang : Text)
    → render (code_template id code lang) ≡ render_code_block (escape_html id) code lang
unfolding code_template render_code_block render escape_char
render-code_template id code lang = refl

code_template-fits : (id code lang : Text) → fits content (code_template id code lang) ≡ true
unfolding code_template fits text fixed put template next
code_template-fits id code lang = refl

block_pieces :
    (id code lang : Text)
    → IsBase36 id
    → pieces (render_code_block id code lang) ≡ meant (code_template id code lang)
block_pieces id code lang h =
    ap (λ x. pieces (render_code_block x code lang)) (sym (escape_html-IsBase36 id h))
    ∙ ap pieces (sym (render-code_template id code lang))
    ∙ pieces-render (code_template id code lang) (code_template-fits id code lang)

abbrev pub code_id : Text → Text
code_id id = text "asw-code-" ++ id

-- Only one element has an id.
meant-found :
    (t id code lang : Text)
    → text_by_id t [] (meant (code_template id code lang))
      ≡ (if eq_text (code_id id ++ []) t then some (code ++ []) else none)
unfolding meant plug code_template text fixed put template next cuts glue text_by_id eq_text
meant-found t id code lang = refl

meant-text_by_id :
    (id code lang : Text)
    → text_by_id (code_id id) [] (meant (code_template id code lang)) ≡ some code
meant-text_by_id id code lang =
    meant-found (code_id id) id code lang
    ∙ ap₂ (λ x y. if eq_text x (code_id id) then some y else none) (append-nil (code_id id))
        (append-nil code)
    ∙ ap (λ b. if b then some code else none) (eq_text_refl (code_id id))

abbrev pub data_code_id : Text
data_code_id = text " data-code-id="

meant-data_code_id :
    (id code lang : Text)
    → attributes data_code_id [] (meant (code_template id code lang)) ≡ code_id id ∷ []
unfolding meant plug code_template text fixed put template next cuts glue attributes eq_text
meant-data_code_id id code lang = rw (append-nil id)

-- Whatever the code and its language: as a browser reads a code block whose id `toString(36)` made,
-- it has one copy button, the button names the block's element, and that element holds the code,
-- character by character, so that the button copies just the code.
pub render_code_block-text_by_id :
    (id code lang : Text)
    → IsBase36 id
    → (attributes data_code_id [] (pieces (render_code_block id code lang)) ≡ code_id id ∷ [])
      × (text_by_id (code_id id) [] (pieces (render_code_block id code lang)) ≡ some code)
render_code_block-text_by_id id code lang h = (
  ap (attributes data_code_id []) (block_pieces id code lang h) ∙ meant-data_code_id id code lang,
  ap (text_by_id (code_id id) []) (block_pieces id code lang h) ∙ meant-text_by_id id code lang,
)
