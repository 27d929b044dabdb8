-- ===== src/Markdown/Tests.antt =====
-- Tests of the Markdown renderer.
use website_ai_assistant.Prelude.{◌≡◌, refl, Bool, true, false, [], ◌∷◌, ◌++◌}
use website_ai_assistant.Text.{Text, text, join}
use website_ai_assistant.Escape.{escape_char}
use website_ai_assistant.Markdown.Lines.{
  is_fence, fence_lang, table_row, table_sep, ul_item, ol_item,
}
use website_ai_assistant.Markdown.Links.{render_inline, take_links}
use website_ai_assistant.Markdown.Blocks.{
  open_ul, close_ul, item, line, code_block, table, closers, start, render_lines, pieces,
  render_markdown,
}
use website_ai_assistant.Markdown.Safe.{IsMarkup}
use website_ai_assistant.Markdown.Patterns.{render_inline-IsMarkup}
use website_ai_assistant.Markdown.Balance.{Balanced, outside, pieces-Balanced}
use website_ai_assistant.Markdown.Fences.{render_lines-fenced}

any_url : Text → Bool
any_url u = true

bold_and_link :
    render_inline any_url (text "a **b** _c_ `d` <e> [f](g) [h](i) *x*")
    ≡ text
        "a <strong>b</strong> <em>c</em> <code>d</code> &lt;e&gt; <a href=\"g\" target=\"_blank\" rel=\"noopener noreferrer\">f</a> <a href=\"i\" target=\"_blank\" rel=\"noopener noreferrer\">h</a> <em>x</em>"
unfolding render_inline text any_url escape_char
bold_and_link = refl

-- A link whose address names the token of the next one carries that link's quotes into its own
-- attribute: the words of the second address become attributes of the first tag.
injected :
    render_inline any_url (text "[a](ASWL1) [b](x onmouseover=f)")
    ≡ text
        "<a href=\"<a href=\"x onmouseover=f\" target=\"_blank\" rel=\"noopener noreferrer\">b</a>\" target=\"_blank\" rel=\"noopener noreferrer\">a</a> ASWL1"
unfolding render_inline text any_url escape_char
injected = refl

render_inline-IsMarkup_example : IsMarkup (render_inline any_url (text "a **b** <i>"))
unfolding text
render_inline-IsMarkup_example =
    render_inline-IsMarkup any_url (text "a **b** <i>") (unfold take_links in refl)

blocks :
    pieces (text "x\n- a\n- b\n|h|i|\n|-|-|\n|1|2|\n```js\n- c\n```\ny")
    ≡ line (text "x")
      ∷ open_ul
      ∷ item (text "a")
      ∷ item (text "b")
      ∷ close_ul
      ∷ table (text "|h|i|") (text "|-|-|") (text "|1|2|" ∷ [])
      ∷ code_block (text "- c") (text "js")
      ∷ line (text "y")
      ∷ []
unfolding pieces text is_fence fence_lang table_row table_sep ul_item ol_item join
blocks = refl

a_table :
    render_markdown any_url (λ n. []) (text "|h|i|\n|:-:|-|\n|1|")
    ≡ text
        "<div class=\"asw-table-wrap\"><table><thead><tr><th style=\"text-align:center\">h</th><th>i</th></tr></thead><tbody><tr><td style=\"text-align:center\">1</td></tr></tbody></table></div>"
unfolding render_markdown text escape_char is_fence table_row table_sep
a_table = refl

pieces-Balanced_example : Balanced outside (pieces (text "- a\n1. b\n```"))
pieces-Balanced_example = pieces-Balanced (text "- a\n1. b\n```")

fences :
    (is_fence (text "```js") ≡ true)
    × (is_fence (text "- c") ≡ false)
    × (is_fence (text "```") ≡ true)
unfolding is_fence text
fences = (refl, refl, refl)

render_lines-fenced_example :
    render_lines 0 start (text "```js" ∷ (text "- c" ∷ []) ++ text "```" ∷ text "y" ∷ [])
    ≡ closers start
      ++ code_block (join (text "\n") (text "- c" ∷ [])) (fence_lang (text "```js"))
        ∷ render_lines 0 start (text "y" ∷ [])
render_lines-fenced_example =
    render_lines-fenced (text "```js") (text "- c" ∷ []) (text "```") (text "y" ∷ []) start
      (refl, refl) fences.0 (fences.1, tt) fences.2
