-- ===== src/Markdown/Table.antt =====
-- static/widget/widget.js, `renderTable` and `renderCodeBlock`.
use website_ai_assistant.Prelude.{
  ℕ, Bool, false, ◌&&◌, List, [], ◌∷◌, ◌++◌, Option, none, some, if◌then◌else◌, ◌==◌, ltb, length,
  is_empty, map,
}
use website_ai_assistant.Text.{Text, text, trim, split_char}
use website_ai_assistant.Escape.{escape_html}
use website_ai_assistant.Markdown.Lines.{drop_last_bar}
use website_ai_assistant.Markdown.Inline.{head_is}
use website_ai_assistant.Markdown.Links.{render_inline}

abbrev drop_first_bar : Text → Text
drop_first_bar [] = []
drop_first_bar (c ∷ s) = if c == b'|' then s else c ∷ s

abbrev without_last_bar : Text → Option Text → Text
without_last_bar s none = s
without_last_bar s (some t) = t

-- The function `cells`.
unfoldable pub cells : Text → List Text
unfolding trim drop_last_bar split_char
cells row =
    let s = drop_first_bar (trim row) in
    map trim (split_char b'|' (without_last_bar s (drop_last_bar s)))

abbrev last_is : ℕ → Text → Bool
last_is c [] = false
last_is c (d ∷ []) = d == c
last_is c (d ∷ e ∷ s) = last_is c (e ∷ s)

abbrev center : Text
center = text " style=\"text-align:center\""

-- The callback of `aligns`.
unfoldable pub align : Text → Text
unfolding text
align c = if ltb 1 (length c) && (head_is b':' c && last_is b':' c) then center else []

-- `aligns[idx] || ""`
abbrev get_or_empty : List Text → Text × List Text
get_or_empty [] = ([], [])
get_or_empty (a ∷ as') = (a, as')

module _ (is_safe_url : Text → Bool) where
  -- A row's cells with the alignments; `name` is `th` or `td`.
  unfoldable pub render_cells : Text → List Text → List Text → Text
  unfolding render_inline text
  render_cells name aligns [] = []
  render_cells name aligns (c ∷ cs) =
      let (a, rest) = get_or_empty aligns in
      text "<"
      ++ (name
          ++ (a
              ++ (text ">"
                  ++ (render_inline is_safe_url c
                      ++ (text "</" ++ (name ++ (text ">" ++ render_cells name rest cs)))))))

  unfoldable pub render_rows : List Text → List Text → Text
  unfolding render_cells cells text
  render_rows aligns [] = []
  render_rows aligns (row ∷ rows) =
      text "<tr>"
      ++ (render_cells (text "td") aligns (cells row) ++ (text "</tr>" ++ render_rows aligns rows))

  -- `rows` holds at least the head and the separator.
  unfoldable pub render_table : Text → Text → List Text → Text
  unfolding render_cells render_rows cells align text
  render_table head sep rows =
      let aligns = map align (cells sep) in
      text "<div class=\"asw-table-wrap\"><table><thead><tr>"
      ++ (render_cells (text "th") aligns (cells head)
          ++ (text "</tr></thead><tbody>"
              ++ (render_rows aligns rows ++ text "</tbody></table></div>")))

abbrev pub icon_copy : Text
icon_copy =
    text
      "<svg viewBox=\"0 0 24 24\" fill=\"none\" stroke=\"currentColor\" stroke-width=\"2\" stroke-linecap=\"round\" stroke-linejoin=\"round\"><rect x=\"9\" y=\"9\" width=\"13\" height=\"13\" rx=\"2\"/><path d=\"M5 15H4a2 2 0 0 1-2-2V4a2 2 0 0 1 2-2h9a2 2 0 0 1 2 2v1\"/></svg>"

-- The Persian word on the copy button.
abbrev pub copy_label : Text
copy_label = 0x6a9 ∷ 0x67e ∷ 0x6cc ∷ []

-- `id` is the random part of the element's id.
unfoldable pub render_code_block : Text → Text → Text → Text
unfolding escape_html text
render_code_block id code lang =
    let lang_label = if is_empty lang then text "code" else lang in
    let block_id = text "asw-code-" ++ id in
    text "<div class=\"asw-code-wrap\">"
    ++ (text
          "<div class=\"asw-code-header\"><span class=\"asw-code-dots\"><span></span><span></span><span></span></span>"
        ++ (text "<span class=\"asw-code-lang\">"
            ++ (escape_html lang_label
                ++ (text "</span>"
                    ++ (text "<button class=\"asw-code-copy\" data-code-id=\""
                        ++ (block_id
                            ++ (text "\" type=\"button\">"
                                ++ (icon_copy
                                    ++ (text "<span>"
                                        ++ (copy_label
                                            ++ (text "</span></button></div>"
                                                ++ (text "<pre class=\"asw-code-block\"><code id=\""
                                                    ++ (block_id
                                                        ++ (text "\">"
                                                            ++ (escape_html code
                                                            ++ text
                                                            "</code></pre></div>")))))))))))))))
