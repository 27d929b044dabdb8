-- ===== src/Markdown/Blocks.antt =====
-- static/widget/widget.js, `renderMarkdown`: the loop over the lines. What the source pushes on
-- `output` is a piece here, and `html` is the text of a piece.
use website_ai_assistant.Prelude.{
  ℕ, zero, suc, ◌+◌, Bool, true, false, not, List, [], ◌∷◌, ◌++◌, Option, none, some, if◌then◌else◌,
  length,
}
use website_ai_assistant.Text.{Text, text, join}
use website_ai_assistant.Markdown.Lines.{
  table_row, table_sep, ul_item, ol_item, is_fence, fence_lang, split_lines,
}
use website_ai_assistant.Markdown.Links.{render_inline}
use website_ai_assistant.Markdown.Table.{render_table, render_code_block}

pub data Piece : Type 0 where
  open_ul close_ul open_ol close_ol : Piece
  item : Text → Piece
  line : Text → Piece
  code_block : Text → Text → Piece
  table : Text → Text → List Text → Piece

-- `inList`, `inOl`, `codeBlock`, `codeLines`, `codeLang`
pub record Loop : Type 0 where
  pub in_list : Bool
  pub in_ol : Bool
  pub in_code : Bool
  pub code_lines : List Text
  pub code_lang : Text

abbrev pub start : Loop
start = record { in_list = false; in_ol = false; in_code = false; code_lines = []; code_lang = [] }

abbrev pub when : Bool → Piece → List Piece
when true p = p ∷ []
when false p = []

-- `closeLists`
abbrev pub closers : Loop → List Piece
closers l = when l.in_list close_ul ++ when l.in_ol close_ol

abbrev pub lists_closed : Loop → Loop
lists_closed l = record l { in_list = false; in_ol = false }

abbrev pub code_piece : Loop → Piece
code_piece l = code_block (join (text "\n") l.code_lines) l.code_lang

-- A line that starts with three back quotes.
unfoldable pub on_fence : Text → Loop → Loop × List Piece
on_fence s l =
    if l.in_code
    then (record l { in_code = false; code_lines = []; code_lang = [] }, code_piece l ∷ [])
    else (record (lists_closed l) { in_code = true; code_lang = fence_lang s }, closers l)

-- The rest of the loop's body, for a line outside code and tables.
unfoldable pub on_plain : Option Text → Option Text → Text → Loop → Loop × List Piece
on_plain (some u) _ s l = (
  record l { in_list = true; in_ol = false },
  when l.in_ol close_ol ++ (when (not l.in_list) open_ul ++ item u ∷ []),
)
on_plain none (some o) s l = (
  record l { in_list = false; in_ol = true },
  when l.in_list close_ul ++ (when (not l.in_ol) open_ol ++ item o ∷ []),
)
on_plain none none s l = (lists_closed l, closers l ++ line s ∷ [])

-- The run of table rows at the head of the lines.
unfoldable pub table_rows : List Text → List Text
table_rows [] = []
table_rows (s ∷ ls) = let rest = table_rows ls in if table_row s then s ∷ rest else []

-- A table with its head, its separator and its other rows.
unfoldable pub table_at : List Text → Option (Text × Text × List Text)
table_at (head ∷ sep ∷ rows) = if table_sep sep then some (head, sep, rows) else none
table_at _ = none

-- Behind the last line.
unfoldable pub at_end : Loop → List Piece
at_end l = when l.in_code (code_piece l) ++ closers l

-- The loop; `skip` counts the lines that a table has taken.
unfoldable pub render_lines : ℕ → Loop → List Text → List Piece
unfolding on_fence on_plain table_rows table_at at_end
render_lines skip l [] = at_end l
render_lines (suc k) l (s ∷ ls) = render_lines k l ls
render_lines zero l (s ∷ ls) = elim (is_fence s) [
  | true ↦ (on_fence s l).1 ++ render_lines 0 (on_fence s l).0 ls
  | false ↦ elim l.in_code [
    | true ↦ render_lines 0 (record l { code_lines = l.code_lines ++ s ∷ [] }) ls
    | false ↦ elim (table_at (table_rows (s ∷ ls))) [
      | some (head, sep, rows) ↦
          closers l ++ table head sep rows ∷ render_lines (length rows + 1) (lists_closed l) ls
      | none ↦
          (on_plain (ul_item s) (ol_item s) s l).1
          ++ render_lines 0 (on_plain (ul_item s) (ol_item s) s l).0 ls
    ]
  ]
]

unfoldable pub pieces : Text → List Piece
unfolding render_lines split_lines
pieces src = render_lines 0 start (split_lines src)

module _ (is_safe_url : Text → Bool) where
  unfoldable pub html : Text → Piece → Text
  unfolding render_inline render_table render_code_block text
  html id open_ul = text "<ul>"
  html id close_ul = text "</ul>"
  html id open_ol = text "<ol>"
  html id close_ol = text "</ol>"
  html id (item s) = text "<li>" ++ (render_inline is_safe_url s ++ text "</li>")
  html id (line s) = render_inline is_safe_url s
  html id (code_block code lang) = render_code_block id code lang
  html id (table head sep rows) = render_table is_safe_url head sep rows

  -- `Math.random` gives each piece an id, of which only the code blocks make use.
  unfoldable pub html_all : (ℕ → Text) → ℕ → List Piece → List Text
  unfolding html
  html_all ids n [] = []
  html_all ids n (p ∷ ps) = html (ids n) p ∷ html_all ids (suc n) ps

  unfoldable pub render_markdown : (ℕ → Text) → Text → Text
  unfolding html_all pieces join text
  render_markdown ids src = join (text "<br>") (html_all ids 0 (pieces src))
