-- ===== src/Markdown/Rounds.antt =====
-- One round of the loop of `renderMarkdown`, by its branches.
use website_ai_assistant.Prelude.{
  ℕ, zero, suc, ◌+◌, true, false, List, [], ◌∷◌, ◌++◌, none, some, length, arith, ◌≡◌, refl,
}
use website_ai_assistant.Text.{Text}
use website_ai_assistant.Markdown.Lines.{ul_item, ol_item, is_fence}
use website_ai_assistant.Markdown.Blocks.{
  table, Loop, closers, lists_closed, on_fence, on_plain, table_rows, table_at, at_end,
  render_lines,
}

pub render_lines_end : (skip : ℕ) (l : Loop) → render_lines skip l [] ≡ at_end l
unfolding render_lines
render_lines_end zero l = refl
render_lines_end (suc k) l = refl

pub render_lines_skip :
    (k : ℕ) (l : Loop) (s : Text) (ls : List Text)
    → render_lines (suc k) l (s ∷ ls) ≡ render_lines k l ls
unfolding render_lines
render_lines_skip k l s ls = refl

module _ (s : Text) (l : Loop) (ls : List Text) where
  pub render_lines_fence :
      is_fence s ≡ true
      → render_lines 0 l (s ∷ ls) ≡ (on_fence s l).1 ++ render_lines 0 (on_fence s l).0 ls
  unfolding render_lines
  render_lines_fence h = rw (h, render_lines)

  pub render_lines_inside :
      is_fence s ≡ false
      → l.in_code ≡ true
      → render_lines 0 l (s ∷ ls)
        ≡ render_lines 0 (record l { code_lines = l.code_lines ++ s ∷ [] }) ls
  unfolding render_lines
  render_lines_inside h k = ground arith

  pub render_lines_plain :
      is_fence s ≡ false
      → l.in_code ≡ false
      → table_at (table_rows (s ∷ ls)) ≡ none
      → render_lines 0 l (s ∷ ls)
        ≡ (on_plain (ul_item s) (ol_item s) s l).1
          ++ render_lines 0 (on_plain (ul_item s) (ol_item s) s l).0 ls
  unfolding render_lines
  render_lines_plain h k t = ground arith

  pub render_lines_table :
      (t : Text × Text × List Text)
      → is_fence s ≡ false
      → l.in_code ≡ false
      → table_at (table_rows (s ∷ ls)) ≡ some t
      → render_lines 0 l (s ∷ ls)
        ≡ closers l ++ table t.0 t.1 t.2 ∷ render_lines (length t.2 + 1) (lists_closed l) ls
  unfolding render_lines
  render_lines_table t h k e = ground arith
