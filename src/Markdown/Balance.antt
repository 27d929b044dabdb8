-- ===== src/Markdown/Balance.antt =====
-- The lists of the rendered text are balanced.
use website_ai_assistant.Prelude.{
  ℕ, zero, suc, ◌+◌, Bool, true, false, ◌&&◌, List, [], ◌∷◌, ◌++◌, Option, none, some, length,
  arith, ◌≡◌, Bool-cases, Option-cases, inl, inr,
}
use website_ai_assistant.Text.{Text}
use website_ai_assistant.Markdown.Lines.{ul_item, ol_item, is_fence, split_lines}
use website_ai_assistant.Markdown.Rounds.{
  render_lines_end, render_lines_skip, render_lines_fence, render_lines_inside, render_lines_plain,
  render_lines_table,
}
use website_ai_assistant.Markdown.Blocks.{
  Piece, open_ul, close_ul, open_ol, close_ol, item, line, code_block, table, Loop, start, closers,
  lists_closed, on_fence, on_plain, table_rows, table_at, at_end, render_lines, pieces,
}

-- Where a reader of the pieces stands: outside lists, or in a list of one kind.
pub data Place : Type 0 where
  outside in_ul in_ol : Place

-- Lists do not nest, items stand in lists only, and all else outside; the end is outside.
abbrev pub Balanced : Place → List Piece → Type 0
Balanced outside [] = Unit
Balanced outside (open_ul ∷ ps) = Balanced in_ul ps
Balanced outside (open_ol ∷ ps) = Balanced in_ol ps
Balanced outside (line s ∷ ps) = Balanced outside ps
Balanced outside (code_block c l ∷ ps) = Balanced outside ps
Balanced outside (table h s r ∷ ps) = Balanced outside ps
Balanced in_ul (close_ul ∷ ps) = Balanced outside ps
Balanced in_ul (item s ∷ ps) = Balanced in_ul ps
Balanced in_ol (close_ol ∷ ps) = Balanced outside ps
Balanced in_ol (item s ∷ ps) = Balanced in_ol ps
Balanced _ _ = ⊥

abbrev place : Bool → Bool → Place
place true o = in_ul
place false true = in_ol
place false false = outside

abbrev at : Loop → Place
at l = place l.in_list l.in_ol

-- At most one list is open, and none in a code block.
record IsSound (l : Loop) : Type 0 where
  one_list : l.in_list && l.in_ol ≡ false
  no_list : l.in_code ≡ true → (l.in_list ≡ false) × (l.in_ol ≡ false)

closers-Balanced :
    (l : Loop) (ps : List Piece)
    → IsSound l
    → Balanced outside ps
    → Balanced (at l) (closers l ++ ps)
closers-Balanced l ps s h = ground arith

on_fence-Balanced :
    (s : Text) (l : Loop) (ps : List Piece)
    → IsSound l
    → Balanced (at (on_fence s l).0) ps
    → Balanced (at l) ((on_fence s l).1 ++ ps)
unfolding on_fence
on_fence-Balanced s l ps h b = ground arith

on_fence-IsSound : (s : Text) (l : Loop) → IsSound l → IsSound (on_fence s l).0
unfolding on_fence
on_fence-IsSound s l h = ground arith

on_plain-Balanced :
    (u o : Option Text) (s : Text) (l : Loop) (ps : List Piece)
    → IsSound l
    → Balanced (at (on_plain u o s l).0) ps
    → Balanced (at l) ((on_plain u o s l).1 ++ ps)
unfolding on_plain
on_plain-Balanced (some u) o s l ps h b = ground arith
on_plain-Balanced none (some o) s l ps h b = ground arith
on_plain-Balanced none none s l ps h b = ground arith

on_plain-IsSound :
    (u o : Option Text) (s : Text) (l : Loop) → l.in_code ≡ false → IsSound (on_plain u o s l).0
unfolding on_plain
on_plain-IsSound (some u) o s l h = ground arith
on_plain-IsSound none (some o) s l h = ground arith
on_plain-IsSound none none s l h = ground arith

at_end-Balanced : (l : Loop) → IsSound l → Balanced (at l) (at_end l)
unfolding at_end
at_end-Balanced l h = ground arith

render_lines-Balanced :
    (skip : ℕ) (l : Loop) (ls : List Text) → IsSound l → Balanced (at l) (render_lines skip l ls)
render_lines-Balanced skip l [] h = rw (render_lines_end skip l) (at_end-Balanced l h)
render_lines-Balanced (suc k) l (s ∷ ls) h =
    rw (render_lines_skip k l s ls) (render_lines-Balanced k l ls h)
render_lines-Balanced zero l (s ∷ ls) h = elim (Bool-cases (is_fence s)) [
  | inl fence ↦ rw (render_lines_fence s l ls fence) (
      on_fence-Balanced s l _ h
        (render_lines-Balanced 0 (on_fence s l).0 ls (on_fence-IsSound s l h)))
  | inr plain ↦ elim (Bool-cases l.in_code) [
    | inl inside ↦ rw (render_lines_inside s l ls plain inside) (
        render_lines-Balanced 0 (record l { code_lines = l.code_lines ++ s ∷ [] }) ls
          (ground arith))
    | inr out ↦ elim (Option-cases (table_at (table_rows (s ∷ ls)))) [
      | inl no_table ↦ rw (render_lines_plain s l ls plain out no_table) (
          on_plain-Balanced (ul_item s) (ol_item s) s l _ h (
            render_lines-Balanced 0 (on_plain (ul_item s) (ol_item s) s l).0 ls
              (on_plain-IsSound (ul_item s) (ol_item s) s l out)))
      | inr (t, found) ↦ rw (render_lines_table s l ls t plain out found) (
          closers-Balanced l _ h
            (render_lines-Balanced (length t.2 + 1) (lists_closed l) ls (ground arith)))
    ]
  ]
]

-- Whatever the text, the lists of its rendering are balanced: every opened list is closed, lists do
-- not nest, items stand in a list, and lines, code and tables stand outside.
pub pieces-Balanced : (src : Text) → Balanced outside (pieces src)
unfolding pieces
pieces-Balanced src = render_lines-Balanced 0 start (split_lines src) (ground arith)
