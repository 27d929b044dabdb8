-- ===== src/Markdown/Fences.antt =====
-- Code between fences comes out as it went in.
use website_ai_assistant.Prelude.{
  true, false, List, [], ◌∷◌, ◌++◌, append-nil, append_assoc, arith, ◌≡◌, refl, sym, ap, ◌∙◌, All,
}
use website_ai_assistant.Text.{Text, text, join}
use website_ai_assistant.Markdown.Lines.{is_fence, fence_lang}
use website_ai_assistant.Markdown.Blocks.{
  code_block, Loop, start, closers, on_fence, at_end, render_lines,
}
use website_ai_assistant.Markdown.Rounds.{render_lines_end, render_lines_fence, render_lines_inside}

abbrev pub IsCode : List Text → Type 0
IsCode = All (λ s. is_fence s ≡ false)

render_lines_code :
    (l : Loop) (code ls : List Text)
    → l.in_code ≡ true
    → IsCode code
    → render_lines 0 l (code ++ ls)
      ≡ render_lines 0 (record l { code_lines = l.code_lines ++ code }) ls
render_lines_code l [] ls h k =
    ap (λ c. render_lines 0 (record l { code_lines = c }) ls) (sym (append-nil l.code_lines))
render_lines_code l (s ∷ code) ls h (p, k) =
    render_lines_inside s l (code ++ ls) p h
    ∙ render_lines_code (record l { code_lines = l.code_lines ++ s ∷ [] }) code ls h k
    ∙ ap (λ c. render_lines 0 (record l { code_lines = c }) ls)
        (append_assoc l.code_lines (s ∷ []) code)

-- Between lines, outside code.
abbrev pub IsBetween : Loop → Type 0
IsBetween l = (l.in_code ≡ false) × (l.code_lines ≡ [])

on_fence_open :
    (f : Text) (l : Loop)
    → IsBetween l
    → on_fence f l ≡ (record start { in_code = true; code_lang = fence_lang f }, closers l)
unfolding on_fence
on_fence_open f l h = ground arith

abbrev inside : Text → List Text → Loop
inside f code = record start { in_code = true; code_lang = fence_lang f; code_lines = code }

render_lines_opened :
    (f : Text) (code ls : List Text) (l : Loop)
    → IsBetween l
    → is_fence f ≡ true
    → IsCode code
    → render_lines 0 l (f ∷ code ++ ls) ≡ closers l ++ render_lines 0 (inside f code) ls
render_lines_opened f code ls l b h k =
    render_lines_fence f l (code ++ ls) h
    ∙ ap (λ r. r.1 ++ render_lines 0 r.0 (code ++ ls)) (on_fence_open f l b)
    ∙ ap (λ r. closers l ++ r) (render_lines_code (inside f []) code ls refl k)

-- The lines between an opening and a closing fence become one code block with exactly these lines
-- and the language of the opening fence; open lists are closed in front of it, and the lines behind
-- are rendered afresh.
pub render_lines-fenced :
    (f : Text) (code : List Text) (g : Text) (ls : List Text) (l : Loop)
    → IsBetween l
    → is_fence f ≡ true
    → IsCode code
    → is_fence g ≡ true
    → render_lines 0 l (f ∷ code ++ g ∷ ls)
      ≡ closers l ++ code_block (join (text "\n") code) (fence_lang f) ∷ render_lines 0 start ls
render_lines-fenced f code g ls l b h k e =
    render_lines_opened f code (g ∷ ls) l b h k
    ∙ ap (λ r. closers l ++ r) (render_lines_fence g (inside f code) ls e ∙ unfold on_fence in refl)

-- A fence that is not closed yet, as while an answer is being typed, renders the same block.
pub render_lines_unclosed :
    (f : Text) (code : List Text) (l : Loop)
    → IsBetween l
    → is_fence f ≡ true
    → IsCode code
    → render_lines 0 l (f ∷ code)
      ≡ closers l ++ code_block (join (text "\n") code) (fence_lang f) ∷ []
render_lines_unclosed f code l b h k =
    ap (λ c. render_lines 0 l (f ∷ c)) (sym (append-nil code))
    ∙ render_lines_opened f code [] l b h k
    ∙ ap (λ r. closers l ++ r) (render_lines_end 0 (inside f code) ∙ unfold at_end in refl)
