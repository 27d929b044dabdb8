-- ===== src/Markup/Reading.antt =====
-- A browser reads a template's text as the template was meant.
use website_ai_assistant.Prelude.{
  Bool-cases, inl, inr, ℕ, Bool, true, false, not, ◌&&◌, ◌==◌, List, [], ◌∷◌, ◌++◌, map,
  if◌then◌else◌, All, ◌≡◌, ◌≢◌, refl, ap, sym, ◌∙◌, arith,
}
use website_ai_assistant.Text.{Text}
use website_ai_assistant.Escape.{escape_html}
use website_ai_assistant.Escape.Laws.{
  decode-nil, decode-cons, decode-append, IsInert, escape_html-IsInert,
}
use website_ai_assistant.Markup.{
  Mode, content, tag, value, Piece, piece, next, cuts, Reading, glue, read, decode_in, decode_piece,
  decode_reading, pieces, Symbol, char, hole, render,
}

abbrev pub may_hold : Mode → Bool
may_hold content = true
may_hold tag = false
may_hold value = true

-- Texts are put in only where content or a value is read, and no constant begins a reference.
unfoldable pub fits : Mode → List Symbol → Bool
unfolding next
fits m [] = true
fits m (char c ∷ ss) = not (c == b'&') && fits (next m c) ss
fits m (hole x ∷ ss) = may_hold m && fits m ss

abbrev onto : Text → Reading → Reading
onto x (h, ps) = (x ++ h, ps)

-- The template as it is meant: a text that is put in is a part of the piece where it stands.
unfoldable pub plug : Mode → List Symbol → Reading
unfolding glue next
plug m [] = ([], [])
plug m (char c ∷ ss) = glue m c (plug (next m c) ss)
plug m (hole x ∷ ss) = onto x (plug m ss)

inert_stays :
    (m : Mode) (c : ℕ) → may_hold m ≡ true → IsInert c → (cuts m c ≡ false) × (next m c ≡ m)
unfolding cuts next
inert_stays content c e (p, q, r, _) = (ground arith, ground arith)
inert_stays tag c e p = absurd (ground arith)
inert_stays value c e (p, q, r, _) = (ground arith, ground arith)

glue_kept : (m : Mode) (c : ℕ) (r : Reading) → cuts m c ≡ false → glue m c r ≡ onto (c ∷ []) r
unfolding glue
glue_kept m c (h, ps) e = ap (λ b. if b then ([], piece (next m c) h ∷ ps) else (c ∷ h, ps)) e

read-inert :
    (m : Mode) (x s : Text)
    → may_hold m ≡ true
    → All IsInert x
    → read m (x ++ s) ≡ onto x (read m s)
unfolding read
read-inert m [] s e h = refl
read-inert m (c ∷ x) s e (p, h) =
    let (cut, stay) = inert_stays m c e p in
    glue_kept m c (read (next m c) (x ++ s)) cut
    ∙ ap (λ n. onto (c ∷ []) (read n (x ++ s))) stay
    ∙ ap (onto (c ∷ [])) (read-inert m x s e h)

decode_in-nil : (m : Mode) → decode_in m [] ≡ []
unfolding decode_in
decode_in-nil content = decode-nil
decode_in-nil tag = refl
decode_in-nil value = decode-nil

decode_in-cons :
    (m : Mode) (c : ℕ) (s : Text) → (c ≢ b'&') → decode_in m (c ∷ s) ≡ c ∷ decode_in m s
unfolding decode_in
decode_in-cons content c s h = decode-cons c s h
decode_in-cons tag c s h = refl
decode_in-cons value c s h = decode-cons c s h

stays : (m : Mode) (c : ℕ) → cuts m c ≡ false → next m c ≡ m
unfolding cuts next
stays content c e = ground arith
stays tag c e = ground arith
stays value c e = ground arith

glue_cut :
    (m : Mode) (c : ℕ) (h : Text) (ps : List Piece)
    → cuts m c ≡ true
    → glue m c (h, ps) ≡ ([], piece (next m c) h ∷ ps)
unfolding glue
glue_cut m c h ps e = ap (λ b. if b then ([], piece (next m c) h ∷ ps) else (c ∷ h, ps)) e

decode_reading-glue :
    (m : Mode) (c : ℕ) (r : Reading)
    → (c ≢ b'&')
    → decode_reading m (glue m c r) ≡ glue m c (decode_reading (next m c) r)
decode_reading-glue m c (h, ps) k = elim (Bool-cases (cuts m c)) [
  | inl e ↦
      ap (decode_reading m) (glue_cut m c h ps e)
      ∙ ap (λ t. (t, map decode_piece (piece (next m c) h ∷ ps))) (decode_in-nil m)
      ∙ sym (glue_cut m c (decode_in (next m c) h) (map decode_piece ps) e)
  | inr e ↦
      ap (decode_reading m) (glue_kept m c (h, ps) e)
      ∙ ap (λ t. (t, map decode_piece ps)) (decode_in-cons m c h k)
      ∙ ap (λ n. (c ∷ decode_in n h, map decode_piece ps)) (sym (stays m c e))
      ∙ sym (glue_kept m c (decode_in (next m c) h, map decode_piece ps) e)
]

decode_reading-onto :
    (m : Mode) (x : Text) (r : Reading)
    → may_hold m ≡ true
    → decode_reading m (onto (escape_html x) r) ≡ onto x (decode_reading m r)
unfolding decode_in
decode_reading-onto content x (h, ps) e = ap (λ y. (y, map decode_piece ps)) (decode-append x h)
decode_reading-onto tag x (h, ps) e = absurd (ground arith)
decode_reading-onto value x (h, ps) e = ap (λ y. (y, map decode_piece ps)) (decode-append x h)

read-render :
    (m : Mode) (ss : List Symbol)
    → fits m ss ≡ true
    → decode_reading m (read m (render ss)) ≡ plug m ss
unfolding fits plug read render
read-render m [] e = ap (λ t. (t, [])) (decode_in-nil m)
read-render m (char c ∷ ss) e =
    let k : c ≢ b'&' = ground arith in
    decode_reading-glue m c (read (next m c) (render ss)) k
    ∙ ap (glue m c) (read-render (next m c) ss (ground arith))
read-render m (hole x ∷ ss) e =
    let f : may_hold m ≡ true = ground arith in
    ap (decode_reading m) (read-inert m (escape_html x) (render ss) f (escape_html-IsInert x))
    ∙ decode_reading-onto m x (read m (render ss)) f
    ∙ ap (onto x) (read-render m ss (ground arith))

-- The pieces of a template.
unfoldable pub meant : List Symbol → List Piece
unfolding plug
meant ss = let (h, ps) = plug content ss in piece content h ∷ ps

-- A browser takes what is rendered from a template in which texts stand only where content or a
-- value is read for just the template's pieces, with the texts as they are.
pub pieces-render : (ss : List Symbol) → fits content ss ≡ true → pieces (render ss) ≡ meant ss
unfolding pieces meant
pieces-render ss e = ap (λ r. piece content r.0 ∷ r.1) (read-render content ss e)
