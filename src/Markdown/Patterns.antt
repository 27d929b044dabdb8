-- ===== src/Markdown/Patterns.antt =====
-- Each pattern of `renderInline` keeps markup, and so does the whole chain after escaping.
use website_ai_assistant.Prelude.{
  ℕ, ◌-◌, Bool, true, false, [], ◌∷◌, ◌++◌, Option, none, some, ◌==◌, drop, arith, ◌≡◌, refl, sym,
  ap, ◌∙◌, inl, inr, Bool-cases, Option-cases,
}
use mathlib.Core.Path.{subst}
use website_ai_assistant.Text.{Text, starts_with}
use website_ai_assistant.Escape.{escape_html}
use website_ai_assistant.Escape.Laws.{escape_html-IsInert}
use website_ai_assistant.Markdown.Inline.{
  replace_from, wrap, lone, lazy_until, before_char, nonempty, strong, em, inline_code,
}
use website_ai_assistant.Markdown.Links.{mark_up, take_links, put_links, render_inline}
use website_ai_assistant.Markdown.Safe.{
  strong_open, strong_close, em_open, em_close, code_open, code_close, tag_text, IsMark, IsMarkup,
  IsMarkup-of_inert, IsPattern, replace_from-IsMarkup,
}
use website_ai_assistant.Markdown.Cuts.{
  wrap-Wrapped, lazy_until-Closes, tail_of_mark, lone_head, double_head, single_keeps, double_keeps,
}

em_match :
    (mark : ℕ) (prev : Option ℕ) (c : ℕ) (s : Text) {r : ℕ × Text}
    → em mark prev (c ∷ s) ≡ some r
    → (c ≡ mark)
      × (wrap (tag_text em_open) (tag_text em_close) 2 (lazy_until (lone mark) none s) ≡ some r)
unfolding em tag_text
em_match mark prev c s e = ground arith

em-IsPattern : (mark : ℕ) → IsMark mark → IsPattern (em mark)
em-IsPattern mark m = record {
  needs_mark = λ prev c s e. subst IsMark (sym (em_match mark prev c s e).0) m;
  keeps = keeps;
}
  where
    keeps :
        (prev : Option ℕ) (c : ℕ) (s : Text) {n : ℕ} {out : Text}
        → em mark prev (c ∷ s) ≡ some (n, out)
        → IsMarkup (c ∷ s)
        → IsMarkup out × IsMarkup (drop (n - 1) s)
    keeps prev c s e h =
        let (here, matched) = em_match mark prev c s e in
        let w = wrap-Wrapped _ _ 2 _ matched in
        let l = lazy_until-Closes (lone mark) none s w.found in
        single_keeps mark em_open em_close s w.inner (drop 1 l.rest) m
          (l.splits ∙ ap (λ x. w.inner ++ x) (lone_head mark (some l.last) l.rest l.closed))
          w.size_is w.out_is (tail_of_mark (subst IsMark (sym here) m) h)

abbrev double : ℕ → Option ℕ → Text → Bool
double mark prev t = starts_with (mark ∷ mark ∷ []) t

strong_match :
    (mark : ℕ) (prev : Option ℕ) (c : ℕ) (s : Text) {r : ℕ × Text}
    → strong mark prev (c ∷ s) ≡ some r
    → (double mark prev (c ∷ s) ≡ true)
      × (wrap
            (tag_text strong_open)
            (tag_text strong_close)
            4
            (lazy_until (double mark) none (drop 1 s))
          ≡ some r)
unfolding strong tag_text
strong_match mark prev c s e = ground arith

strong-IsPattern : (mark : ℕ) → IsMark mark → IsPattern (strong mark)
strong-IsPattern mark m = record {
  needs_mark = λ prev c s e. subst IsMark (sym (first prev c s e)) m;
  keeps = keeps;
}
  where
    opens :
        (prev : Option ℕ) (c : ℕ) (s : Text) {r : ℕ × Text}
        → strong mark prev (c ∷ s) ≡ some r
        → c ∷ s ≡ mark ∷ mark ∷ drop 1 s
    opens prev c s e = double_head mark (c ∷ s) (strong_match mark prev c s e).0

    first :
        (prev : Option ℕ) (c : ℕ) (s : Text) {r : ℕ × Text}
        → strong mark prev (c ∷ s) ≡ some r
        → c ≡ mark
    first prev c s e = cc (opens prev c s e)

    second :
        (prev : Option ℕ) (c : ℕ) (s : Text) {r : ℕ × Text}
        → strong mark prev (c ∷ s) ≡ some r
        → s ≡ mark ∷ drop 1 s
    second prev c s e = cc (opens prev c s e)

    keeps :
        (prev : Option ℕ) (c : ℕ) (s : Text) {n : ℕ} {out : Text}
        → strong mark prev (c ∷ s) ≡ some (n, out)
        → IsMarkup (c ∷ s)
        → IsMarkup out × IsMarkup (drop (n - 1) s)
    keeps prev c s {n} e h =
        let w = wrap-Wrapped _ _ 4 _ (strong_match mark prev c s e).1 in
        let l = lazy_until-Closes (double mark) none (drop 1 s) w.found in
        let (inside, rest) =
          double_keeps mark strong_open strong_close (drop 1 s) w.inner (drop 2 l.rest) m
            (l.splits ∙ ap (λ x. w.inner ++ x) (double_head mark l.rest l.closed)) w.size_is
            w.out_is (tail_of_mark m (tail_of_mark m (subst IsMarkup (opens prev c s e) h))) in
        (inside, subst (λ x. IsMarkup (drop (n - 1) x)) (sym (second prev c s e)) rest)

before_char_split :
    (c : ℕ) (s : Text) {t : Text} → before_char c s ≡ some t → (v : Text) × (s ≡ t ++ c ∷ v)
unfolding before_char
before_char_split c [] e = absurd (ground arith)
before_char_split c (d ∷ s) {t} e = elim (Bool-cases (d == c)) [
  | inl found ↦ (s, here found e)
  | inr other ↦ elim (Option-cases (before_char c s)) [
    | inl stop ↦ absurd (nowhere other stop e)
    | inr (u, more) ↦
        let (v, ih) = before_char_split c s more in
        (v, ap (◌∷◌ d) ih ∙ ap (λ x. x ++ c ∷ v) (later other more e))
  ]
]
  where
    here : (d == c) ≡ true → before_char c (d ∷ s) ≡ some t → d ∷ s ≡ t ++ c ∷ s
    here found e = ground arith

    nowhere : (d == c) ≡ false → before_char c s ≡ none → before_char c (d ∷ s) ≡ some t → ⊥
    nowhere other stop e = ground arith

    later :
        {u : Text}
        → (d == c) ≡ false
        → before_char c s ≡ some u
        → before_char c (d ∷ s) ≡ some t
        → d ∷ u ≡ t
    later other more e = ground arith

nonempty-some : (o : Option Text) {t : Text} → nonempty o ≡ some t → o ≡ some t
nonempty-some none e = cc
nonempty-some (some u) e = ground arith

inline_code_match :
    (prev : Option ℕ) (c : ℕ) (s : Text) {r : ℕ × Text}
    → inline_code prev (c ∷ s) ≡ some r
    → (c ≡ 96)
      × (wrap (tag_text code_open) (tag_text code_close) 2 (nonempty (before_char 96 s)) ≡ some r)
unfolding inline_code tag_text
inline_code_match prev c s e = ground arith

back_quote : IsMark 96
back_quote = inr (inr refl)

inline_code-IsPattern : IsPattern inline_code
inline_code-IsPattern = record {
  needs_mark = λ prev c s e. subst IsMark (sym (inline_code_match prev c s e).0) back_quote;
  keeps = keeps;
}
  where
    keeps :
        (prev : Option ℕ) (c : ℕ) (s : Text) {n : ℕ} {out : Text}
        → inline_code prev (c ∷ s) ≡ some (n, out)
        → IsMarkup (c ∷ s)
        → IsMarkup out × IsMarkup (drop (n - 1) s)
    keeps prev c s e h =
        let (here, matched) = inline_code_match prev c s e in
        let w = wrap-Wrapped _ _ 2 _ matched in
        let (v, cut) = before_char_split 96 s (nonempty-some _ w.found) in
        single_keeps 96 code_open code_close s w.inner v back_quote cut w.size_is w.out_is
          (tail_of_mark (subst IsMark (sym here) back_quote) h)

mark_up-IsMarkup : (s : Text) → IsMarkup s → IsMarkup (mark_up s)
unfolding mark_up
mark_up-IsMarkup s h = code (
    it b'_' (inr (inl refl))
      (it b'*' (inl refl) (bold b'_' (inr (inl refl)) (bold b'*' (inl refl) h))))
  where
    bold :
        (mark : ℕ) {s : Text}
        → IsMark mark
        → IsMarkup s
        → IsMarkup (replace_from (strong mark) none 0 s)
    bold mark {s} m h = replace_from-IsMarkup (strong mark) (strong-IsPattern mark m) s h

    it :
        (mark : ℕ) {s : Text}
        → IsMark mark
        → IsMarkup s
        → IsMarkup (replace_from (em mark) none 0 s)
    it mark {s} m h = replace_from-IsMarkup (em mark) (em-IsPattern mark m) s h

    code : {s : Text} → IsMarkup s → IsMarkup (replace_from inline_code none 0 s)
    code {s} h = replace_from-IsMarkup inline_code inline_code-IsPattern s h

-- Whatever the text, its escaped and marked-up form holds no tag, quote or angle bracket but the six
-- tags for bold, italics and code.
pub mark_up-escape_html-IsMarkup : (s : Text) → IsMarkup (mark_up (escape_html s))
mark_up-escape_html-IsMarkup s =
    mark_up-IsMarkup (escape_html s) (IsMarkup-of_inert (escape_html s) (escape_html-IsInert s))

-- A line in which no safe link is found renders to such markup.
pub render_inline-IsMarkup :
    (is_safe_url : Text → Bool) (s : Text)
    → (take_links is_safe_url 0 [] s).1 ≡ []
    → IsMarkup (render_inline is_safe_url s)
unfolding render_inline
render_inline-IsMarkup is_safe_url s h =
    subst
      (λ ls. IsMarkup (put_links 0 ls (mark_up (escape_html (take_links is_safe_url 0 [] s).0))))
      (sym h) (mark_up-escape_html-IsMarkup (take_links is_safe_url 0 [] s).0)
