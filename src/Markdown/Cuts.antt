-- ===== src/Markdown/Cuts.antt =====
-- Where a pattern of `renderInline` matches, its marks cut markup into pieces of markup.
use website_ai_assistant.Prelude.{
  ℕ, suc, ◌+◌, ◌-◌, Bool, true, false, [], ◌∷◌, ◌++◌, append-nil, Option, none, some, length, drop,
  arith, ◌≡◌, refl, sym, ap, ◌∙◌, inl, inr, Bool-cases, Option-cases,
}
use mathlib.Core.Path.{subst, ap₂}
use website_ai_assistant.Text.{Text, starts_with}
use website_ai_assistant.Markdown.Inline.{wrap, lone, lazy_until}
use website_ai_assistant.Markdown.Safe.{
  Tag, tag_text, IsMark, IsMarkup, IsMarkup-append, IsMarkup-tag, IsMarkup-split, done,
}

pub drop_past : (k : ℕ) (t x : Text) → drop (length t + k) (t ++ x) ≡ drop k x
drop_past k [] x = ap (λ n. drop n x) (omega arith)
drop_past k (c ∷ t) x = ap (λ n. drop n (c ∷ t ++ x)) (suc_first (length t) k) ∙ drop_past k t x
  where
    suc_first : (a b : ℕ) → suc a + b ≡ suc (a + b)
    suc_first a b = omega arith

pub record Wrapped (before behind : Text) (size : ℕ) (o : Option Text) (n : ℕ) (out : Text)
    : Type 0 where
  pub inner : Text
  pub found : o ≡ some inner
  pub size_is : n ≡ length inner + size
  pub out_is : out ≡ before ++ (inner ++ behind)

pub wrap-Wrapped :
    (before behind : Text) (size : ℕ) (o : Option Text) {n : ℕ} {out : Text}
    → wrap before behind size o ≡ some (n, out)
    → Wrapped before behind size o n out
wrap-Wrapped before behind size none e = cc
wrap-Wrapped before behind size (some t) e = record {
  inner = t;
  found = refl;
  size_is = ground arith;
  out_is = ground arith;
}

-- Where a lazy match ends, the closing test holds.
pub record Closes (closes : Option ℕ → Text → Bool) (s t : Text) : Type 0 where
  pub rest : Text
  pub last : ℕ
  pub splits : s ≡ t ++ rest
  pub closed : closes (some last) rest ≡ true

module _ (closes : Option ℕ → Text → Bool) where
  Closes-cons : (c : ℕ) {s t : Text} → Closes closes s t → Closes closes (c ∷ s) (c ∷ t)
  Closes-cons c h = record {
    rest = h.rest;
    last = h.last;
    splits = ap (◌∷◌ c) h.splits;
    closed = h.closed;
  }

  pub lazy_until-Closes :
      (prev : Option ℕ) (s : Text) {t : Text}
      → lazy_until closes prev s ≡ some t
      → Closes closes s t
  unfolding lazy_until
  lazy_until-Closes prev [] e = cc
  lazy_until-Closes none (c ∷ s) {t} e = elim (Option-cases (lazy_until closes (some c) s)) [
    | inl stop ↦ absurd (no_map stop e)
    | inr (u, more) ↦
        subst (Closes closes (c ∷ s)) (is_map more e)
          (Closes-cons c (lazy_until-Closes (some c) s more))
  ]
    where
      no_map : lazy_until closes (some c) s ≡ none → lazy_until closes none (c ∷ s) ≡ some t → ⊥
      no_map stop e = ground arith

      is_map :
          {u : Text}
          → lazy_until closes (some c) s ≡ some u
          → lazy_until closes none (c ∷ s) ≡ some t
          → c ∷ u ≡ t
      is_map more e = ground arith
  lazy_until-Closes (some p) (c ∷ s) {t} e = elim (Bool-cases (closes (some p) (c ∷ s))) [
    | inl end ↦ record {
      rest = c ∷ s;
      last = p;
      splits = ap (λ x. x ++ c ∷ s) (at_end end e);
      closed = end;
    }
    | inr open_ ↦ elim (Option-cases (lazy_until closes (some c) s)) [
      | inl stop ↦ absurd (no_map open_ stop e)
      | inr (u, more) ↦
          subst (Closes closes (c ∷ s)) (is_map open_ more e)
            (Closes-cons c (lazy_until-Closes (some c) s more))
    ]
  ]
    where
      at_end : closes (some p) (c ∷ s) ≡ true → lazy_until closes (some p) (c ∷ s) ≡ some t → [] ≡ t
      at_end end e = ground arith

      no_map :
          closes (some p) (c ∷ s) ≡ false
          → lazy_until closes (some c) s ≡ none
          → lazy_until closes (some p) (c ∷ s) ≡ some t
          → ⊥
      no_map open_ stop e = ground arith

      is_map :
          {u : Text}
          → closes (some p) (c ∷ s) ≡ false
          → lazy_until closes (some c) s ≡ some u
          → lazy_until closes (some p) (c ∷ s) ≡ some t
          → c ∷ u ≡ t
      is_map open_ more e = ground arith

-- The tail behind a mark.
pub tail_of_mark : {c : ℕ} {s : Text} → IsMark c → IsMarkup (c ∷ s) → IsMarkup s
tail_of_mark m h = (IsMarkup-split [] m h refl).behind

wrap-IsMarkup : (a b : Tag) {t : Text} → IsMarkup t → IsMarkup (tag_text a ++ (t ++ tag_text b))
wrap-IsMarkup a b h =
    IsMarkup-tag a
      (IsMarkup-append h (subst IsMarkup (append-nil (tag_text b)) (IsMarkup-tag b done)))

pub lone_head :
    (mark : ℕ) (prev : Option ℕ) (s : Text) → lone mark prev s ≡ true → s ≡ mark ∷ drop 1 s
lone_head mark prev [] h = ground arith
lone_head mark prev (c ∷ s) h = ground arith

pub double_head :
    (mark : ℕ) (s : Text) → starts_with (mark ∷ mark ∷ []) s ≡ true → s ≡ mark ∷ mark ∷ drop 2 s
unfolding starts_with
double_head mark [] h = ground arith
double_head mark (c ∷ []) h = ground arith
double_head mark (c ∷ d ∷ s) h = ground arith

-- Markup that is cut at a closing mark: the wrapped front and the rest behind the mark.
wrapped_keeps :
    (mark : ℕ) (a b : Tag) (t v : Text)
    → IsMark mark
    → IsMarkup (t ++ mark ∷ v)
    → IsMarkup (tag_text a ++ (t ++ tag_text b)) × IsMarkup v
wrapped_keeps mark a b t v m h =
    let cut = IsMarkup-split t m h refl in (wrap-IsMarkup a b cut.before, cut.behind)

-- One mark at each end: `s` stands behind the opening mark.
pub single_keeps :
    (mark : ℕ) (a b : Tag) (s t v : Text) {n : ℕ} {out : Text}
    → IsMark mark
    → s ≡ t ++ mark ∷ v
    → n ≡ length t + 2
    → out ≡ tag_text a ++ (t ++ tag_text b)
    → IsMarkup s
    → IsMarkup out × IsMarkup (drop (n - 1) s)
single_keeps mark a b s t v m e size o h =
    let (inside, rest) = wrapped_keeps mark a b t v m (subst IsMarkup e h) in
    (
      subst IsMarkup (sym o) inside,
      subst IsMarkup (sym (ap₂ drop (one_less _ size) e ∙ drop_past 1 t (mark ∷ v))) rest,
    )
  where
    one_less : {n : ℕ} (l : ℕ) → n ≡ l + 2 → n - 1 ≡ l + 1
    one_less l e = omega arith

pub double_keeps :
    (mark : ℕ) (a b : Tag) (s t v : Text) {n : ℕ} {out : Text}
    → IsMark mark
    → s ≡ t ++ mark ∷ mark ∷ v
    → n ≡ length t + 4
    → out ≡ tag_text a ++ (t ++ tag_text b)
    → IsMarkup s
    → IsMarkup out × IsMarkup (drop (n - 1) (mark ∷ s))
double_keeps mark a b s t v m e size o h =
    let (inside, rest) = wrapped_keeps mark a b t (mark ∷ v) m (subst IsMarkup e h) in
    (
      subst IsMarkup (sym o) inside,
      subst IsMarkup
          (sym (ap₂ drop (one_less _ size) (ap (◌∷◌ mark) e) ∙ drop_past 2 t (mark ∷ mark ∷ v)))
          (tail_of_mark m rest),
    )
  where
    one_less : {n : ℕ} (l : ℕ) → n ≡ l + 4 → n - 1 ≡ suc (l + 2)
    one_less l e = omega arith
