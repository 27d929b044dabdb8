-- ===== src/History/Newest.antt =====
-- No row but the newest of the conversation bears the mark of the newest.
use website_ai_assistant.Prelude.{
  if_both, ℕ, zero, suc, Bool, true, false, not, List, [], ◌∷◌, ◌++◌, ◌≡◌, refl, sym, arith,
}
use mathlib.Core.Path.{subst}
use website_ai_assistant.Text.{Text}
use website_ai_assistant.History.Steps.{Reach, IsKept, Reach-kept}
use website_ai_assistant.History.{
  Sender, Child, hero, divider, hint, row, Row, Messages, Opts, Page, unmark, without_hero,
  without_row, click_retry, save_local_history, clear_local_history, add_hero, collapse_hero,
  append_row, add_message,
}
use website_ai_assistant.History.Local.{divide, new_day, divided}

abbrev has_row : List Child → Bool
has_row [] = false
has_row (row r ∷ cs) = true
has_row (hero _ ∷ cs) = has_row cs
has_row (divider _ ∷ cs) = has_row cs
has_row (hint ∷ cs) = has_row cs

-- A row that is marked has no row behind it; if it is strict, a row with no row behind it is marked.
abbrev pub IsMarked : (strict : Bool) → List Child → Type 0
IsMarked b [] = Unit
IsMarked b (row r ∷ cs) =
    ((r.is_last ≡ true → has_row cs ≡ false) × (b ≡ true → has_row cs ≡ false → r.is_last ≡ true))
    × IsMarked b cs
IsMarked b (hero _ ∷ cs) = IsMarked b cs
IsMarked b (divider _ ∷ cs) = IsMarked b cs
IsMarked b (hint ∷ cs) = IsMarked b cs

abbrev IsUnmarked : List Child → Type 0
IsUnmarked [] = Unit
IsUnmarked (row r ∷ cs) = (r.is_last ≡ false) × IsUnmarked cs
IsUnmarked (hero _ ∷ cs) = IsUnmarked cs
IsUnmarked (divider _ ∷ cs) = IsUnmarked cs
IsUnmarked (hint ∷ cs) = IsUnmarked cs

rowless : (cs : List Child) → has_row cs ≡ false → IsUnmarked cs
rowless [] e = tt
rowless (row r ∷ cs) e = absurd (ground arith)
rowless (hero _ ∷ cs) e = rowless cs e
rowless (divider _ ∷ cs) e = rowless cs e
rowless (hint ∷ cs) e = rowless cs e

unmark-IsUnmarked : (b : Bool) (cs : List Child) → IsMarked b cs → IsUnmarked (unmark cs)
unfolding unmark
unmark-IsUnmarked b [] h = tt
unmark-IsUnmarked b (row r ∷ cs) (e, h) = ground (arith, rowless cs, unmark-IsUnmarked b cs h)
unmark-IsUnmarked b (hero _ ∷ cs) h = unmark-IsUnmarked b cs h
unmark-IsUnmarked b (divider _ ∷ cs) h = unmark-IsUnmarked b cs h
unmark-IsUnmarked b (hint ∷ cs) h = unmark-IsUnmarked b cs h

has_row-append : (cs : List Child) (r : Row) → has_row (cs ++ row r ∷ []) ≡ true
has_row-append [] r = refl
has_row-append (row _ ∷ cs) r = refl
has_row-append (hero _ ∷ cs) r = has_row-append cs r
has_row-append (divider _ ∷ cs) r = has_row-append cs r
has_row-append (hint ∷ cs) r = has_row-append cs r

IsMarked-row :
    (b : Bool) (cs : List Child) (r : Row)
    → IsUnmarked cs
    → r.is_last ≡ true
    → IsMarked b (cs ++ row r ∷ [])
IsMarked-row b [] r h e = (((λ _. refl), (λ _ _. e)), tt)
IsMarked-row b (row q ∷ cs) r (f, h) e =
    (ground (arith, has_row-append cs r), IsMarked-row b cs r h e)
IsMarked-row b (hero _ ∷ cs) r h e = IsMarked-row b cs r h e
IsMarked-row b (divider _ ∷ cs) r h e = IsMarked-row b cs r h e
IsMarked-row b (hint ∷ cs) r h e = IsMarked-row b cs r h e

has_row-divider : (cs : List Child) (t : Text) → has_row (cs ++ divider t ∷ []) ≡ has_row cs
has_row-divider [] t = refl
has_row-divider (row _ ∷ cs) t = refl
has_row-divider (hero _ ∷ cs) t = has_row-divider cs t
has_row-divider (divider _ ∷ cs) t = has_row-divider cs t
has_row-divider (hint ∷ cs) t = has_row-divider cs t

IsMarked-divider :
    (b : Bool) (cs : List Child) (t : Text) → IsMarked b cs → IsMarked b (cs ++ divider t ∷ [])
IsMarked-divider b [] t h = tt
IsMarked-divider b (row q ∷ cs) t (f, h) =
    (ground (arith, has_row-divider cs t), IsMarked-divider b cs t h)
IsMarked-divider b (hero _ ∷ cs) t h = IsMarked-divider b cs t h
IsMarked-divider b (divider _ ∷ cs) t h = IsMarked-divider b cs t h
IsMarked-divider b (hint ∷ cs) t h = IsMarked-divider b cs t h

has_row-without_hero : (cs : List Child) → has_row (without_hero cs) ≡ has_row cs
unfolding without_hero
has_row-without_hero [] = refl
has_row-without_hero (row _ ∷ cs) = refl
has_row-without_hero (hero _ ∷ cs) = refl
has_row-without_hero (divider _ ∷ cs) = has_row-without_hero cs
has_row-without_hero (hint ∷ cs) = has_row-without_hero cs

without_hero-IsMarked : (b : Bool) (cs : List Child) → IsMarked b cs → IsMarked b (without_hero cs)
unfolding without_hero
without_hero-IsMarked b [] h = tt
without_hero-IsMarked b (row q ∷ cs) (f, h) =
    (ground (arith, has_row-without_hero cs), without_hero-IsMarked b cs h)
without_hero-IsMarked b (hero _ ∷ cs) h = h
without_hero-IsMarked b (divider _ ∷ cs) h = without_hero-IsMarked b cs h
without_hero-IsMarked b (hint ∷ cs) h = without_hero-IsMarked b cs h

has_row-hero : (cs : List Child) (t : Text) → has_row (cs ++ hero t ∷ []) ≡ has_row cs
has_row-hero [] t = refl
has_row-hero (row _ ∷ cs) t = refl
has_row-hero (hero _ ∷ cs) t = has_row-hero cs t
has_row-hero (divider _ ∷ cs) t = has_row-hero cs t
has_row-hero (hint ∷ cs) t = has_row-hero cs t

IsMarked-hero :
    (b : Bool) (cs : List Child) (t : Text) → IsMarked b cs → IsMarked b (cs ++ hero t ∷ [])
IsMarked-hero b [] t h = tt
IsMarked-hero b (row q ∷ cs) t (f, h) = (ground (arith, has_row-hero cs t), IsMarked-hero b cs t h)
IsMarked-hero b (hero _ ∷ cs) t h = IsMarked-hero b cs t h
IsMarked-hero b (divider _ ∷ cs) t h = IsMarked-hero b cs t h
IsMarked-hero b (hint ∷ cs) t h = IsMarked-hero b cs t h

has_row-without_row :
    (i : ℕ) (cs : List Child) → has_row cs ≡ false → has_row (without_row i cs) ≡ false
unfolding without_row
has_row-without_row i [] h = refl
has_row-without_row zero (row r ∷ cs) h = absurd (ground arith)
has_row-without_row zero (hero _ ∷ cs) h = h
has_row-without_row zero (divider _ ∷ cs) h = h
has_row-without_row zero (hint ∷ cs) h = h
has_row-without_row (suc i) (row _ ∷ cs) h = absurd (ground arith)
has_row-without_row (suc i) (hero _ ∷ cs) h = has_row-without_row i cs h
has_row-without_row (suc i) (divider _ ∷ cs) h = has_row-without_row i cs h
has_row-without_row (suc i) (hint ∷ cs) h = has_row-without_row i cs h

-- Taking a row away may leave the newest one without the mark.
without_row-IsMarked :
    (i : ℕ) (cs : List Child) → IsMarked false cs → IsMarked false (without_row i cs)
unfolding without_row
without_row-IsMarked i [] h = tt
without_row-IsMarked zero (row r ∷ cs) (f, h) = if_both (IsMarked false) r.has_retry h (f, h)
without_row-IsMarked zero (hero _ ∷ cs) h = h
without_row-IsMarked zero (divider _ ∷ cs) h = h
without_row-IsMarked zero (hint ∷ cs) h = h
without_row-IsMarked (suc i) (row r ∷ cs) ((f, g), h) = (
  ((λ e. has_row-without_row i cs (f e)), (λ e. absurd (ground arith))),
  without_row-IsMarked i cs h,
)
without_row-IsMarked (suc i) (hero _ ∷ cs) h = without_row-IsMarked i cs h
without_row-IsMarked (suc i) (divider _ ∷ cs) h = without_row-IsMarked i cs h
without_row-IsMarked (suc i) (hint ∷ cs) h = without_row-IsMarked i cs h

module _ (page : Page) (retried : Bool) where
  abbrev IsKeptMark : Messages → Type 0
  IsKeptMark m = IsMarked (not retried) m.children

  append_row-IsMarked :
      (s : Text) (from : Sender) (opts : Opts) (m : Messages)
      → IsKeptMark m
      → IsKeptMark (append_row page s from opts m)
  unfolding append_row
  append_row-IsMarked s from opts m h =
      IsMarked-row (not retried) (unmark m.children) _
        (unmark-IsUnmarked (not retried) m.children h) refl

  click_retry-IsMarked :
      (i : ℕ) (m : Messages) → retried ≡ true → IsKeptMark m → IsKeptMark (click_retry i m)
  unfolding click_retry
  click_retry-IsMarked i m e h =
      subst (λ b. IsMarked (not b) (without_row i m.children)) (sym e)
        (without_row-IsMarked i m.children (subst (λ b. IsMarked (not b) m.children) e h))

  IsMarked-IsKept : IsKept page retried IsKeptMark
  unfolding add_message save_local_history divide add_hero collapse_hero clear_local_history
  IsMarked-IsKept = record {
    add = λ now s from opts m h.
        if_both IsKeptMark opts.streaming (append_row-IsMarked s from opts m h)
          (append_row-IsMarked s from opts m h);
    separate = λ now prev i m h.
        if_both IsKeptMark (new_day page prev i) {x = divided page now i m} {y = m}
          (IsMarked-divider (not retried) m.children (page.day_label now i.t) h) h;
    empty = λ m h. tt;
    hinted = λ m h. h;
    greet = λ s m h. IsMarked-hero (not retried) m.children s h;
    collapse = λ m h. without_hero-IsMarked (not retried) m.children h;
    retry = λ i m e h. click_retry-IsMarked i m e h;
    clear = λ m h. h;
    turn = λ b t m h. h;
  }

-- However messages are added, restored or removed: where no row but the last bears the mark of the
-- newest, that stays so; and as long as no retry button is clicked, which takes a row away before the
-- message is sent or refused, a row is marked just when no row stands behind it, if it was so before.
pub Reach-IsMarked :
    (page : Page) (retried : Bool) {m d : Messages}
    → IsMarked (not retried) m.children
    → Reach page retried m d
    → IsMarked (not retried) d.children
Reach-IsMarked page retried h r =
    Reach-kept page retried (IsKeptMark page retried) (IsMarked-IsKept page retried) h r
