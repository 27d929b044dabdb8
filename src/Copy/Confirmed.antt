-- ===== src/Copy/Confirmed.antt =====
-- The confirmation of a copy is true, and it is taken back.
use website_ai_assistant.Prelude.{
  ℕ, zero, suc, ◌<◌, true, false, List, [], ◌∷◌, Option, none, some, ◌≡◌, ◌≢◌, refl, arith,
}
use website_ai_assistant.Text.{Text}
use website_ai_assistant.Copy.{copy, copied, Button, drawn, click, written, refused, time_out}

pub data Step (b : Button) : Button → Type 0 where
  clicks : (s : Option Text) → Step b (click s b)
  writes : Step b (written b)
  fails : Step b (refused b)
  ends : Step b (time_out b)

pub data Reach : Button → Type 0 where
  here : Reach drawn
  next : {b d : Button} → Reach b → Step b d → Reach d

pub record IsHonest (b : Button) : Type 0 where
  pub says : b.label ≡ copied → b.has_class ≡ true
  pub marked : b.has_class ≡ true → (b.label ≡ copied) × (b.clipboard ≢ none)
  pub taken_back : b.timers ≡ 0 → b.has_class ≡ false

written-IsHonest :
    (b : Button) (ss : List Text) → b.pending ≡ ss → IsHonest b → IsHonest (written b)
unfolding written
written-IsHonest b [] e h = ground arith
written-IsHonest b (s ∷ ss) e h = ground arith

time_out-IsHonest : (b : Button) (n : ℕ) → b.timers ≡ n → IsHonest b → IsHonest (time_out b)
unfolding time_out
time_out-IsHonest b zero e h = ground arith
time_out-IsHonest b (suc n) e h = ground arith

Step-IsHonest : {b d : Button} → Step b d → IsHonest b → IsHonest d
unfolding click refused
Step-IsHonest (clicks none) h = h
Step-IsHonest (clicks (some s)) h = ground arith
Step-IsHonest {b} writes h = written-IsHonest b b.pending refl h
Step-IsHonest fails h = ground arith
Step-IsHonest {b} ends h = time_out-IsHonest b b.timers refl h

-- However often a copy button is clicked and however the clipboard answers: the button says that
-- something was copied only while its mark is there, and only if something was; and when no timer
-- runs, both have been taken back.
pub Reach-IsHonest : {b : Button} → Reach b → IsHonest b
Reach-IsHonest here = ground arith
Reach-IsHonest (next r s) = Step-IsHonest s (Reach-IsHonest r)

-- Two copies in quick succession: the first timer takes back the confirmation of the second.
pub time_out-early :
    (b : Button) (s t : Text) (ss : List Text)
    → b.pending ≡ s ∷ t ∷ ss
    → ((time_out (written (written b))).label ≡ copy)
      × (0 < (time_out (written (written b))).timers)
unfolding time_out written
time_out-early b s t ss e = ground arith
