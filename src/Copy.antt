-- ===== src/Copy.antt =====
-- static/widget/widget.js, the click on a code block's copy button (`bindEvents`): the clipboard's promise and
-- the timers that take the confirmation back.
pub mod Confirmed
mod Tests
use website_ai_assistant.Prelude.{
  ℕ, zero, suc, ◌+◌, Bool, true, false, List, [], ◌∷◌, ◌++◌, Option, none, some,
}
use website_ai_assistant.Text.{Text}

-- "copy", and "copied".
pub data Label : Type 0 where
  copy copied : Label

-- `pending` are the writes whose promises have not settled, `timers` the timeouts that run.
pub record Button : Type 0 where
  pub has_class : Bool
  pub label : Label
  pub pending : List Text
  pub clipboard : Option Text
  pub timers : ℕ

abbrev pub drawn : Button
drawn = record { has_class = false; label = copy; pending = []; clipboard = none; timers = 0 }

-- A click, with the text of the element that the button names, if there is one.
unfoldable pub click : Option Text → Button → Button
click none b = b
click (some s) b = record b { pending = b.pending ++ s ∷ [] }

abbrev confirm : List Text → Button → Button
confirm [] b = b
confirm (s ∷ ss) b = record b {
  has_class = true;
  label = copied;
  pending = ss;
  clipboard = some s;
  timers = b.timers + 1;
}

-- The oldest write succeeds.
unfoldable pub written : Button → Button
written b = confirm b.pending b

abbrev forget_first : List Text → List Text
forget_first [] = []
forget_first (s ∷ ss) = ss

-- It fails, and nothing is said.
unfoldable pub refused : Button → Button
refused b = record b { pending = forget_first b.pending }

abbrev restore : ℕ → Button → Button
restore zero b = b
restore (suc n) b = record b { has_class = false; label = copy; timers = n }

-- The callback of a timeout.
unfoldable pub time_out : Button → Button
time_out b = restore b.timers b
