-- ===== src/Copy/Tests.antt =====
-- A copy at a concrete input.
use website_ai_assistant.Prelude.{◌≡◌, refl, some}
use website_ai_assistant.Text.{text}
use website_ai_assistant.Copy.{Button, drawn, copied, click, written}

abbrev done : Button
done = written (click (some (text "x = 1")) drawn)

done_label : done.label ≡ copied
unfolding written click
done_label = refl
