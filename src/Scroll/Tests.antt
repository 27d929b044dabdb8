-- ===== src/Scroll/Tests.antt =====
-- The theorems on scrolling at concrete inputs.
use website_ai_assistant.Prelude.{true, false}
use website_ai_assistant.Scroll.{MessageView}

abbrev reading : MessageView
reading = record {
  scroll_height = 900;
  scroll_top = 400;
  client_height = 500;
  button_shown = false;
  stick = true;
}
