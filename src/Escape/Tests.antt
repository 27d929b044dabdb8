-- ===== src/Escape/Tests.antt =====
-- Tests of escaping, and its theorems at concrete inputs.
use website_ai_assistant.Prelude.{◌≡◌, refl}
use website_ai_assistant.Text.{text}
use website_ai_assistant.Escape.{escape_html, escape_char}

escaped : escape_html (text "<a href='x'>&amp;") ≡ text "&lt;a href=&#039;x&#039;&gt;&amp;amp;"
unfolding escape_html escape_char text
escaped = refl
