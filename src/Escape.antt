-- ===== src/Escape.antt =====
-- static/widget/widget.js, `escapeHtml`: the only barrier between text and the HTML that the
-- widget assigns to `innerHTML`.
pub mod Laws
mod Tests
use website_ai_assistant.Prelude.{List, [], ◌++◌, ◌∷◌, ℕ, ◌==◌, if◌then◌else◌, Option, none, some}
use website_ai_assistant.Text.{Text, text}

-- The table of the replacer function; any other character is not matched by the pattern.
unfoldable pub escape_char : ℕ → Text
unfolding text
escape_char c =
    if c == b'&'
    then text "&amp;"
    else if c == b'<'
    then text "&lt;"
    else if c == b'>'
    then text "&gt;"
    else if c == b'"'
    then text "&quot;"
    else if c == 39
    then text "&#039;"
    else c ∷ []

unfoldable pub escape_html : Text → Text
escape_html [] = []
escape_html (c ∷ s) = escape_char c ++ escape_html s

-- `String(s == null ? "" : s)` in front of it.
unfoldable pub escape_nullable : Option Text → Text
unfolding escape_html
escape_nullable none = []
escape_nullable (some s) = escape_html s
