-- ===== src/Markup.antt =====
-- static/widget/widget.js: the HTML that the widget writes with options and texts of the visitor in it,
-- as templates, and how a browser reads such a text: in turns as content, as a tag up to a quote
-- or its end, and as an attribute's value in double quotes. Comments, unquoted values, elements with
-- raw text and the replacement of carriage returns and NUL are not in that reading.
pub mod Reading
pub mod Icons
pub mod Front
pub mod Shell
pub mod Cards
pub mod Offered
pub mod Bare
pub mod Ids
pub mod Code
pub mod Form
pub mod Labels
pub mod Apart
mod Tests
use website_ai_assistant.Prelude.{
  length, take_last, ℕ, Bool, true, false, not, ◌&&◌, ◌==◌, List, [], ◌∷◌, ◌++◌, map, if◌then◌else◌,
}
use website_ai_assistant.Text.{Text, eq_text}
use website_ai_assistant.Escape.{escape_html}
use website_ai_assistant.Escape.Laws.{decode}

pub data Mode : Type 0 where
  content tag value : Mode

pub data Piece : Type 0 where
  piece : Mode → Text → Piece

-- The mode after a character, and whether a piece ends there.
unfoldable pub next : Mode → ℕ → Mode
next content c = if c == b'<' then tag else content
next tag c = if c == b'"' then value else if c == b'>' then content else tag
next value c = if c == b'"' then tag else value

unfoldable pub cuts : Mode → ℕ → Bool
cuts content c = c == b'<'
cuts tag c = if c == b'"' then true else c == b'>'
cuts value c = c == b'"'

-- What is left of the piece that is read, and the pieces behind it.
abbrev pub Reading : Type 0
Reading = Text × List Piece

unfoldable pub glue : Mode → ℕ → Reading → Reading
unfolding next cuts
glue m c (h, ps) = if cuts m c then ([], piece (next m c) h ∷ ps) else (c ∷ h, ps)

unfoldable pub read : Mode → Text → Reading
unfolding glue
read m [] = ([], [])
read m (c ∷ s) = glue m c (read (next m c) s)

-- Character references are decoded in content and values, not in tags.
unfoldable pub decode_in : Mode → Text → Text
unfolding decode
decode_in content s = decode s
decode_in tag s = s
decode_in value s = decode s

abbrev pub decode_piece : Piece → Piece
decode_piece (piece m s) = piece m (decode_in m s)

abbrev pub decode_reading : Mode → Reading → Reading
decode_reading m (h, ps) = (decode_in m h, map decode_piece ps)

-- `innerHTML` as the browser takes it.
unfoldable pub pieces : Text → List Piece
unfolding read decode_in
pieces s = let (h, ps) = decode_reading content (read content s) in piece content h ∷ ps

-- A template: constant characters, and texts that are put in through `escapeHtml`.
pub data Symbol : Type 0 where
  char : ℕ → Symbol
  hole : Text → Symbol

unfoldable pub fixed : Text → List Symbol
fixed [] = []
fixed (c ∷ s) = char c ∷ fixed s

unfoldable pub put : Text → List Symbol
put x = hole x ∷ []

unfoldable pub template : List (List Symbol) → List Symbol
template [] = []
template (ss ∷ rest) = ss ++ template rest

unfoldable pub render : List Symbol → Text
unfolding escape_html
render [] = []
render (char c ∷ ss) = c ∷ render ss
render (hole x ∷ ss) = escape_html x ++ render ss

-- The values of an attribute: what stands behind a tag's text that ends in its name, which is
-- given as it is written, ` id=`; the second argument is the tag's text in front.
unfoldable pub attributes : Text → Text → List Piece → List Text
unfolding eq_text
attributes name before [] = []
attributes name before (piece content s ∷ ps) = attributes name [] ps
attributes name before (piece tag s ∷ ps) = attributes name s ps
attributes name before (piece value s ∷ ps) =
    let rest = attributes name [] ps in
    if eq_text (take_last (length name) before) name then s ∷ rest else rest
