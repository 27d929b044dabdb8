-- ===== src/Sse.antt =====
-- static/widget/widget.js, `pump` in `streamChat`: cutting the decoded response into server-sent
-- events. The bytes are decoded by the browser's `TextDecoder`; a chunk is its output.
pub mod Frames
pub mod Wire
mod Tests
use website_ai_assistant.Prelude.{
  ℕ, Bool, true, false, ◌&&◌, List, [], ◌∷◌, ◌++◌, Option, none, some, ◌==◌, if◌then◌else◌, drop,
}
use website_ai_assistant.Text.{Text, text, trim, starts_with, split_char, join}

-- The complete frames of a buffer, and the unfinished rest.
abbrev pub Split : Type 0
Split = List Text × Text

abbrev pub push_head : ℕ → Split → Split
push_head c ([], r) = ([], c ∷ r)
push_head c (f ∷ fs, r) = ((c ∷ f) ∷ fs, r)

abbrev pub push_frame : Text → Split → Split
push_frame f (fs, r) = (f ∷ fs, r)

-- `buffer.split("\n\n")` and `events.pop()`.
unfoldable pub split_frames : Text → Split
split_frames [] = ([], [])
split_frames (c ∷ []) = ([], c ∷ [])
split_frames (c ∷ d ∷ s) =
    let ended = split_frames s in
    let longer = split_frames (d ∷ s) in
    if c == b'\n' && d == b'\n' then push_frame [] ended else push_head c longer

-- One call of the reader's callback: the frames that are now complete, and the new buffer.
unfoldable pub feed : Text → Text → Split
unfolding split_frames
feed buffer chunk = split_frames (buffer ++ chunk)

-- The reads one after another.
unfoldable pub feed_all : Text → List Text → Split
unfolding feed
feed_all buffer [] = ([], buffer)
feed_all buffer (chunk ∷ chunks) =
    let (now, rest) = feed buffer chunk in
    let (later, last) = feed_all rest chunks in (now ++ later, last)

pub record SseEvent : Type 0 where
  pub name : Text
  pub payload : Text

abbrev Lines : Type 0
Lines = Text × List Text

-- The name so far and the data lines so far.
unfoldable pub read_line : Lines → Text → Lines
unfolding text starts_with trim
read_line (name, data_lines) line =
    if starts_with (text "event:") line
    then (trim (drop 6 line), data_lines)
    else if starts_with (text "data:") line
    then (name, data_lines ++ trim (drop 5 line) ∷ [])
    else (name, data_lines)

unfoldable pub read_lines : Lines → List Text → Lines
read_lines acc [] = acc
read_lines acc (line ∷ lines) = read_lines (read_line acc line) lines

abbrev to_event : Lines → Option SseEvent
to_event (name, []) = none
to_event (name, d ∷ ds) = some (record { name = name; payload = join (text "\n") (d ∷ ds) })

-- A frame with no data line is dropped.
unfoldable pub parse_frame : Text → Option SseEvent
unfolding read_lines read_line split_char text join
parse_frame raw = to_event (read_lines (text "message", []) (split_char b'\n' raw))

abbrev keep : Option SseEvent → List SseEvent → List SseEvent
keep none es = es
keep (some e) es = e ∷ es

-- `events.forEach`, up to the events that have data.
unfoldable pub parse_frames : List Text → List SseEvent
unfolding parse_frame
parse_frames [] = []
parse_frames (raw ∷ raws) = keep (parse_frame raw) (parse_frames raws)
