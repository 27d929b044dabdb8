-- ===== src/Sse/Wire.antt =====
-- The wire format of the backend's stream, `event: name`, `data: payload` and a blank line, is
-- read back, however the network cuts it.
use website_ai_assistant.Prelude.{
  ℕ, List, [], ◌∷◌, ◌++◌, append-nil, append_assoc, map, some, ◌≡◌, ◌≢◌, refl, ap, ◌∙◌, arith, All,
  All-append,
}
use website_ai_assistant.Text.{join, Text, text, trim, split_char, onto_head, starts_with}
use website_ai_assistant.Sse.{
  Split, push_head, push_frame, split_frames, feed_all, SseEvent, read_line, to_event, parse_frame,
  parse_frames,
}
use website_ai_assistant.Sse.Frames.{joined, feed_all-joined}

-- One event as `_sse_event` of chat/views.py writes it.
abbrev pub frame_of : SseEvent → Text
frame_of e = (text "event: " ++ e.name) ++ b'\n' ∷ (text "data: " ++ e.payload)

abbrev pub wire : List SseEvent → Text
wire [] = []
wire (e ∷ es) = frame_of e ++ b'\n' ∷ b'\n' ∷ wire es

abbrev pub IsLine : Text → Type 0
IsLine = All (λ c. c ≢ b'\n')

-- Names and payloads are single lines with no white space at their ends.
pub record IsPlain (e : SseEvent) : Type 0 where
  pub name_line : IsLine e.name
  pub name_trim : trim (32 ∷ e.name) ≡ e.name
  pub payload_line : IsLine e.payload
  pub payload_trim : trim (32 ∷ e.payload) ≡ e.payload

abbrev push_text : Text → Split → Split
push_text [] p = p
push_text (c ∷ s) p = push_head c (push_text s p)

split_frames-line :
    (c : ℕ) (s : Text) → c ≢ b'\n' → split_frames (c ∷ s) ≡ push_head c (split_frames s)
unfolding split_frames
split_frames-line c [] h = refl
split_frames-line c (d ∷ s) h = ground arith

split_frames-IsLine : (l s : Text) → IsLine l → split_frames (l ++ s) ≡ push_text l (split_frames s)
split_frames-IsLine [] s h = refl
split_frames-IsLine (c ∷ l) s (p, h) =
    split_frames-line c (l ++ s) p ∙ ap (push_head c) (split_frames-IsLine l s h)

push_text-push_frame :
    (l f : Text) (p : Split) → push_text l (push_frame f p) ≡ push_frame (l ++ f) p
push_text-push_frame [] f p = refl
push_text-push_frame (c ∷ l) f p = rw (push_text-push_frame l f p)

event-IsLine : (s : Text) → IsLine s → IsLine (text "event: " ++ s)
unfolding text
event-IsLine s h = All-append _ (text "event: ") s (omega arith) h

data-IsLine : (s : Text) → IsLine s → IsLine (text "data: " ++ s)
unfolding text
data-IsLine s h = All-append _ (text "data: ") s (omega arith) h

split_frames_second_line :
    (s rest : Text)
    → IsLine s
    → split_frames (b'\n' ∷ (text "data: " ++ s) ++ b'\n' ∷ b'\n' ∷ rest)
      ≡ push_frame (b'\n' ∷ (text "data: " ++ s)) (split_frames rest)
split_frames_second_line s rest h =
    first s rest
    ∙ ap (push_head b'\n') (
        split_frames-IsLine (text "data: " ++ s) (b'\n' ∷ b'\n' ∷ rest) (data-IsLine s h)
        ∙ ap (push_text (text "data: " ++ s)) (blank rest)
        ∙ push_text-push_frame (text "data: " ++ s) [] (split_frames rest)
        ∙ ap (λ f. push_frame f (split_frames rest)) (append-nil (text "data: " ++ s)))
  where
    first :
        (s rest : Text)
        → split_frames (b'\n' ∷ (text "data: " ++ s) ++ b'\n' ∷ b'\n' ∷ rest)
          ≡ push_head b'\n' (split_frames ((text "data: " ++ s) ++ b'\n' ∷ b'\n' ∷ rest))
    first s rest = unfold split_frames text in refl

    blank : (rest : Text) → split_frames (b'\n' ∷ b'\n' ∷ rest) ≡ push_frame [] (split_frames rest)
    blank rest = unfold split_frames in refl

split_frames-wire :
    (es : List SseEvent) → All IsPlain es → split_frames (wire es) ≡ (map frame_of es, [])
split_frames-wire [] h = unfold split_frames in refl
split_frames-wire (e ∷ es) (p, h) =
    ap split_frames (append_assoc (text "event: " ++ e.name) _ _)
    ∙ split_frames-IsLine (text "event: " ++ e.name) _ (event-IsLine e.name p.name_line)
    ∙ ap (push_text (text "event: " ++ e.name))
        (split_frames_second_line e.payload (wire es) p.payload_line)
    ∙ push_text-push_frame (text "event: " ++ e.name) _ (split_frames (wire es))
    ∙ ap (push_frame (frame_of e)) (split_frames-wire es h)

split_char-IsLine : (l : Text) → IsLine l → split_char b'\n' l ≡ l ∷ []
unfolding split_char onto_head
split_char-IsLine [] h = refl
split_char-IsLine (c ∷ l) (p, h) = ground (arith, split_char-IsLine l h)

split_char-lines :
    (l s : Text) → IsLine l → split_char b'\n' (l ++ b'\n' ∷ s) ≡ l ∷ split_char b'\n' s
unfolding split_char onto_head
split_char-lines [] s h = refl
split_char-lines (c ∷ l) s (p, h) = rw (split_char-lines l s h) (ground arith)

read_event_line :
    (s : Text) (acc : Text × List Text)
    → read_line acc (text "event: " ++ s) ≡ (trim (32 ∷ s), acc.1)
unfolding read_line text starts_with
read_event_line s acc = refl

read_data_line :
    (s : Text) (acc : Text × List Text)
    → read_line acc (text "data: " ++ s) ≡ (acc.0, acc.1 ++ trim (32 ∷ s) ∷ [])
unfolding read_line text starts_with
read_data_line s acc = refl

parse_frame_step :
    (a b : Text)
    → IsLine a
    → IsLine b
    → parse_frame (a ++ b'\n' ∷ b) ≡ to_event (read_line (read_line (text "message", []) a) b)
unfolding parse_frame
parse_frame_step a b h k = rw (split_char-lines a b h, split_char-IsLine b k)

-- One event is read back from its frame.
pub parse_frame-frame_of : (e : SseEvent) → IsPlain e → parse_frame (frame_of e) ≡ some e
unfolding join
parse_frame-frame_of e p =
    parse_frame_step (text "event: " ++ e.name) (text "data: " ++ e.payload)
      (event-IsLine e.name p.name_line) (data-IsLine e.payload p.payload_line)
    ∙ ap (λ l. to_event (read_line l (text "data: " ++ e.payload)))
        (read_event_line e.name (text "message", []))
    ∙ ap to_event (read_data_line e.payload (trim (32 ∷ e.name), []))
    ∙ cc (p.name_trim, p.payload_trim)

pub parse_frames-frame_of :
    (es : List SseEvent) → All IsPlain es → parse_frames (map frame_of es) ≡ es
unfolding parse_frames
parse_frames-frame_of [] h = refl
parse_frames-frame_of (e ∷ es) (p, h) =
    rw (parse_frame-frame_of e p) (ap (◌∷◌ e) (parse_frames-frame_of es h))

-- However the network cuts the backend's stream of plain events into chunks, the reader sees
-- exactly these events, in order, and keeps nothing in its buffer.
pub feed_all-wire :
    (es : List SseEvent) (chunks : List Text)
    → All IsPlain es
    → joined chunks ≡ wire es
    → (parse_frames (feed_all [] chunks).0 ≡ es) × ((feed_all [] chunks).1 ≡ [])
feed_all-wire es chunks h cut =
    rw (feed_all-joined [] chunks (unfold split_frames in refl), cut, split_frames-wire es h)
      (parse_frames-frame_of es h, refl)
