-- ===== src/Sse/Tests.antt =====
-- Tests of the event reader, and its theorems at concrete inputs.
use website_ai_assistant.Prelude.{◌≡◌, refl, List, [], ◌∷◌, arith}
use website_ai_assistant.Text.{Text, text, trim}
use website_ai_assistant.Sse.{SseEvent, split_frames, feed_all, parse_frames}
use website_ai_assistant.Sse.Frames.{joined}
use website_ai_assistant.Sse.Wire.{wire, IsPlain, feed_all-wire}

abbrev hello : SseEvent
hello = record { name = text "token"; payload = text "{\"t\":\"hi\"}" }

abbrev bye : SseEvent
bye = record { name = text "done"; payload = text "{}" }

-- The response of two events, cut inside the blank line.
abbrev cut : List Text
cut =
    text "event: token\ndata: {\"t\":\"hi\"}\n" ∷ text "\nevent: do" ∷ text "ne\ndata: {}\n\n" ∷ []

hello-IsPlain : IsPlain hello
unfolding text
hello-IsPlain = record {
  name_line = omega arith;
  name_trim = unfold trim in refl;
  payload_line = omega arith;
  payload_trim = unfold trim in refl;
}

bye-IsPlain : IsPlain bye
unfolding text
bye-IsPlain = record {
  name_line = omega arith;
  name_trim = unfold trim in refl;
  payload_line = omega arith;
  payload_trim = unfold trim in refl;
}

cut-joined : joined cut ≡ wire (hello ∷ bye ∷ [])
unfolding text
cut-joined = refl

feed_all-wire_example :
    (parse_frames (feed_all [] cut).0 ≡ hello ∷ bye ∷ []) × ((feed_all [] cut).1 ≡ [])
feed_all-wire_example =
    feed_all-wire (hello ∷ bye ∷ []) cut (hello-IsPlain, (bye-IsPlain, tt)) cut-joined

no_frame : split_frames (text "event") ≡ ([], text "event")
unfolding split_frames text
no_frame = refl
