-- ===== src/Exchange/Delivered.antt =====
-- A streamed answer and the same answer delivered whole leave the same conversation, from the network
-- on.
use website_ai_assistant.Prelude.{
  ℕ, zero, suc, ◌+◌, ◌*◌, ◌<◌, true, false, List, [], ◌∷◌, Option, none, length, is_empty, All,
  arith, ◌≡◌, refl, sym, ap, ◌∙◌, Bool-cases, inl, inr,
}
use mathlib.Core.Path.{subst, ap₂}
use website_ai_assistant.Text.{Text}
use website_ai_assistant.Sse.{SseEvent}
use website_ai_assistant.Sse.Frames.{joined}
use website_ai_assistant.Sse.Wire.{wire, IsPlain, feed_all-wire}
use website_ai_assistant.Stream.{Payload, Stream, ensure_paint, paint_step, frame, frames}
use website_ai_assistant.Stream.Reader.{Parsed, Reader, after, resolved, on_end, settle}
use website_ai_assistant.Stream.Typing.{IsLive, initial-IsLive, frames-IsTyped}
use website_ai_assistant.Stream.Inputs.{Input, steps, steps-IsLive, steps-streamed}
use website_ai_assistant.Stream.Received.{fresh, after-IsClosing, after_same, on_end-stream}
use website_ai_assistant.History.{Page, unmark}
use website_ai_assistant.Answer.{Widget, Setup, Meta, begun}
use website_ai_assistant.Answer.Handlers.{handle_answer_result}
use website_ai_assistant.Answer.Paths.{conversation, handle_answer_result_from_el_lem}
use website_ai_assistant.Exchange.{Turn, pump, hand_over}
use website_ai_assistant.Exchange.Cuts.{
  buffered, chunks_of, events_of, inputs, rest_of, HaveNoNull, events_of-inputs, pump-steps,
}
use website_ai_assistant.Exchange.Handed.{
  IsHanded, IsProtocol, HaveNoError, said, final_of, HasNoNull-events, received-events,
  steps-IsHanded, steps-kept,
}

-- What is left of a stream whose typewriter is done.
abbrev IsDone : Text → Option Payload → Stream → Type 0
IsDone answer d t = t.results ≡ (answer, d) ∷ []

frame_over : (s : Stream) → s.finished ≡ true → (frame s).results ≡ s.results
unfolding frame paint_step
frame_over s h = ground arith

frame_stays : (s : Stream) → s.finished ≡ true → (frame s).finished ≡ true
unfolding frame paint_step
frame_stays s h = ground arith

frames_over : (n : ℕ) (s : Stream) → s.finished ≡ true → (frames n s).results ≡ s.results
unfolding frames
frames_over zero s h = refl
frames_over (suc n) s h = frames_over n (frame s) (frame_stays s h) ∙ frame_over s h

after_over :
    (s : Stream)
    → s.finished ≡ true
    → ((after resolved s).0.finished ≡ true) × ((after resolved s).0.results ≡ s.results)
unfolding after ensure_paint
after_over s h = ground arith

after_meta : (s : Stream) → (after resolved s).0.finish_meta ≡ s.finish_meta
unfolding after ensure_paint
after_meta s = ground arith

after-IsDone :
    (n : ℕ) (s : Stream)
    → IsLive s
    → IsHanded s
    → is_empty s.streamed ≡ false
    → length s.streamed + 1 < 2 * n
    → IsDone s.streamed s.finish_meta (frames n (after resolved s).0)
after-IsDone n s l x some_text fuel = elim (Bool-cases s.finished) [
  | inl over ↦
      let (still, same) = after_over s over in
      frames_over n (after resolved s).0 still ∙ same ∙ x.handed over
  | inr more ↦
      let (same, shown) = after_same s in
      let typed =
        frames-IsTyped n (after resolved s).0 (after-IsClosing s l more some_text)
          (rw (same, shown) (omega arith)) in
      typed.handed ∙ ap₂ (λ a d. (a, d) ∷ []) same (after_meta s)
]

-- The end of the response, how `streamChat` goes on, and some more animation frames.
abbrev pub ended : ℕ → Reader → Stream
ended n r = frames n (after (on_end r).settled (on_end r).stream).0

on_end_settled : (b : Text) (r : Reader) → (on_end (buffered b r)).settled ≡ (on_end r).settled
unfolding on_end settle
on_end_settled b r = ground arith

ended-buffered : (n : ℕ) (b : Text) (r : Reader) → ended n (buffered b r) ≡ ended n r
ended-buffered n b r =
    ap₂ (λ o s. frames n (after o s).0) (on_end_settled b r)
      (on_end-stream (buffered b r) ∙ sym (on_end-stream r))

on_end_kept :
    (r : Reader) → r.stopped ≡ false → r.settled ≡ fresh.settled → (on_end r).settled ≡ resolved
unfolding on_end settle
on_end_kept r h k = ground arith

ended-IsDone :
    (n : ℕ) (r : Reader)
    → r.stopped ≡ false
    → r.settled ≡ fresh.settled
    → IsLive r.stream
    → IsHanded r.stream
    → is_empty r.stream.streamed ≡ false
    → length r.stream.streamed + 1 < 2 * n
    → IsDone r.stream.streamed r.stream.finish_meta (ended n r)
ended-IsDone n r h k l x some_text fuel =
    rw (on_end_kept r h k, on_end-stream r) (after-IsDone n r.stream l x some_text fuel)

module _ (parse_json : Text → Parsed) where
  steps-IsDone :
      (n : ℕ) (is : List Input)
      → HaveNoNull parse_json (events_of is)
      → HaveNoError (events_of is)
      → IsProtocol false (events_of is)
      → is_empty (said parse_json (events_of is)) ≡ false
      → length (said parse_json (events_of is)) + 1 < 2 * n
      → IsDone
          (said parse_json (events_of is))
          (final_of parse_json none (events_of is))
          (ended n (steps parse_json fresh is))
  steps-IsDone n is k e o some_text fuel =
      let r = steps parse_json fresh is in
      let text_is =
        steps-streamed parse_json fresh is refl (HasNoNull-events parse_json is k)
        ∙ received-events parse_json is in
      let (settled, meta, runs) = steps-kept parse_json fresh is refl k e in
      let l = steps-IsLive parse_json fresh is initial-IsLive in
      let x = steps-IsHanded parse_json fresh false is (λ h. h) o initial-IsLive (ground arith) in
      ended-IsDone n r runs settled l x (ap is_empty text_is ∙ some_text)
        (subst (λ t. length t + 1 < 2 * n) (sym text_is) fuel)
      ∙ ap₂ (λ a d. (a, d) ∷ []) text_is meta

  module _ (es : List SseEvent) (ts : List Turn) (n : ℕ) where
    pump-IsDone :
        All IsPlain es
        → joined (chunks_of ts) ≡ wire es
        → HaveNoNull parse_json es
        → HaveNoError es
        → IsProtocol false es
        → is_empty (said parse_json es) ≡ false
        → length (said parse_json es) + 1 < 2 * n
        → IsDone
            (said parse_json es)
            (final_of parse_json none es)
            (ended n (pump parse_json fresh ts))
    pump-IsDone plain cut =
        let read_back = events_of-inputs [] ts ∙ (feed_all-wire es (chunks_of ts) plain cut).0 in
        subst
          (λ fs.
            HaveNoNull parse_json fs
            → HaveNoError fs
            → IsProtocol false fs
            → is_empty (said parse_json fs) ≡ false
            → length (said parse_json fs) + 1 < 2 * n
            → IsDone (said parse_json fs) (final_of parse_json none fs)
                (ended n (pump parse_json fresh ts)))
          read_back
          (λ k e o some_text fuel.
            ap (λ r. (ended n r).results) (pump-steps parse_json [] fresh ts refl k)
            ∙ ap (λ s. s.results) (ended-buffered n (rest_of [] ts) (steps parse_json fresh _))
            ∙ steps-IsDone n (inputs [] ts) k e o some_text fuel)

    -- However the network cuts the backend's stream into chunks and whenever the browser paints
    -- between them: once the response has ended and frames for half of the answer's characters have
    -- run, the conversation is the one that the same answer, delivered whole with the payload of
    -- `done`, leaves; only the badge and the composer's other fields than the lock may differ. The
    -- events are single lines with no white space at their ends, no payload is `null`, no event is
    -- an error, no token and no second `done` come behind `done`, there is some text, and the row
    -- is still where it was appended.
    pub hand_over-pump :
        (setup : Setup) (page : Page) (now : ℕ) (meta : Option Payload → Meta) (w : Widget)
        → All IsPlain es
        → joined (chunks_of ts) ≡ wire es
        → HaveNoNull parse_json es
        → HaveNoError es
        → IsProtocol false es
        → is_empty (said parse_json es) ≡ false
        → length (said parse_json es) + 1 < 2 * n
        → conversation (
            hand_over setup page now
              (length (unmark w.messages.children))
              meta
              (ended n (pump parse_json fresh ts)).results
              (begun page w))
          ≡ conversation (
              handle_answer_result setup page now
                (said parse_json es)
                (meta (final_of parse_json none es))
                w)
    unfolding hand_over
    hand_over-pump setup page now meta w plain cut k e o some_text fuel =
        ap
          (λ rs.
            conversation (
              hand_over setup page now (length (unmark w.messages.children)) meta rs
                (begun page w)))
          (pump-IsDone plain cut k e o some_text fuel)
        ∙ handle_answer_result_from_el_lem setup page now (said parse_json es)
            (meta (final_of parse_json none es)) w
