-- ===== src/Stream/Received.antt =====
-- A streamed answer from its first event to the last frame of the typewriter.
use website_ai_assistant.Prelude.{
  ℕ, zero, suc, ◌+◌, ◌*◌, ◌<◌, Bool, true, false, ◌||◌, List, [], ◌∷◌, Option, length, is_empty,
  arith, ◌≡◌, refl, sym, ap, ◌∙◌, Bool-cases, inl, inr,
}
use mathlib.Core.Path.{subst}
use website_ai_assistant.Text.{Text, text, eq_text}
use website_ai_assistant.Sse.{SseEvent}
use website_ai_assistant.Stream.{Payload, Stream, initial, ensure_paint, paint_step, frame, frames}
use website_ai_assistant.Stream.Reader.{
  Parsed, malformed, null_value, value, Reader, deliver, dispatch, after, resolved, pending, on_end,
}
use website_ai_assistant.Stream.Typing.{
  IsLive, initial-IsLive, frame-IsLive, IsClosing, IsTyped, frames-IsTyped,
}
use website_ai_assistant.Stream.Inputs.{
  Input, event, tick, steps, received, HasNoNull, dispatch-IsLive, steps-IsLive, steps-streamed,
}

abbrev pub handed_texts : List (Text × Option Payload) → List Text
handed_texts [] = []
handed_texts ((t, _) ∷ rs) = t ∷ handed_texts rs

-- The typewriter finishes only after the `done` event, and what it handed on is still the text.
record IsExact (s : Stream) : Type 0 where
  waits : s.finished ≡ true → s.closed ≡ true
  exact : s.finished ≡ true → s.painted ≡ s.streamed
  handed : s.finished ≡ true → handed_texts s.results ≡ s.streamed ∷ []

dispatch-IsExact :
    (name : Text) (v : Parsed) (r : Reader)
    → (r.stream.closed ≡ true → eq_text name (text "token") ≡ false)
    → IsExact r.stream
    → IsExact (dispatch name v r).stream
unfolding dispatch ensure_paint
dispatch-IsExact name malformed r h x = x
dispatch-IsExact name null_value r h x = ground arith
dispatch-IsExact name (value d) r h x = ground arith

frame-IsExact : (s : Stream) → IsLive s → IsExact s → IsExact (frame s)
unfolding frame paint_step
frame-IsExact s l x = ground arith

-- No token comes behind the `done` event; the flag tells that it was sent.
abbrev pub IsOrdered : Bool → List Input → Type 0
IsOrdered sent [] = Unit
IsOrdered sent (event e ∷ is) =
    (sent ≡ true → eq_text e.name (text "token") ≡ false)
    × IsOrdered (sent || eq_text e.name (text "done")) is
IsOrdered sent (tick ∷ is) = IsOrdered sent is

dispatch_closed :
    (name : Text) (v : Parsed) (r : Reader) (sent : Bool)
    → (r.stream.closed ≡ true → sent ≡ true)
    → (dispatch name v r).stream.closed ≡ true
    → (sent || eq_text name (text "done")) ≡ true
unfolding dispatch ensure_paint
dispatch_closed name malformed r sent h k = ground arith
dispatch_closed name null_value r sent h k = ground arith
dispatch_closed name (value d) r sent h k = ground arith

pub frame_closed : (s : Stream) → (frame s).closed ≡ s.closed
unfolding frame paint_step
frame_closed s = ground arith

module _ (parse_json : Text → Parsed) where
  pub deliver-IsLive :
      (r : Reader) (e : SseEvent) → IsLive r.stream → IsLive (deliver parse_json r e).stream
  unfolding deliver
  deliver-IsLive r e l = ground (arith, dispatch-IsLive e.name (parse_json e.payload) r l)

  deliver-IsExact :
      (r : Reader) (e : SseEvent)
      → (r.stream.closed ≡ true → eq_text e.name (text "token") ≡ false)
      → IsExact r.stream
      → IsExact (deliver parse_json r e).stream
  unfolding deliver
  deliver-IsExact r e h x = ground (arith, dispatch-IsExact e.name (parse_json e.payload) r h x)

  pub deliver_closed :
      (r : Reader) (sent : Bool) (e : SseEvent)
      → (r.stream.closed ≡ true → sent ≡ true)
      → (deliver parse_json r e).stream.closed ≡ true
      → (sent || eq_text e.name (text "done")) ≡ true
  unfolding deliver
  deliver_closed r sent e h k =
      ground (arith, dispatch_closed e.name (parse_json e.payload) r sent h)

  steps-IsExact :
      (r : Reader) (sent : Bool) (is : List Input)
      → (r.stream.closed ≡ true → sent ≡ true)
      → IsOrdered sent is
      → IsLive r.stream
      → IsExact r.stream
      → IsExact (steps parse_json r is).stream
  unfolding steps
  steps-IsExact r sent [] h o l x = x
  steps-IsExact r sent (event e ∷ is) h (p, o) l x =
      steps-IsExact (deliver parse_json r e) (sent || eq_text e.name (text "done")) is
        (deliver_closed r sent e h) o (deliver-IsLive r e l) (deliver-IsExact r e (λ c. p (h c)) x)
  steps-IsExact r sent (tick ∷ is) h o l x =
      steps-IsExact (record r { stream = frame r.stream }) sent is
        (λ c. h (sym (frame_closed r.stream) ∙ c)) o (frame-IsLive r.stream l)
        (frame-IsExact r.stream l x)

-- What a page shows of a streamed answer when nothing is left to do.
pub record IsShown (t : Stream) (answer : Text) : Type 0 where
  pub finished : t.finished ≡ true
  pub painted : t.painted ≡ answer
  pub handed : handed_texts t.results ≡ answer ∷ []

abbrev pub fresh : Reader
fresh = record {
  stream = initial;
  conversation = record { id = []; token = []; stored_id = []; stored_token = [] };
  settled = pending;
  stopped = false;
  buffer = [];
}

frame-IsShown : (s : Stream) (answer : Text) → IsShown s answer → IsShown (frame s) answer
unfolding frame paint_step
frame-IsShown s answer h = ground arith

frames-IsShown :
    (n : ℕ) (s : Stream) (answer : Text) → IsShown s answer → IsShown (frames n s) answer
unfolding frames
frames-IsShown zero s answer h = h
frames-IsShown (suc n) s answer h = frames-IsShown n (frame s) answer (frame-IsShown s answer h)

IsShown-IsTyped :
    (s t : Stream) (answer : Text) → s.streamed ≡ answer → IsTyped s t → IsShown t answer
IsShown-IsTyped s t answer e h = record {
  finished = h.over;
  painted = h.painted ∙ e;
  handed = ap handed_texts h.handed ∙ ap (λ a. a ∷ []) e;
}

pub after-IsClosing :
    (s : Stream)
    → IsLive s
    → s.finished ≡ false
    → is_empty s.streamed ≡ false
    → IsClosing (after resolved s).0
unfolding after ensure_paint
after-IsClosing s l h some_text = ground arith

pub after_same :
    (s : Stream)
    → ((after resolved s).0.streamed ≡ s.streamed) × ((after resolved s).0.shown ≡ s.shown)
unfolding after ensure_paint
after_same s = ground arith

after_finished :
    (s : Stream) → IsExact s → s.finished ≡ true → IsShown (after resolved s).0 s.streamed
unfolding after ensure_paint
after_finished s x h = ground arith

after-IsShown :
    (n : ℕ) (s : Stream)
    → IsLive s
    → IsExact s
    → is_empty s.streamed ≡ false
    → length s.streamed + 1 < s.shown + 2 * n
    → IsShown (frames n (after resolved s).0) s.streamed
after-IsShown n s l x some_text fuel = elim (Bool-cases s.finished) [
  | inl over ↦ frames-IsShown n (after resolved s).0 s.streamed (after_finished s x over)
  | inr more ↦
      let (same, shown) = after_same s in
      IsShown-IsTyped (after resolved s).0 _ s.streamed same (
        frames-IsTyped n (after resolved s).0 (after-IsClosing s l more some_text)
          (rw (same, shown) fuel))
]

pub on_end-stream : (r : Reader) → (on_end r).stream ≡ r.stream
unfolding on_end
on_end-stream r = ground arith

-- Whatever the events, and whenever the browser paints between them: once the response has ended
-- with the promise resolved, and frames for half of the answer's characters have run, the bubble
-- shows all the text that the events brought, and it was handed on exactly once. No payload is
-- `null`, no token comes behind `done`, and there is some text.
pub steps-IsShown :
    (parse_json : Text → Parsed) (is : List Input) (n : ℕ)
    → HasNoNull parse_json is
    → IsOrdered false is
    → is_empty (received parse_json is) ≡ false
    → length (received parse_json is) + 1 < 2 * n
    → (on_end (steps parse_json fresh is)).settled ≡ resolved
    → IsShown
        (frames n
          (after
            (on_end (steps parse_json fresh is)).settled
            (on_end (steps parse_json fresh is)).stream).0)
        (received parse_json is)
steps-IsShown parse_json is n k o some_text fuel ended =
    let e = steps-streamed parse_json fresh is refl k in
    let l = steps-IsLive parse_json fresh is initial-IsLive in
    let x = steps-IsExact parse_json fresh false is (λ h. h) o initial-IsLive (ground arith) in
    rw (ended, on_end-stream)
      (subst (IsShown _) e (
        after-IsShown n (steps parse_json fresh is).stream l x (rw e some_text)
          (rw e (omega arith))))
