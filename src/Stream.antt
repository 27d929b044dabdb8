-- ===== src/Stream.antt =====
-- static/widget/widget.js, `streamChat`: the typewriter that paints a streamed answer. A step of
-- the browser (an animation frame, an event of the reader, the end of the response) is a
-- function on the variables that the closure shares.
pub mod Reader
pub mod Inputs
pub mod Received
pub mod Typing
mod Tests
use website_ai_assistant.Prelude.{
  ℕ, zero, suc, ◌+◌, ◌-◌, ◌/◌, min, max, Bool, true, false, not, ◌&&◌, ◌||◌, List, [], ◌∷◌, ◌++◌,
  Option, none, some, if◌then◌else◌, ltb, length, take, is_empty,
}
use website_ai_assistant.Text.{Text, text}

-- What a JSON payload of the stream holds, as far as the widget reads it; a missing field reads
-- as the empty text or `false`, which the code does not tell apart.
pub record Payload : Type 0 where
  pub conversation_id : Text
  pub conversation_token : Text
  pub token : Text
  pub answer : Text
  pub message : Text
  pub quota_message : Text
  pub quota_locked : Bool
  pub guard_blocked : Bool
  pub fallback : Bool

-- The closure's variables. `painted` is the source of the bubble's HTML, `results` lists the calls
-- of `handleAnswerResultFromEl`, oldest first.
pub record Stream : Type 0 where
  pub streamed : Text
  pub shown : ℕ
  pub closed : Bool
  pub finished : Bool
  pub first_token : Bool
  pub has_els : Bool
  pub raf : Bool
  pub finish_meta : Option Payload
  pub painted : Text
  pub results : List (Text × Option Payload)

abbrev pub initial : Stream
initial = record {
  streamed = [];
  shown = 0;
  closed = false;
  finished = false;
  first_token = false;
  has_els = false;
  raf = false;
  finish_meta = none;
  painted = [];
  results = [];
}

unfoldable pub ensure_paint : Stream → Stream
ensure_paint s = if not s.raf && not s.finished then record s { raf = true } else s

-- `handleAnswerResultFromEl(els, answer, finishMeta || {})`, which also sets the bubble.
unfoldable pub answer_result : Stream → Text → Stream
answer_result s answer = record s {
  painted = answer;
  results = s.results ++ ((answer, s.finish_meta) ∷ []);
}

unfoldable pub finish_up : Stream → Stream
unfolding answer_result
finish_up s =
    if s.finished
    then s
    else let t = record s { finished = true; raf = false } in
      if s.has_els then answer_result t s.streamed else t

-- `Math.max(2, Math.ceil(gap / 12))`.
unfoldable pub stride : ℕ → ℕ
stride gap = max 2 ((gap + 11) / 12)

-- The first branch of `paintStep`: paint some more and ask for another frame.
unfoldable pub advance : Stream → Stream
unfolding stride
advance s =
    let n = min (length s.streamed) (s.shown + stride (length s.streamed - s.shown)) in
    record s { shown = n; painted = take n s.streamed; raf = true }

unfoldable pub paint_step : Stream → Stream
unfolding finish_up advance
paint_step s =
    let t = record s { raf = false } in
    if not s.has_els || s.finished
    then t
    else if ltb s.shown (length s.streamed)
    then advance t
    else if s.closed
    then finish_up t
    else t

-- The browser's next animation frame: it runs `paintStep` if a request is pending.
unfoldable pub frame : Stream → Stream
unfolding paint_step
frame s = if s.raf then paint_step s else s

unfoldable pub frames : ℕ → Stream → Stream
unfolding frame
frames zero s = s
frames (suc n) s = frames n (frame s)
