-- ===== src/Exchange/Cuts.antt =====
-- Reading chunks with frames between them is delivering the events of the response, with the frames
-- at some places between them.
use website_ai_assistant.Prelude.{
  false, List, [], ◌∷◌, ◌++◌, if◌then◌else◌, arith, All, ◌≡◌, ◌≢◌, refl, sym, ap, ◌∙◌,
}
use website_ai_assistant.Text.{Text}
use website_ai_assistant.Sse.{SseEvent, feed, feed_all, parse_frames}
use website_ai_assistant.Stream.{frame}
use website_ai_assistant.Stream.Reader.{
  Parsed, malformed, null_value, value, Reader, dispatch, deliver, deliver_all, on_chunk,
}
use website_ai_assistant.Stream.Inputs.{Input, event, tick, steps, deliver-stopped}
use website_ai_assistant.Exchange.{Turn, chunk, frame_due, pump}

abbrev pub chunks_of : List Turn → List Text
chunks_of [] = []
chunks_of (chunk s ∷ ts) = s ∷ chunks_of ts
chunks_of (frame_due ∷ ts) = chunks_of ts

abbrev pub events_of : List Input → List SseEvent
events_of [] = []
events_of (event e ∷ is) = e ∷ events_of is
events_of (tick ∷ is) = events_of is

abbrev then_inputs : List SseEvent → List Input → List Input
then_inputs [] is = is
then_inputs (e ∷ es) is = event e ∷ then_inputs es is

-- The events that the turns bring, from a buffer, and the buffer behind them.
unfoldable pub inputs : Text → List Turn → List Input
unfolding feed parse_frames
inputs b [] = []
inputs b (chunk s ∷ ts) = then_inputs (parse_frames (feed b s).0) (inputs (feed b s).1 ts)
inputs b (frame_due ∷ ts) = tick ∷ inputs b ts

unfoldable pub rest_of : Text → List Turn → Text
unfolding feed
rest_of b [] = b
rest_of b (chunk s ∷ ts) = rest_of (feed b s).1 ts
rest_of b (frame_due ∷ ts) = rest_of b ts

abbrev pub buffered : Text → Reader → Reader
buffered b r = record r { buffer = b }

dispatch-buffered :
    (name : Text) (v : Parsed) (b : Text) (r : Reader)
    → dispatch name v (buffered b r) ≡ buffered b (dispatch name v r)
unfolding dispatch
dispatch-buffered name malformed b r = refl
dispatch-buffered name null_value b r = ground arith
dispatch-buffered name (value d) b r = ground arith

parse_frames-append :
    (xs ys : List Text) → parse_frames (xs ++ ys) ≡ parse_frames xs ++ parse_frames ys
unfolding parse_frames
parse_frames-append [] ys = refl
parse_frames-append (x ∷ xs) ys = ground (arith, parse_frames-append xs ys)

events_of-then_inputs :
    (es : List SseEvent) (is : List Input) → events_of (then_inputs es is) ≡ es ++ events_of is
events_of-then_inputs [] is = refl
events_of-then_inputs (e ∷ es) is = ap (◌∷◌ e) (events_of-then_inputs es is)

-- The events are those of the chunks, read one after another.
pub events_of-inputs :
    (b : Text) (ts : List Turn)
    → events_of (inputs b ts) ≡ parse_frames (feed_all b (chunks_of ts)).0
unfolding inputs feed_all parse_frames
events_of-inputs b [] = refl
events_of-inputs b (chunk s ∷ ts) =
    let (raws, rest) = feed b s in
    events_of-then_inputs (parse_frames raws) (inputs rest ts)
    ∙ ap (◌++◌ (parse_frames raws)) (events_of-inputs rest ts)
    ∙ sym (parse_frames-append raws (feed_all rest (chunks_of ts)).0)
events_of-inputs b (frame_due ∷ ts) = events_of-inputs b ts

module _ (parse_json : Text → Parsed) where
  deliver-buffered :
      (b : Text) (r : Reader) (e : SseEvent)
      → deliver parse_json (buffered b r) e ≡ buffered b (deliver parse_json r e)
  unfolding deliver
  deliver-buffered b r e = ground (arith, dispatch-buffered e.name (parse_json e.payload) b r)

  deliver_all-buffered :
      (b : Text) (r : Reader) (es : List SseEvent)
      → deliver_all parse_json (buffered b r) es ≡ buffered b (deliver_all parse_json r es)
  unfolding deliver_all
  deliver_all-buffered b r [] = refl
  deliver_all-buffered b r (e ∷ es) =
      ap (λ x. deliver_all parse_json x es) (deliver-buffered b r e)
      ∙ deliver_all-buffered b (deliver parse_json r e) es

  steps-then_inputs :
      (r : Reader) (es : List SseEvent) (is : List Input)
      → steps parse_json r (then_inputs es is) ≡ steps parse_json (deliver_all parse_json r es) is
  unfolding steps deliver_all
  steps-then_inputs r [] is = refl
  steps-then_inputs r (e ∷ es) is = steps-then_inputs (deliver parse_json r e) es is

  -- No payload of the events is the JSON value `null`.
  abbrev pub HaveNoNull : List SseEvent → Type 0
  HaveNoNull = All (λ e. parse_json e.payload ≢ null_value)

  deliver_all-stopped :
      (r : Reader) (es : List SseEvent)
      → r.stopped ≡ false
      → HaveNoNull es
      → (deliver_all parse_json r es).stopped ≡ false
  unfolding deliver_all
  deliver_all-stopped r [] h k = h
  deliver_all-stopped r (e ∷ es) h (p, k) =
      deliver_all-stopped (deliver parse_json r e) es (deliver-stopped parse_json r e h p) k

  on_chunk-buffered :
      (b s : Text) (r : Reader)
      → r.stopped ≡ false
      → on_chunk parse_json (buffered b r) s
        ≡ buffered (feed b s).1 (deliver_all parse_json r (parse_frames (feed b s).0))
  unfolding on_chunk
  on_chunk-buffered b s r h =
      let (raws, rest) = feed b s in
      ap
        (λ x.
          if x then buffered b r else deliver_all parse_json (buffered rest r) (parse_frames raws))
        h
      ∙ deliver_all-buffered rest r (parse_frames raws)

  split_all :
      (es : List SseEvent) (is : List Input)
      → HaveNoNull (events_of (then_inputs es is))
      → HaveNoNull es × HaveNoNull (events_of is)
  split_all [] is h = (tt, h)
  split_all (e ∷ es) is (p, h) = let (k, l) = split_all es is h in ((p, k), l)

  -- Reading the chunks is delivering their events, but for the buffer.
  pub pump-steps :
      (b : Text) (r : Reader) (ts : List Turn)
      → r.stopped ≡ false
      → HaveNoNull (events_of (inputs b ts))
      → pump parse_json (buffered b r) ts
        ≡ buffered (rest_of b ts) (steps parse_json r (inputs b ts))
  unfolding pump inputs rest_of steps
  pump-steps b r [] h k = refl
  pump-steps b r (chunk s ∷ ts) h k =
      let (raws, rest) = feed b s in
      let es = parse_frames raws in
      let (now, later) = split_all es (inputs rest ts) k in
      ap (λ x. pump parse_json x ts) (on_chunk-buffered b s r h)
      ∙ pump-steps rest (deliver_all parse_json r es) ts (deliver_all-stopped r es h now) later
      ∙ ap (buffered (rest_of rest ts)) (sym (steps-then_inputs r es (inputs rest ts)))
  pump-steps b r (frame_due ∷ ts) h k = pump-steps b (record r { stream = frame r.stream }) ts h k
