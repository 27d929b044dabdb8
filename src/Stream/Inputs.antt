-- ===== src/Stream/Inputs.antt =====
-- A run of the page during a streamed answer: events of the response with animation frames
-- between them, and the text that is received.
use website_ai_assistant.Prelude.{
  true, false, not, ◌||◌, List, [], ◌∷◌, ◌++◌, append-nil, append_assoc, if◌then◌else◌,
  length-append, arith, ◌≡◌, refl, sym, ap, ◌∙◌, ◌≢◌,
}
use website_ai_assistant.Text.{Text, text, eq_text}
use website_ai_assistant.Text.Laws.{eq_text_apart}
use website_ai_assistant.Sse.{SseEvent}
use website_ai_assistant.Stream.{Stream, ensure_paint, paint_step, frame}
use website_ai_assistant.Stream.Reader.{
  Parsed, malformed, null_value, value, Reader, deliver, dispatch,
}
use website_ai_assistant.Stream.Typing.{IsLive, frame-IsLive, take-append}

-- The text that one event brings.
abbrev pub token_of : Text → Parsed → Text
token_of name (value d) = if eq_text name (text "token") then d.token else []
token_of name _ = []

ensure_paint-IsLive :
    (s : Stream) (t : Text)
    → IsLive s
    → IsLive (
        ensure_paint (record s {
          streamed = s.streamed ++ t;
          first_token = true;
          has_els = s.has_els || not s.first_token;
        }))
unfolding ensure_paint
ensure_paint-IsLive s t l =
    ground (arith, length-append s.streamed t, take-append s.shown s.streamed t)

pub dispatch-IsLive :
    (name : Text) (v : Parsed) (r : Reader) → IsLive r.stream → IsLive (dispatch name v r).stream
unfolding dispatch
dispatch-IsLive name malformed r l = l
dispatch-IsLive name null_value r l = ground arith
dispatch-IsLive name (value d) r l = ground (arith, ensure_paint-IsLive r.stream d.token l)

meta_apart : (name : Text) → eq_text name (text "meta") ≡ true → eq_text name (text "token") ≡ false
meta_apart name h = eq_text_apart name (text "meta") (text "token") (unfold eq_text text in refl) h

pub dispatch-streamed :
    (name : Text) (v : Parsed) (r : Reader)
    → (dispatch name v r).stream.streamed ≡ r.stream.streamed ++ token_of name v
unfolding dispatch ensure_paint
dispatch-streamed name malformed r = sym (append-nil _)
dispatch-streamed name null_value r = ground (arith, append-nil r.stream.streamed)
dispatch-streamed name (value d) r = ground (arith, append-nil r.stream.streamed, meta_apart name)

pub dispatch-stopped :
    (name : Text) (v : Parsed) (r : Reader)
    → v ≢ null_value
    → (dispatch name v r).stopped ≡ r.stopped
unfolding dispatch
dispatch-stopped name malformed r h = refl
dispatch-stopped name null_value r h = absurd (h refl)
dispatch-stopped name (value d) r h = ground arith

frame-streamed : (s : Stream) → (frame s).streamed ≡ s.streamed
unfolding frame paint_step
frame-streamed s = ground arith

-- The response as the page meets it: events, with animation frames between them.
pub data Input : Type 0 where
  event : SseEvent → Input
  tick : Input

module _ (parse_json : Text → Parsed) where
  unfoldable pub step : Reader → Input → Reader
  step r (event e) = deliver parse_json r e
  step r tick = record r { stream = frame r.stream }

  unfoldable pub steps : Reader → List Input → Reader
  unfolding step
  steps r [] = r
  steps r (i ∷ is) = steps (step r i) is

  -- The text that the events bring together.
  abbrev pub received : List Input → Text
  received [] = []
  received (event e ∷ is) = token_of e.name (parse_json e.payload) ++ received is
  received (tick ∷ is) = received is

  -- No payload is the JSON value `null`, on which the callback throws.
  abbrev pub HasNoNull : List Input → Type 0
  HasNoNull [] = Unit
  HasNoNull (event e ∷ is) = (parse_json e.payload ≢ null_value) × HasNoNull is
  HasNoNull (tick ∷ is) = HasNoNull is

  step-IsLive : (r : Reader) (i : Input) → IsLive r.stream → IsLive (step r i).stream
  unfolding step deliver
  step-IsLive r (event e) l = ground (arith, dispatch-IsLive e.name (parse_json e.payload) r l)
  step-IsLive r tick l = frame-IsLive r.stream l

  pub steps-IsLive : (r : Reader) (is : List Input) → IsLive r.stream → IsLive (steps r is).stream
  unfolding steps
  steps-IsLive r [] l = l
  steps-IsLive r (i ∷ is) l = steps-IsLive (step r i) is (step-IsLive r i l)

  deliver-streamed :
      (r : Reader) (e : SseEvent)
      → r.stopped ≡ false
      → (deliver parse_json r e).stream.streamed
        ≡ r.stream.streamed ++ token_of e.name (parse_json e.payload)
  unfolding deliver
  deliver-streamed r e h = ground (arith, dispatch-streamed e.name (parse_json e.payload) r)

  pub deliver-stopped :
      (r : Reader) (e : SseEvent)
      → r.stopped ≡ false
      → parse_json e.payload ≢ null_value
      → (deliver parse_json r e).stopped ≡ false
  unfolding deliver
  deliver-stopped r e h p = ground (arith, dispatch-stopped e.name (parse_json e.payload) r p)

  pub steps-streamed :
      (r : Reader) (is : List Input)
      → r.stopped ≡ false
      → HasNoNull is
      → (steps r is).stream.streamed ≡ r.stream.streamed ++ received is
  unfolding steps
  steps-streamed r [] h k = sym (append-nil _)
  steps-streamed r (event e ∷ is) h (p, k) =
      steps-streamed (deliver parse_json r e) is (deliver-stopped r e h p) k
      ∙ ap (λ t. t ++ received is) (deliver-streamed r e h)
      ∙ append_assoc r.stream.streamed _ (received is)
  steps-streamed r (tick ∷ is) h k =
      steps-streamed (step r tick) is h k ∙ ap (λ t. t ++ received is) (frame-streamed r.stream)
