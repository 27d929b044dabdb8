-- ===== src/Exchange/Handed.antt =====
-- What the typewriter hands on of a stream that keeps the backend's protocol: nothing is said behind
-- `done`, and no event is an error.
use website_ai_assistant.Prelude.{
  Bool, true, false, ◌||◌, List, [], ◌∷◌, ◌++◌, Option, some, if◌then◌else◌, arith, All, ◌≡◌, ◌≢◌,
  refl, sym, ap, ◌∙◌,
}
use mathlib.Core.Path.{subst}
use website_ai_assistant.Text.{Text, text, eq_text}
use website_ai_assistant.Text.Laws.{eq_text_apart}
use website_ai_assistant.Sse.{SseEvent}
use website_ai_assistant.Stream.{Payload, Stream, ensure_paint, paint_step, frame}
use website_ai_assistant.Stream.Reader.{
  Parsed, malformed, null_value, value, Reader, dispatch, deliver, settle,
}
use website_ai_assistant.Stream.Typing.{IsLive, frame-IsLive}
use website_ai_assistant.Stream.Inputs.{
  Input, event, tick, steps, received, token_of, HasNoNull, deliver-stopped,
}
use website_ai_assistant.Stream.Received.{deliver_closed, deliver-IsLive, frame_closed}
use website_ai_assistant.Exchange.Cuts.{events_of, HaveNoNull}

-- The typewriter finishes only behind `done`, and what it handed on is the text with the last `done`.
pub record IsHanded (s : Stream) : Type 0 where
  pub waits : s.finished ≡ true → s.closed ≡ true
  pub handed : s.finished ≡ true → s.results ≡ (s.streamed, s.finish_meta) ∷ []

abbrev IsSilent : Text → Type 0
IsSilent name = (eq_text name (text "token") ≡ false) × (eq_text name (text "done") ≡ false)

dispatch-IsHanded :
    (name : Text) (v : Parsed) (r : Reader)
    → (r.stream.closed ≡ true → IsSilent name)
    → IsHanded r.stream
    → IsHanded (dispatch name v r).stream
unfolding dispatch ensure_paint
dispatch-IsHanded name malformed r h x = x
dispatch-IsHanded name null_value r h x = ground arith
dispatch-IsHanded name (value d) r h x = ground arith

frame-IsHanded : (s : Stream) → IsLive s → IsHanded s → IsHanded (frame s)
unfolding frame paint_step
frame-IsHanded s l x = ground arith

-- No token and no second `done` behind `done`; the flag tells that it was sent.
abbrev pub IsProtocol : Bool → List SseEvent → Type 0
IsProtocol sent [] = Unit
IsProtocol sent (e ∷ es) =
    (sent ≡ true → IsSilent e.name) × IsProtocol (sent || eq_text e.name (text "done")) es

abbrev pub HaveNoError : List SseEvent → Type 0
HaveNoError = All (λ e. eq_text e.name (text "error") ≡ false)

-- The payload of `done` after one more event.
abbrev pub final_after : Option Payload → Text → Parsed → Option Payload
final_after m name (value d) = if eq_text name (text "done") then some d else m
final_after m name _ = m

dispatch-settled :
    (name : Text) (v : Parsed) (r : Reader)
    → v ≢ null_value
    → eq_text name (text "error") ≡ false
    → (dispatch name v r).settled ≡ r.settled
unfolding dispatch settle
dispatch-settled name malformed r h k = refl
dispatch-settled name null_value r h k = absurd (h refl)
dispatch-settled name (value d) r h k = ground arith

meta_apart : (name : Text) → eq_text name (text "meta") ≡ true → eq_text name (text "done") ≡ false
meta_apart name h = eq_text_apart name (text "meta") (text "done") (unfold eq_text text in refl) h

token_apart :
    (name : Text) → eq_text name (text "token") ≡ true → eq_text name (text "done") ≡ false
token_apart name h = eq_text_apart name (text "token") (text "done") (unfold eq_text text in refl) h

dispatch-finish_meta :
    (name : Text) (v : Parsed) (r : Reader)
    → v ≢ null_value
    → (dispatch name v r).stream.finish_meta ≡ final_after r.stream.finish_meta name v
unfolding dispatch ensure_paint
dispatch-finish_meta name malformed r h = refl
dispatch-finish_meta name null_value r h = absurd (h refl)
dispatch-finish_meta name (value d) r h = ground (arith, meta_apart name, token_apart name)

frame-finish_meta : (s : Stream) → (frame s).finish_meta ≡ s.finish_meta
unfolding frame paint_step
frame-finish_meta s = ground arith

module _ (parse_json : Text → Parsed) where
  -- The text that the events bring together, and the payload of the last `done`.
  abbrev pub said : List SseEvent → Text
  said [] = []
  said (e ∷ es) = token_of e.name (parse_json e.payload) ++ said es

  abbrev pub final_of : Option Payload → List SseEvent → Option Payload
  final_of m [] = m
  final_of m (e ∷ es) = final_of (final_after m e.name (parse_json e.payload)) es

  pub HasNoNull-events :
      (is : List Input) → HaveNoNull parse_json (events_of is) → HasNoNull parse_json is
  HasNoNull-events [] h = h
  HasNoNull-events (event e ∷ is) (p, h) = (p, HasNoNull-events is h)
  HasNoNull-events (tick ∷ is) h = HasNoNull-events is h

  pub received-events : (is : List Input) → received parse_json is ≡ said (events_of is)
  received-events [] = refl
  received-events (event e ∷ is) =
      ap (◌++◌ (token_of e.name (parse_json e.payload))) (received-events is)
  received-events (tick ∷ is) = received-events is

  deliver-IsHanded :
      (r : Reader) (e : SseEvent)
      → (r.stream.closed ≡ true → IsSilent e.name)
      → IsHanded r.stream
      → IsHanded (deliver parse_json r e).stream
  unfolding deliver
  deliver-IsHanded r e h x = ground (arith, dispatch-IsHanded e.name (parse_json e.payload) r h x)

  pub steps-IsHanded :
      (r : Reader) (sent : Bool) (is : List Input)
      → (r.stream.closed ≡ true → sent ≡ true)
      → IsProtocol sent (events_of is)
      → IsLive r.stream
      → IsHanded r.stream
      → IsHanded (steps parse_json r is).stream
  unfolding steps
  steps-IsHanded r sent [] h o l x = x
  steps-IsHanded r sent (event e ∷ is) h (p, o) l x =
      steps-IsHanded (deliver parse_json r e) (sent || eq_text e.name (text "done")) is
        (deliver_closed parse_json r sent e h) o (deliver-IsLive parse_json r e l)
        (deliver-IsHanded r e (λ c. p (h c)) x)
  steps-IsHanded r sent (tick ∷ is) h o l x =
      steps-IsHanded (record r { stream = frame r.stream }) sent is
        (λ c. h (sym (frame_closed r.stream) ∙ c)) o (frame-IsLive r.stream l)
        (frame-IsHanded r.stream l x)

  deliver-kept :
      (r : Reader) (e : SseEvent)
      → r.stopped ≡ false
      → parse_json e.payload ≢ null_value
      → eq_text e.name (text "error") ≡ false
      → ((deliver parse_json r e).settled ≡ r.settled)
        × ((deliver parse_json r e).stream.finish_meta
            ≡ final_after r.stream.finish_meta e.name (parse_json e.payload))
  unfolding deliver
  deliver-kept r e h p k =
      let reached = λ (P : Reader → Type 0) (q : P (dispatch e.name (parse_json e.payload) r)).
        subst (λ b. P (if b then r else dispatch e.name (parse_json e.payload) r)) (sym h) q in
      (
        reached (λ x. x.settled ≡ r.settled) (dispatch-settled e.name _ r p k),
        reached
            (λ x.
              x.stream.finish_meta ≡ final_after r.stream.finish_meta e.name (parse_json e.payload))
            (dispatch-finish_meta e.name _ r p),
      )

  -- The promise is not rejected, and the last `done` is kept.
  pub steps-kept :
      (r : Reader) (is : List Input)
      → r.stopped ≡ false
      → HaveNoNull parse_json (events_of is)
      → HaveNoError (events_of is)
      → ((steps parse_json r is).settled ≡ r.settled)
        × ((steps parse_json r is).stream.finish_meta
            ≡ final_of r.stream.finish_meta (events_of is))
        × ((steps parse_json r is).stopped ≡ false)
  unfolding steps
  steps-kept r [] h k o = (refl, refl, h)
  steps-kept r (event e ∷ is) h (p, k) (q, o) =
      let (settled, meta) = deliver-kept r e h p q in
      let (a, b, c) =
        steps-kept (deliver parse_json r e) is (deliver-stopped parse_json r e h p) k o in
      (a ∙ settled, b ∙ ap (λ m. final_of m (events_of is)) meta, c)
  steps-kept r (tick ∷ is) h k o =
      let (a, b, c) = steps-kept (record r { stream = frame r.stream }) is h k o in
      (a, b ∙ ap (λ m. final_of m (events_of is)) (frame-finish_meta r.stream), c)
