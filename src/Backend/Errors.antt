-- ===== src/Backend/Errors.antt =====
-- What the visitor is told when a request fails, and how the two ways of asking agree.
use website_ai_assistant.Prelude.{
  ℕ, ◌<◌, Bool, true, false, ◌≡◌, ◌≢◌, refl, arith, none, some, Bool-cases, is_empty, inl, inr,
}
use website_ai_assistant.Text.{Text, trim}
use website_ai_assistant.Notice.{Notice, said}
use website_ai_assistant.Stream.Reader.{Conversation}
use website_ai_assistant.Backend.{
  Field, absent, str, other, Body, Json, unreadable, null_body, object, response, returns, throws,
  Result, no_fields, is_ok, on_answer, on_failure, on_body, call_backend, first_answer, result_of,
  status_message, stream_message, open_stream, rejects, block_result,
}

on_body-agree :
    (has_reader : Bool) (status : ℕ) (d : Body) (c : Conversation)
    → is_ok status ≡ false
    → status < 500
    → status ≢ 403
    → (on_body status d c).1 ≡ throws (some (stream_message status d))
unfolding on_body on_failure status_message stream_message
on_body-agree r status d c e f g = ground arith

-- For a failed status below 500 other than 403, and a body that is not `null`, a request without
-- streaming and one with it give the visitor the same message.
pub call_backend-agree :
    (has_reader : Bool) (status : ℕ) (b : Json) (c : Conversation)
    → is_ok status ≡ false
    → status < 500
    → status ≢ 403
    → b ≢ null_body
    → (m : Notice) × ((call_backend (response status b) c).1 ≡ throws (some m))
      × (open_stream has_reader status b ≡ rejects (some m))
unfolding call_backend open_stream
call_backend-agree r status unreadable c e f g h =
    (stream_message status no_fields, on_body-agree r status no_fields c e f g, ground arith)
call_backend-agree r status null_body c e f g h = absurd (h refl)
call_backend-agree r status (object d) c e f g h =
    (stream_message status d, on_body-agree r status d c e f g, ground arith)

-- A block by the server, status 403 with `guard_blocked`: a request without streaming returns an
-- answer that says so, and one with streaming is rejected with an error, whatever else the body holds.
pub call_backend-blocked :
    (has_reader : Bool) (d : Body) (c : Conversation)
    → d.guard_blocked ≡ true
    → (r : Result) × ((call_backend (response 403 (object d)) c).1 ≡ returns r)
      × (r.guard_blocked ≡ true)
      × (open_stream has_reader 403 (object d) ≡ rejects (some (stream_message 403 d)))
unfolding call_backend on_body on_failure open_stream is_ok block_result
call_backend-blocked h d c e = (block_result d, ground arith, ground arith, refl)

on_answer-shown :
    (f : Field) (d : Body) (c : Conversation) (r : Result)
    → (on_answer f d c).1 ≡ returns r
    → (t : Text) × (r.answer ≡ said t) × (is_empty t ≡ false)
unfolding on_answer result_of
on_answer-shown absent d c r e = absurd (ground arith)
on_answer-shown (other s) d c r e = absurd (ground arith)
on_answer-shown (str s) d c r e = elim (Bool-cases (is_empty (trim s))) [
  | inl f ↦ absurd (ground arith)
  | inr f ↦ (trim s, ground arith, f)
]

on_body-shown :
    (status : ℕ) (d : Body) (c : Conversation) (r : Result)
    → is_ok status ≡ true
    → (on_body status d c).1 ≡ returns r
    → (t : Text) × (r.answer ≡ said t) × (is_empty t ≡ false)
unfolding on_body
on_body-shown status d c r e f = on_answer-shown (first_answer d) d c r (ground arith)

-- The answer that a request without streaming returns for a successful status is the server's text,
-- trimmed, and it is not empty, whatever the body.
pub call_backend-answer :
    (status : ℕ) (b : Json) (c : Conversation) (r : Result)
    → is_ok status ≡ true
    → (call_backend (response status b) c).1 ≡ returns r
    → (t : Text) × (r.answer ≡ said t) × (is_empty t ≡ false)
unfolding call_backend
call_backend-answer status unreadable c r e f = on_body-shown status no_fields c r e f
call_backend-answer status null_body c r e f = absurd (ground arith)
call_backend-answer status (object d) c r e f = on_body-shown status d c r e f

-- A failed status with a body that is not `null` is never left without a message for the visitor:
-- the request without streaming returns an answer or throws with a message, and the stream is
-- rejected with one.
pub call_backend-explained :
    (has_reader : Bool) (status : ℕ) (b : Json) (c : Conversation)
    → is_ok status ≡ false
    → b ≢ null_body
    → ((call_backend (response status b) c).1 ≢ throws none)
      × ((m : Notice) × (open_stream has_reader status b ≡ rejects (some m)))
unfolding call_backend on_body on_failure open_stream
call_backend-explained r status unreadable c e h =
    (λ f. ground arith, (stream_message status no_fields, ground arith))
call_backend-explained r status null_body c e h = absurd (h refl)
call_backend-explained r status (object d) c e h =
    (λ f. ground arith, (stream_message status d, ground arith))
