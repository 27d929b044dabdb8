-- ===== src/Skin/Unlocked.antt =====
-- What a skin does where the server locks a visitor out.
use website_ai_assistant.Prelude.{
  ◌⊎◌, inl, inr, ℕ, Bool, true, false, not, ◌&&◌, ◌||◌, ◌==◌, [], ◌∷◌, ◌++◌, Option, some,
  if◌then◌else◌, ◌≡◌, refl, arith, is_empty,
}
use website_ai_assistant.Text.{Text}
use website_ai_assistant.Notice.{Notice, said}
use website_ai_assistant.Stream.{Payload}
use website_ai_assistant.Chat.{Chat, answered, set_loading}
use website_ai_assistant.Chat
use website_ai_assistant.Backend.{
  Field, absent, str, other, Body, no_fields, unreadable, null_body, object, Fetched, aborted,
  unreachable, response, is_ok, is_truthy, first_answer,
}
use website_ai_assistant.Backend
use website_ai_assistant.Stream.Reader.{Conversation}
use website_ai_assistant.Skin

-- How a call ends, without what it says of a lock.
abbrev pub without_lock : Backend.Reply → Option Notice ⊎ (Notice × Bool)
without_lock (Backend.returns r) = inr (r.answer, r.fallback)
without_lock (Backend.throws n) = inl n

abbrev pub told : Skin.Reply → Option Notice ⊎ (Notice × Bool)
told (Skin.returns r) = inr (said r.answer, r.fallback)
told (Skin.throws n) = inl n

-- The response with which the server blocks a visitor.
abbrev pub is_block : Fetched → Bool
is_block aborted = false
is_block unreachable = false
is_block (response status unreadable) = false
is_block (response status null_body) = false
is_block (response status (object d)) =
    not (is_ok status)
    && (status == 403 && (d.guard_blocked || d.quota_locked || is_truthy d.answer))

-- Two calls agree on the ids and on all but the lock.
abbrev pub IsAgreed : Conversation × Skin.Reply → Conversation × Backend.Reply → Type 0
IsAgreed (c, r) (d, q) = (c ≡ d) × (told r ≡ without_lock q)

on_answer_same :
    (a : Field) (d : Body) (c : Conversation)
    → IsAgreed (Skin.on_answer a d c) (Backend.on_answer a d c)
unfolding Skin.on_answer Backend.on_answer Backend.result_of
on_answer_same absent d c = (refl, refl)
on_answer_same (str s) d c = (ground arith, ground arith)
on_answer_same (other s) d c = (refl, refl)

on_failure_same :
    (status : ℕ) (d : Body) (c : Conversation)
    → (status == 403 && (d.guard_blocked || d.quota_locked || is_truthy d.answer)) ≡ false
    → IsAgreed
        (c, Skin.throws (some (Backend.status_message status d)))
        (Backend.on_failure status d c)
unfolding Backend.on_failure
on_failure_same status d c e = (ground arith, ground arith)

both_branches :
    (b : Bool) (x y : Conversation × Skin.Reply) (v w : Conversation × Backend.Reply)
    → (b ≡ true → IsAgreed x v)
    → (b ≡ false → IsAgreed y w)
    → IsAgreed (if b then x else y) (if b then v else w)
both_branches true x y v w p q = p refl
both_branches false x y v w p q = q refl

on_body_same :
    (status : ℕ) (d : Body) (c : Conversation)
    → is_block (response status (object d)) ≡ false
    → IsAgreed (Skin.on_body status d c) (Backend.on_body status d c)
unfolding Skin.on_body Backend.on_body
on_body_same status d c e =
    both_branches (is_ok status) (Skin.on_answer (first_answer d) d c)
      (c, Skin.throws (some (Backend.status_message status d)))
      (Backend.on_answer (first_answer d) d c) (Backend.on_failure status d c)
      (λ k. on_answer_same (first_answer d) d c) (λ k. on_failure_same status d c (ground arith))

no_block : (status : ℕ) → is_block (response status (object no_fields)) ≡ false
unfolding is_truthy
no_block status = ground arith

-- Whatever becomes of a request without streaming, other than a response with which the server
-- blocks the visitor: skin and widget keep the same ids, return the same answer with the same
-- `fallback`, or throw an error with the same message for the user.
pub call_backend-IsAgreed :
    (f : Fetched) (c : Conversation)
    → is_block f ≡ false
    → IsAgreed (Skin.call_backend f c) (Backend.call_backend f c)
unfolding Skin.call_backend Backend.call_backend
call_backend-IsAgreed aborted c e = (refl, refl)
call_backend-IsAgreed unreachable c e = (refl, refl)
call_backend-IsAgreed (response status unreadable) c e =
    on_body_same status no_fields c (no_block status)
call_backend-IsAgreed (response status null_body) c e = (refl, refl)
call_backend-IsAgreed (response status (object d)) c e = on_body_same status d c e

-- A lock in an answer: the widget sends no further message, and the skin the next one as ever.
pub send_text-settle :
    (streaming : Bool) (msg t : Text) (d : Payload) (c : Chat)
    → is_empty msg ≡ false
    → (d.guard_blocked || d.quota_locked) ≡ true
    → ((Chat.send_text true streaming msg (Chat.settle (answered t d) c)).requests ≡ c.requests)
      × ((Skin.send_text true streaming msg (Skin.settle (answered t d) c)).requests
          ≡ c.requests ++ msg ∷ [])
unfolding Chat.send_text Chat.settle Chat.conclude Chat.handle_answer Chat.block Skin.send_text
    Skin.settle Skin.conclude Skin.handle_answer set_loading Chat.update_send_state
    Chat.start_status Chat.stop_status
send_text-settle streaming msg t d c e h = (ground arith, ground arith)
