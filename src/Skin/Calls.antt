-- ===== src/Skin/Calls.antt =====
-- static/widget/widget-minimal.js and static/widget/widget.js: what is done with the end of `callBackend`.
-- Citations, message id and rules, which Backend leaves out, come as `extra`.
use website_ai_assistant.Prelude.{
  ◌⊎◌, inl, inr, ℕ, Bool, true, false, ◌||◌, ◌&&◌, ◌==◌, some, [], Option, none, is_empty, ◌≡◌,
  refl, sym, ap, arith, if_both,
}
use website_ai_assistant.Text.{Text, trim}
use website_ai_assistant.Notice.{Notice, said}
use website_ai_assistant.Notice.Words.{words}
use website_ai_assistant.Stream.{Payload}
use website_ai_assistant.Stream.Reader.{Conversation}
use website_ai_assistant.Chat.{Outcome, answered, failed}
use website_ai_assistant.Backend.{
  Field, absent, str, other, Body, no_fields, unreadable, null_body, object, Fetched, aborted,
  unreachable, response, is_ok, is_truthy, take_ids, first_answer,
}
use website_ai_assistant.Backend
use website_ai_assistant.Answer.{Meta}
use website_ai_assistant.Exchange.Endings.{Called, replied, call_failed}
use website_ai_assistant.Skin
use website_ai_assistant.Skin.Unlocked.{told, without_lock}

-- The fields of a result that are read behind `callBackend`.
abbrev payload_with :
    (answer : Text) → (fallback blocked locked : Bool) → (message : Text) → Payload
payload_with a f b l m = record {
  conversation_id = [];
  conversation_token = [];
  token = [];
  answer = a;
  message = [];
  quota_message = m;
  quota_locked = l;
  guard_blocked = b;
  fallback = f;
}

abbrev pub result_payload : Backend.Result → Payload
result_payload r =
    payload_with (words r.answer) r.fallback r.guard_blocked r.quota_locked r.quota_message

abbrev pub skin_payload : Skin.Result → Payload
skin_payload r = payload_with r.answer r.fallback false false []

-- For the composer.
abbrev pub outcome : Backend.Reply → Outcome
outcome (Backend.returns r) = answered (words r.answer) (result_payload r)
outcome (Backend.throws n) = failed n

abbrev pub skin_outcome : Skin.Reply → Outcome
skin_outcome (Skin.returns r) = answered r.answer (skin_payload r)
skin_outcome (Skin.throws n) = failed n

-- For the conversation.
abbrev pub called_by : Meta → Backend.Reply → Called
called_by extra (Backend.returns r) =
    replied (words r.answer) (record extra { payload = result_payload r })
called_by extra (Backend.throws n) = call_failed n

abbrev pub skin_called_by : Meta → Skin.Reply → Called
skin_called_by extra (Skin.returns r) = replied r.answer (record extra { payload = skin_payload r })
skin_called_by extra (Skin.throws n) = call_failed n

-- The response says that the visitor is locked out.
abbrev pub locks_out : Fetched → Bool
locks_out (response status (object d)) = d.guard_blocked || d.quota_locked
locks_out _ = false

abbrev pub IsOpenReply : Backend.Reply → Type 0
IsOpenReply (Backend.returns r) = (r.guard_blocked || r.quota_locked) ≡ false
IsOpenReply (Backend.throws n) = Unit

abbrev IsOpenEnd : Conversation × Backend.Reply → Type 0
IsOpenEnd p = IsOpenReply p.1

on_answer-IsOpenEnd :
    (a : Field) (d : Body) (c : Conversation)
    → (d.guard_blocked || d.quota_locked) ≡ false
    → IsOpenEnd (Backend.on_answer a d c)
unfolding Backend.on_answer Backend.result_of
on_answer-IsOpenEnd absent d c h = tt
on_answer-IsOpenEnd (str s) d c h = if_both IsOpenEnd (is_empty (trim s)) tt h
on_answer-IsOpenEnd (other s) d c h = tt

on_body-IsOpenEnd :
    (status : ℕ) (d : Body) (c : Conversation)
    → (d.guard_blocked || d.quota_locked) ≡ false
    → IsOpenEnd (Backend.on_body status d c)
unfolding Backend.on_body Backend.on_failure Backend.block_result
on_body-IsOpenEnd status d c h =
    if_both IsOpenEnd (is_ok status) (on_answer-IsOpenEnd (first_answer d) d c h) (
      if_both IsOpenEnd (status == 403 && (d.guard_blocked || d.quota_locked || is_truthy d.answer))
        {x = (take_ids d c, Backend.returns (Backend.block_result d))}
        {y = (c, Backend.throws (some (Backend.status_message status d)))} h tt)

pub call_backend-IsOpenReply :
    (f : Fetched) (c : Conversation)
    → locks_out f ≡ false
    → IsOpenReply (Backend.call_backend f c).1
unfolding Backend.call_backend
call_backend-IsOpenReply aborted c h = tt
call_backend-IsOpenReply unreachable c h = tt
call_backend-IsOpenReply (response status unreadable) c h =
    on_body-IsOpenEnd status no_fields c refl
call_backend-IsOpenReply (response status null_body) c h = tt
call_backend-IsOpenReply (response status (object d)) c h = on_body-IsOpenEnd status d c h

-- What two replies that agree have in common.
abbrev returned : Option Notice ⊎ (Notice × Bool) → Bool
returned (inl n) = false
returned (inr p) = true

abbrev notice_in : Option Notice ⊎ (Notice × Bool) → Notice
notice_in (inl n) = said []
notice_in (inr (a, f)) = a

abbrev fallback_in : Option Notice ⊎ (Notice × Bool) → Bool
fallback_in (inl n) = false
fallback_in (inr (a, f)) = f

abbrev error_in : Option Notice ⊎ (Notice × Bool) → Option Notice
error_in (inl n) = n
error_in (inr p) = none

apart : true ≡ false → ⊥
apart h = ground arith

-- A property of what two agreeing replies amount to, shown for two results and for two errors.
pub by_reply :
    (P : Skin.Reply → Backend.Reply → Type 0) (p : Skin.Reply) (q : Backend.Reply)
    → told p ≡ without_lock q
    → ((r : Skin.Result) (s : Backend.Result)
        → r.answer ≡ words s.answer
        → r.fallback ≡ s.fallback
        → P (Skin.returns r) (Backend.returns s))
    → ((m n : Option Notice) → m ≡ n → P (Skin.throws m) (Backend.throws n))
    → P p q
unfolding words
by_reply P (Skin.returns r) (Backend.returns s) e f g =
    f r s (ap (λ x. words (notice_in x)) e) (ap fallback_in e)
by_reply P (Skin.throws m) (Backend.throws n) e f g = g m n (ap error_in e)
by_reply P (Skin.returns r) (Backend.throws n) e f g = absurd (apart (ap returned e))
by_reply P (Skin.throws m) (Backend.returns s) e f g = absurd (apart (sym (ap returned e)))
