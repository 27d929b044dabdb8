-- ===== src/Skin/Agrees.antt =====
-- As long as the server locks nobody out, a skin and the widget do the same where answers do not stream.
use website_ai_assistant.Prelude.{Bool, false, ◌||◌, List, [], ◌∷◌, ◌≡◌, refl, ap, ◌∙◌, arith, All}
use mathlib.Core.Path.{ap₂}
use website_ai_assistant.Text.{Text, trim}
use website_ai_assistant.Notice.Words.{words}
use website_ai_assistant.Stream.{Payload}
use website_ai_assistant.Stream.Reader.{Conversation}
use website_ai_assistant.Chat.{
  Chat, Outcome, answered, typed, failed, update_send_state, next_status, set_loading,
}
use website_ai_assistant.Chat
use website_ai_assistant.Backend.{Fetched}
use website_ai_assistant.Backend
use website_ai_assistant.Skin
use website_ai_assistant.Skin.Unlocked.{told, without_lock, is_block, call_backend-IsAgreed}
use website_ai_assistant.Skin.Calls.{
  result_payload, skin_payload, outcome, skin_outcome, locks_out, IsOpenReply,
  call_backend-IsOpenReply, by_reply,
}

-- What user, network and timers do to a composer on a site without streaming; the network gives the
-- outcome of `fetch`.
pub data Event : Type 0 where
  types : Text → Event
  enters clicks : (online : Bool) → Event
  picks : (online : Bool) → Text → Event
  responds : Fetched → Event
  ticks : Event

-- No response blocks the visitor or locks the quota.
abbrev pub IsOpenEvent : Event → Type 0
IsOpenEvent (responds f) = (is_block f ≡ false) × (locks_out f ≡ false)
IsOpenEvent _ = Unit

-- The ids of the conversation, and the composer.
abbrev pub State : Type 0
State = Conversation × Chat

unfoldable pub widget_step : Event → State → State
unfolding Chat.send Chat.click_send Chat.send_text Chat.settle Backend.call_backend
    update_send_state next_status
widget_step (types t) (i, c) = (i, update_send_state (record c { value = t }))
widget_step (enters o) (i, c) = (i, Chat.send o false c)
widget_step (clicks o) (i, c) = (i, Chat.click_send o false c)
widget_step (picks o t) (i, c) = (i, Chat.send_text o false t c)
widget_step (responds f) (i, c) =
    let (j, reply) = Backend.call_backend f i in (j, Chat.settle (outcome reply) c)
widget_step ticks (i, c) = (i, next_status c)

unfoldable pub skin_step : Event → State → State
unfolding Skin.send Skin.click_send Skin.send_text Skin.settle Skin.call_backend update_send_state
    next_status
skin_step (types t) (i, c) = (i, update_send_state (record c { value = t }))
skin_step (enters o) (i, c) = (i, Skin.send o false c)
skin_step (clicks o) (i, c) = (i, Skin.click_send o false c)
skin_step (picks o t) (i, c) = (i, Skin.send_text o false t c)
skin_step (responds f) (i, c) =
    let (j, reply) = Skin.call_backend f i in (j, Skin.settle (skin_outcome reply) c)
skin_step ticks (i, c) = (i, next_status c)

unfoldable pub run : (Event → State → State) → List Event → State → State
run step [] c = c
run step (e ∷ es) c = run step es (step e c)

send_text_same :
    (o s : Bool) (t : Text) (c : Chat)
    → c.is_blocked ≡ false
    → Skin.send_text o s t c ≡ Chat.send_text o s t c
unfolding Skin.send_text Chat.send_text
send_text_same o s t c e = ground arith

send_same : (o s : Bool) (c : Chat) → c.is_blocked ≡ false → Skin.send o s c ≡ Chat.send o s c
unfolding Skin.send Chat.send
send_same o s c e = ground (arith, send_text_same o s (trim c.value) (record c { value = [] }) e)

click_send_same :
    (o s : Bool) (c : Chat) → c.is_blocked ≡ false → Skin.click_send o s c ≡ Chat.click_send o s c
unfolding Skin.click_send Chat.click_send
click_send_same o s c e = ground (arith, send_same o s c e)

handle_same :
    (s t : Text) (d e : Payload) (c : Chat)
    → s ≡ t
    → (e.guard_blocked || e.quota_locked) ≡ false
    → Skin.handle_answer s d c ≡ Chat.handle_answer t e c
unfolding Skin.handle_answer Chat.handle_answer
handle_same s t d e c h k = rw (h, k) refl

conclude_same :
    (p : Skin.Reply) (q : Backend.Reply) (c : Chat)
    → told p ≡ without_lock q
    → IsOpenReply q
    → Skin.conclude (skin_outcome p) c ≡ Chat.conclude (outcome q) c
unfolding Skin.conclude Chat.conclude
conclude_same p q c h =
    by_reply (λ x y. IsOpenReply y → Skin.conclude (skin_outcome x) c ≡ Chat.conclude (outcome y) c)
      p q h
      (λ r s e f k. handle_same r.answer (words s.answer) (skin_payload r) (result_payload s) c e k)
      (λ m n e k. ap (λ x. Chat.conclude (failed x) c) e)

responds_same :
    (f : Fetched) (i : Conversation) (c : Chat)
    → is_block f ≡ false
    → locks_out f ≡ false
    → skin_step (responds f) (i, c) ≡ widget_step (responds f) (i, c)
unfolding skin_step widget_step Skin.settle Chat.settle
responds_same f i c h k =
    let (ids, reply) = call_backend-IsAgreed f i h in
    ap₂ (λ j d. (j, d)) ids
      (ap (set_loading false) (
        conclude_same (Skin.call_backend f i).1 (Backend.call_backend f i).1
          (record c { abort_stream = false }) reply (call_backend-IsOpenReply f i k)))

step_same :
    (e : Event) (i : Conversation) (c : Chat)
    → IsOpenEvent e
    → c.is_blocked ≡ false
    → skin_step e (i, c) ≡ widget_step e (i, c)
unfolding skin_step widget_step
step_same (types t) i c h b = refl
step_same (enters o) i c h b = ap (λ d. (i, d)) (send_same o false c b)
step_same (clicks o) i c h b = ap (λ d. (i, d)) (click_send_same o false c b)
step_same (picks o t) i c h b = ap (λ d. (i, d)) (send_text_same o false t c b)
step_same (responds f) i c (h, k) b = responds_same f i c h k
step_same ticks i c h b = refl

send_text-is_blocked :
    (o s : Bool) (t : Text) (c : Chat) → (Skin.send_text o s t c).is_blocked ≡ c.is_blocked
unfolding Skin.send_text set_loading update_send_state Chat.start_status Chat.stop_status
send_text-is_blocked o s t c = ground arith

conclude-is_blocked : (o : Outcome) (c : Chat) → (Skin.conclude o c).is_blocked ≡ c.is_blocked
unfolding Skin.conclude Skin.handle_answer
conclude-is_blocked (answered t d) c = refl
conclude-is_blocked typed c = refl
conclude-is_blocked (failed n) c = refl

-- No step of a skin changes the lock.
step-is_blocked :
    (e : Event) (i : Conversation) (c : Chat) → (skin_step e (i, c)).1.is_blocked ≡ c.is_blocked
unfolding skin_step Skin.send Skin.click_send Skin.settle set_loading update_send_state next_status
    Chat.start_status Chat.stop_status
step-is_blocked (types t) i c = refl
step-is_blocked (enters o) i c =
    ground (arith, send_text-is_blocked o false (trim c.value) (record c { value = [] }))
step-is_blocked (clicks o) i c =
    ground (arith, send_text-is_blocked o false (trim c.value) (record c { value = [] }))
step-is_blocked (picks o t) i c = send_text-is_blocked o false t c
step-is_blocked (responds f) i c =
    conclude-is_blocked (skin_outcome (Skin.call_backend f i).1) (record c { abort_stream = false })
step-is_blocked ticks i c = refl

-- On a site without streaming, from a composer that is not blocked, whatever the visitor types and
-- sends, online or not, and whatever becomes of the requests: as long as no response blocks the visitor
-- or locks the quota, nor has status 403 with an answer, the conversation's ids, the composer, the
-- requests and the messages of a skin are those of the widget.
pub run-skin_step :
    (es : List Event) (i : Conversation) (c : Chat)
    → All IsOpenEvent es
    → c.is_blocked ≡ false
    → run skin_step es (i, c) ≡ run widget_step es (i, c)
unfolding run
run-skin_step [] i c h b = refl
run-skin_step (e ∷ es) i c (h, hs) b =
    let (j, d) = skin_step e (i, c) in
    run-skin_step es j d hs (step-is_blocked e i c ∙ b)
    ∙ ap (run widget_step es) (step_same e i c h b)
