-- ===== src/Skin/Alike.antt =====
-- Where no answer locks the visitor out, the skins handle answers as the widget does.
use website_ai_assistant.Prelude.{
  sym, take, ℕ, Bool, false, not, ◌&&◌, ◌||◌, [], ◌∷◌, ◌++◌, Option, if◌then◌else◌, ◌≡◌, refl, ap,
  ◌∙◌, arith,
}
use website_ai_assistant.Text.{Text}
use website_ai_assistant.Stream.{Payload, Stream}
use website_ai_assistant.Stream.Reader.{
  Ending, waiting, typing, call_backend, nothing, direct, kept_partial, throws, ellipsis,
}
use website_ai_assistant.Chat.{Chat}
use website_ai_assistant.Chat
use website_ai_assistant.History.{bot, Row, Page, add_message}
use website_ai_assistant.Answer.{Meta, Widget, Setup, is_locked, at_row, with_children, saved_now}
use website_ai_assistant.Answer.Handlers.{follow_up}
use website_ai_assistant.Answer.Handlers
use website_ai_assistant.Exchange.Endings.{Called, replied, call_failed, Promise}
use website_ai_assistant.Exchange.Endings
use website_ai_assistant.Skin
use website_ai_assistant.Notice.Words.{words}
use website_ai_assistant.Stream.Reader.{Conversation}
use website_ai_assistant.Backend.{Fetched}
use website_ai_assistant.Backend
use website_ai_assistant.Skin.Unlocked.{told, without_lock, is_block, call_backend-IsAgreed}
use website_ai_assistant.Skin.Calls.{
  result_payload, skin_payload, called_by, skin_called_by, locks_out, IsOpenReply,
  call_backend-IsOpenReply, by_reply,
}
use website_ai_assistant.Skin.Ends

kept_feedback : (b l : Bool) → l ≡ false → (b && not l) ≡ b
kept_feedback b l h = ground arith

handle_answer-same :
    (t : Text) (d : Payload) (c : Chat)
    → (d.guard_blocked || d.quota_locked) ≡ false
    → Chat.handle_answer t d c ≡ Skin.handle_answer t d c
unfolding Chat.handle_answer Skin.handle_answer
handle_answer-same t d c h = rw h refl

type_out-same :
    (t : Text) (d : Payload) (c : Chat)
    → (d.guard_blocked || d.quota_locked) ≡ false
    → Chat.type_out t d c ≡ c
unfolding Chat.type_out
type_out-same t d c h = rw h refl

module _ (setup : Setup) (page : Page) (now : ℕ) (t : Text) (d : Meta) (w : Widget) where
  -- Both ways to handle an answer, by whether it gets feedback and whether it locks.
  abbrev parts_with : Bool → Widget → Widget
  parts_with b v = record (Ends.with_parts setup page t d v) {
    feedbacks =
        if b
        then v.feedbacks
          ++ record {
            question = take 200 v.messages.last_user_message;
            answer = take 300 t;
            message_id = d.message_id;
          }
            ∷ []
        else v.feedbacks;
  }

  abbrev whole_with : Bool → Bool → Chat → Widget
  whole_with b l c = follow_up setup now t d (record (parts_with b w) {
    messages =
        add_message page now t bot (record (Ends.answer_opts setup page d) { skip_feedback = l })
          w.messages;
    chat = c;
  })

  abbrev row_with : Bool → Row → Row
  row_with b r = record (Ends.finished_row setup page t d r) { has_feedback = b || r.has_feedback }

  abbrev streamed_with : ℕ → Bool → Chat → Widget
  streamed_with i b c = saved_now now (
      follow_up setup now t d
        (record (parts_with b (with_children (at_row i (row_with b) w.messages.children) w)) {
          chat = c;
        }))

  handle_answer_result-same :
      is_locked d ≡ false
      → Handlers.handle_answer_result setup page now t d w
        ≡ Ends.handle_answer_result setup page now t d w
  unfolding Handlers.handle_answer_result Ends.handle_answer_result
  handle_answer_result-same h =
      ap (λ b. whole_with b (is_locked d) (Chat.handle_answer t d.payload w.chat))
        (kept_feedback page.show_feedback (is_locked d) h)
      ∙ ap (λ l. whole_with page.show_feedback l (Chat.handle_answer t d.payload w.chat)) h
      ∙ ap (whole_with page.show_feedback false) (handle_answer-same t d.payload w.chat h)

  from_el-same :
      (i : ℕ)
      → is_locked d ≡ false
      → Handlers.handle_answer_result_from_el setup page now i t d w
        ≡ Ends.handle_answer_result_from_el setup page now i t d w
  unfolding Handlers.handle_answer_result_from_el Ends.handle_answer_result_from_el
  from_el-same i h =
      ap (λ b. streamed_with i b (Chat.type_out t d.payload w.chat))
        (kept_feedback page.show_feedback (is_locked d) h)
      ∙ ap (streamed_with i page.show_feedback) (type_out-same t d.payload w.chat h)

-- The stream did not end with an answer but no token.
abbrev pub IsIndirect : Ending → Type 0
IsIndirect (direct d t) = ⊥
IsIndirect _ = Unit

module _ (setup : Setup) (page : Page) (now i : ℕ) (meta : Option Payload → Meta) where
  abbrev with_fallback : Meta → Payload → Bool → Meta
  with_fallback extra d b = record extra { payload = record d { fallback = b } }

  -- A skin reads of the payload whether it is a fallback, and nothing else.
  skin_result-payload :
      (t : Text) (extra : Meta) (d e : Payload) (w : Widget)
      → d.fallback ≡ e.fallback
      → Ends.handle_answer_result setup page now t (record extra { payload = d }) w
        ≡ Ends.handle_answer_result setup page now t (record extra { payload = e }) w
  unfolding Ends.handle_answer_result Skin.handle_answer follow_up
  skin_result-payload t extra d e w h =
      ap (λ b. Ends.handle_answer_result setup page now t (with_fallback extra d b) w) h

  answered_same :
      (extra : Meta) (r : Skin.Result) (s : Backend.Result) (w : Widget)
      → r.answer ≡ words s.answer
      → r.fallback ≡ s.fallback
      → (s.guard_blocked || s.quota_locked) ≡ false
      → Handlers.handle_answer_result setup page now
          (words s.answer)
          (record extra { payload = result_payload s })
          w
        ≡ Ends.handle_answer_result setup page now r.answer
            (record extra { payload = skin_payload r })
            w
  answered_same extra r s w e f h =
      handle_answer_result-same setup page now (words s.answer)
        (record extra { payload = result_payload s }) w h
      ∙ ap
          (λ t.
            Ends.handle_answer_result setup page now t (record extra { payload = result_payload s })
              w)
          (sym e)
      ∙ skin_result-payload r.answer extra (result_payload s) (skin_payload r) w (sym f)

  answer_called-same :
      (extra : Meta) (p : Skin.Reply) (q : Backend.Reply) (w : Widget)
      → told p ≡ without_lock q
      → IsOpenReply q
      → Endings.answer_called setup page now i meta (called_by extra q) w
        ≡ Ends.answer_called setup page now i meta (skin_called_by extra p) w
  unfolding Endings.answer_called Ends.answer_called
  answer_called-same extra p q w h =
      by_reply
        (λ x y.
          IsOpenReply y
          → Endings.answer_called setup page now i meta (called_by extra y) w
            ≡ Ends.answer_called setup page now i meta (skin_called_by extra x) w)
        p q h
        (λ r s e f k.
          ap (λ v. (v, Endings.fulfilled)) (answered_same extra r s (Endings.asked_again w) e f k))
        (λ m n e k. ap (λ x. (Endings.asked_again w, Endings.thrown x)) (sym e))

  -- Where the stream did not end with an answer but no token, its last payload does not lock the visitor
  -- out, and the response to the call in its place neither does that nor has status 403 with an answer:
  -- skin and widget go on from the settled promise in the same way, with the same conversation,
  -- composer, requests and error.
  pub finish_stream-same :
      (f : Fetched) (ids : Conversation) (extra : Meta) (e : Ending) (s : Stream) (w : Widget)
      → is_block f ≡ false
      → locks_out f ≡ false
      → is_locked (meta s.finish_meta) ≡ false
      → IsIndirect e
      → Endings.finish_stream setup page now i meta
          (called_by extra (Backend.call_backend f ids).1)
          e
          s
          w
        ≡ Ends.finish_stream setup page now i meta
            (skin_called_by extra (Skin.call_backend f ids).1)
            e
            s
            w
  unfolding Endings.finish_stream Ends.finish_stream
  finish_stream-same f ids extra waiting s w h k o u = refl
  finish_stream-same f ids extra typing s w h k o u = refl
  finish_stream-same f ids extra call_backend s w h k o u =
      answer_called-same extra (Skin.call_backend f ids).1 (Backend.call_backend f ids).1 w
        (call_backend-IsAgreed f ids h).1 (call_backend-IsOpenReply f ids k)
  finish_stream-same f ids extra nothing s w h k o u = refl
  finish_stream-same f ids extra (direct d t) s w h k o u = absurd u
  finish_stream-same f ids extra kept_partial s w h k o u =
      ap (λ v. (v, Endings.fulfilled))
        (from_el-same setup page now (s.streamed ++ ellipsis) (meta s.finish_meta) w i o)
  finish_stream-same f ids extra (throws n) s w h k o u = refl
