-- ===== src/Exchange.antt =====
-- static/widget/widget.js, `streamChat` from the network to the conversation: the chunks of the response as
-- they come in (`pump`), animation frames between them, and the call of `handleAnswerResultFromEl` by
-- the typewriter. `JSON.parse` is a parameter, and so is what the last payload holds besides the
-- fields of `Payload`.
pub mod Cuts
pub mod Handed
pub mod Delivered
pub mod Endings
pub mod Saved
pub mod Replies
pub mod Settled
mod Tests
use website_ai_assistant.Prelude.{ℕ, List, [], ◌∷◌, Option}
use website_ai_assistant.Text.{Text}
use website_ai_assistant.Stream.{Payload, frame}
use website_ai_assistant.Stream.Reader.{Parsed, Reader, on_chunk}
use website_ai_assistant.History.{Page}
use website_ai_assistant.Answer.{Widget, Setup, Meta}
use website_ai_assistant.Answer.Handlers.{handle_answer_result_from_el}

-- What the page meets while a response is read: the next chunk, or an animation frame.
pub data Turn : Type 0 where
  chunk : Text → Turn
  frame_due : Turn

module _ (parse_json : Text → Parsed) where
  -- `pump`, round by round.
  unfoldable pub pump : Reader → List Turn → Reader
  unfolding on_chunk frame
  pump r [] = r
  pump r (chunk s ∷ ts) = pump (on_chunk parse_json r s) ts
  pump r (frame_due ∷ ts) = pump (record r { stream = frame r.stream }) ts

-- The calls of `handleAnswerResultFromEl` for the row at an index.
module _ (setup : Setup) (page : Page) (now i : ℕ) (meta : Option Payload → Meta) where
  unfoldable pub hand_over : List (Text × Option Payload) → Widget → Widget
  unfolding handle_answer_result_from_el
  hand_over [] w = w
  hand_over ((answer, d) ∷ rs) w =
      hand_over rs (handle_answer_result_from_el setup page now i answer (meta d) w)
