-- ===== src/Exchange/Saved.antt =====
-- What a streamed request leaves in the stored history.
use website_ai_assistant.Prelude.{
  ℕ, true, false, List, [], ◌∷◌, ◌++◌, Option, some, arith, length, ◌≡◌, refl, ap, inl, inr,
  Bool-cases, ◌⊎◌,
}
use website_ai_assistant.Text.{Text}
use website_ai_assistant.Notice.{Notice}
use website_ai_assistant.Stream.{Payload, Stream}
use website_ai_assistant.Stream.Reader.{
  Ending, waiting, typing, call_backend, nothing, direct, kept_partial, throws, ellipsis,
}
use website_ai_assistant.History.{Page, unmark, append_row, add_message, save_local_history}
use website_ai_assistant.Answer.{Widget, Setup, Meta}
use website_ai_assistant.Answer.Handlers.{handle_answer_result, handle_answer_result_from_el}
use website_ai_assistant.Answer.Paths.{follow_up-IsSaved, last_is_row-append}
use website_ai_assistant.Exchange.{hand_over}
use website_ai_assistant.Exchange.Endings.{
  asked_again, Called, replied, call_failed, conclude, report, answer_called, finish_stream,
}

-- Saving at a time would change nothing: what is stored is the list that is shown.
abbrev pub IsSaved : ℕ → Widget → Type 0
IsSaved now w = save_local_history now w.messages ≡ w.messages

module _ (setup : Setup) (page : Page) (now : ℕ) where
  whole-IsSaved :
      (t : Text) (d : Meta) (w : Widget) → IsSaved now (handle_answer_result setup page now t d w)
  unfolding handle_answer_result add_message append_row save_local_history
  whole-IsSaved t d w =
      ap (λ x. x.messages)
        (follow_up-IsSaved setup now t d _ (last_is_row-append (unmark w.messages.children) _) refl)

  from_el-IsSaved :
      (i : ℕ) (t : Text) (d : Meta) (w : Widget)
      → IsSaved now (handle_answer_result_from_el setup page now i t d w)
  unfolding handle_answer_result_from_el save_local_history
  from_el-IsSaved i t d w = refl

  report-IsSaved : (n : Option Notice) (w : Widget) → IsSaved now (report page now n w)
  unfolding report add_message append_row save_local_history
  report-IsSaved n w = refl

  module _ (i : ℕ) (meta : Option Payload → Meta) where
    hand_over-IsSaved :
        (rs : List (Text × Option Payload)) (w : Widget)
        → IsSaved now w
        → IsSaved now (hand_over setup page now i meta rs w)
    unfolding hand_over
    hand_over-IsSaved [] w h = h
    hand_over-IsSaved ((t, d) ∷ rs) w h = hand_over-IsSaved rs _ (from_el-IsSaved i t (meta d) w)

    pub handed-IsSaved :
        (rs : List (Text × Option Payload)) (w : Widget)
        → length rs ≡ 1
        → IsSaved now (hand_over setup page now i meta rs w)
    unfolding hand_over
    handed-IsSaved [] w h = absurd (ground arith)
    handed-IsSaved ((t, d) ∷ rs) w h = hand_over-IsSaved rs _ (from_el-IsSaved i t (meta d) w)

    -- Saved, or the typewriter is still at work.
    abbrev pub IsSavedOrTyping : Ending → Stream → Widget → Type 0
    IsSavedOrTyping e s w = IsSaved now w ⊎ ((e ≡ typing) × (s.finished ≡ false))

    pub ended-IsSavedOrTyping :
        (called : Called) (e : Ending) (s : Stream) (w : Widget)
        → (s.finished ≡ true → IsSaved now w)
        → (e ≡ nothing → ⊥)
        → (e ≡ waiting → ⊥)
        → IsSavedOrTyping e s (conclude page now (finish_stream setup page now i meta called e s w))
    unfolding conclude finish_stream answer_called
    ended-IsSavedOrTyping called waiting s w h k l = absurd (l refl)
    ended-IsSavedOrTyping called typing s w h k l = elim (Bool-cases s.finished) [
      | inl over ↦ inl (h over)
      | inr more ↦ inr (refl, more)
    ]
    ended-IsSavedOrTyping (replied t d) call_backend s w h k l =
        inl (whole-IsSaved t d (asked_again w))
    ended-IsSavedOrTyping (call_failed n) call_backend s w h k l =
        inl (report-IsSaved n (asked_again w))
    ended-IsSavedOrTyping called nothing s w h k l = absurd (k refl)
    ended-IsSavedOrTyping called (direct d t) s w h k l = inl (whole-IsSaved t (meta (some d)) w)
    ended-IsSavedOrTyping called kept_partial s w h k l =
        inl (from_el-IsSaved i (s.streamed ++ ellipsis) (meta s.finish_meta) w)
    ended-IsSavedOrTyping called (throws n) s w h k l = inl (report-IsSaved n w)
