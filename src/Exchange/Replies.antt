-- ===== src/Exchange/Replies.antt =====
-- However a streamed request ends, the conversation ends with a row of the assistant.
use website_ai_assistant.Prelude.{
  ℕ, Bool, true, false, not, ◌&&◌, ◌||◌, List, [], ◌∷◌, ◌++◌, Option, none, some, if◌then◌else◌,
  if_both, arith, is_empty, ◌≡◌, ◌≢◌, refl, sym,
}
use mathlib.Core.Path.{subst}
use website_ai_assistant.Text.{Text}
use website_ai_assistant.Notice.Words.{words}
use website_ai_assistant.Stream.{Payload, Stream}
use website_ai_assistant.Stream.Typing.{IsLive, initial-IsLive}
use website_ai_assistant.Stream.Inputs.{Input, steps, steps-IsLive}
use website_ai_assistant.Stream.Received.{fresh}
use website_ai_assistant.Stream.Reader.{
  Parsed, Reader, Settled, pending, resolved, rejected, aborted, failed, settle, Ending, waiting,
  typing, call_backend, nothing, direct, kept_partial, throws, ellipsis, end_empty, after,
}
use website_ai_assistant.Chat.{Chat, set_loading, user_message}
use website_ai_assistant.History.{Page}
use website_ai_assistant.Answer.{Widget, Setup, Meta, begun, streaming_opts}
use website_ai_assistant.Answer.Last.{
  HasReply, append_row-continues, add_message-continues, whole-HasReply, from_el-HasReply,
}
use website_ai_assistant.Exchange.{hand_over}
use website_ai_assistant.Exchange.Saved.{IsSavedOrTyping, handed-IsSaved, ended-IsSavedOrTyping}
use website_ai_assistant.Exchange.Endings.{
  asked_again, Called, replied, call_failed, error_opts, conclude, ready, report, answer_called,
  finish_stream, streamed_so_far, end_request,
}

-- The endings that keep the list's rows are backed by one that is already there; with none does
-- `streamChat` end without an answer.
abbrev IsBacked : Ending → Widget → Type 0
IsBacked waiting w = ⊥
IsBacked typing w = HasReply w
IsBacked nothing w = ⊥
IsBacked kept_partial w = HasReply w
IsBacked call_backend w = Unit
IsBacked (direct d t) w = Unit
IsBacked (throws n) w = Unit

if_known :
    {A : Type 0} (P : A → Type 0) (b : Bool) (x y : A)
    → (b ≡ true → P x)
    → (b ≡ false → P y)
    → P (if b then x else y)
if_known P true x y h k = h refl
if_known P false x y h k = k refl

end_empty-IsBacked : (m : Option Payload) (w : Widget) → IsBacked (end_empty m) w
unfolding end_empty
end_empty-IsBacked none w = tt
end_empty-IsBacked (some d) w =
    if_both (λ e. IsBacked e w) (d.quota_locked || not (is_empty d.answer)) tt tt

some_row : {e t : Bool} → e ≡ true → (e && not t) ≡ false → t ≡ false → ⊥
some_row h b c = ground arith

after-IsBacked :
    (o : Settled) (s : Stream) (w : Widget)
    → o ≢ pending
    → IsLive s
    → (s.has_els ≡ true → HasReply w)
    → IsBacked (after o s).1 w
unfolding after
after-IsBacked pending s w h l k = absurd (h refl)
after-IsBacked resolved s w h l k =
    if_known {A = Stream × Ending} (λ p. IsBacked p.1 w) (s.has_els && not (is_empty s.streamed)) _
      _ (λ b. k (ground arith))
      (λ b.
        if_known {A = Stream × Ending} (λ p. IsBacked p.1 w) (is_empty s.streamed) _ _
          (λ c. end_empty-IsBacked s.finish_meta w) (λ c. some_row (l.row_exists c) b c))
after-IsBacked (rejected aborted) s w h l k =
    if_known {A = Stream × Ending} (λ p. IsBacked p.1 w) (not (is_empty s.streamed) && s.has_els) _
      _ (λ b. k (ground arith)) (λ b. tt)
after-IsBacked (rejected (failed n)) s w h l k = tt

set_loading-ready : (c : Chat) → (ready c).is_loading ≡ false
unfolding set_loading
set_loading-ready c = ground arith

settle_stream : (r : Reader) (o : Settled) → (settle r o).stream ≡ r.stream
unfolding settle
settle_stream r o = refl

settle_over : (r : Reader) (o : Settled) → o ≢ pending → (settle r o).settled ≢ pending
unfolding settle
settle_over r o h = ground arith

module _ (setup : Setup) (page : Page) (now i : ℕ) (meta : Option Payload → Meta) where
  -- The visitor has a reply and can write again.
  abbrev pub IsAnswered : Widget → Type 0
  IsAnswered w = HasReply w × (w.chat.is_loading ≡ false)

  ended-IsAnswered :
      (called : Called) (e : Ending) (s : Stream) (w : Widget)
      → IsBacked e w
      → IsAnswered (conclude page now (finish_stream setup page now i meta called e s w))
  unfolding conclude finish_stream answer_called report
  ended-IsAnswered called waiting s w h = absurd h
  ended-IsAnswered called typing s w h = (h, set_loading-ready _)
  ended-IsAnswered (replied t d) call_backend s w h =
      (whole-HasReply setup page now t d (asked_again w), set_loading-ready _)
  ended-IsAnswered (call_failed n) call_backend s w h = (
    add_message-continues setup page now (words (user_message n)) error_opts w.messages,
    set_loading-ready _,
  )
  ended-IsAnswered called nothing s w h = absurd h
  ended-IsAnswered called (direct d t) s w h =
      (whole-HasReply setup page now t (meta (some d)) w, set_loading-ready _)
  ended-IsAnswered called kept_partial s w h = (
    from_el-HasReply setup page now i (s.streamed ++ ellipsis) (meta s.finish_meta) w h,
    set_loading-ready _,
  )
  ended-IsAnswered called (throws n) s w h = (
    add_message-continues setup page now (words (user_message n)) error_opts w.messages,
    set_loading-ready _,
  )

  hand_over-HasReply :
      (rs : List (Text × Option Payload)) (w : Widget)
      → HasReply w
      → HasReply (hand_over setup page now i meta rs w)
  unfolding hand_over
  hand_over-HasReply [] w h = h
  hand_over-HasReply ((t, d) ∷ rs) w h =
      hand_over-HasReply rs _ (from_el-HasReply setup page now i t (meta d) w h)

  opened-HasReply : (b : Bool) (w : Widget) → b ≡ true → HasReply (if b then begun page w else w)
  opened-HasReply b w h = rw h (append_row-continues setup page now [] streaming_opts w.messages)

  backed : (e : Ending) (w : Widget) → IsBacked e w → (e ≡ nothing → ⊥) × (e ≡ waiting → ⊥)
  backed e w h = (λ k. subst (λ x. IsBacked x w) k h, λ k. subst (λ x. IsBacked x w) k h)

  -- The reply is stored, or the typewriter is still at work on it.
  abbrev pub IsKept : Reader → Widget → Type 0
  IsKept r w = IsSavedOrTyping setup page now i meta (after r.settled r.stream).1 r.stream w

  live-IsAnswered :
      (called : Called) (r : Reader) (w : Widget)
      → IsLive r.stream
      → r.settled ≢ pending
      → IsAnswered (end_request setup page now i meta called r w)
        × IsKept r (end_request setup page now i meta called r w)
  unfolding end_request streamed_so_far
  live-IsAnswered called r w l h =
      let before = streamed_so_far setup page now i meta r w in
      let ending = (after r.settled r.stream).1 in
      let held =
        after-IsBacked r.settled r.stream before h l
          (λ b. hand_over-HasReply r.stream.results _ (opened-HasReply r.stream.has_els w b)) in
      let (no_nothing, no_waiting) = backed ending before held in
      (
        ended-IsAnswered called ending r.stream before held,
        ended-IsSavedOrTyping setup page now i meta called ending r.stream before
            (λ over. handed-IsSaved setup page now i meta r.stream.results _ (l.finished_once over))
            no_nothing no_waiting,
      )

  -- Whatever events a response brings, with frames between them, and however its promise settles (at
  -- its end, by an error, by a timeout), and however the call of the backend in its place ends: then
  -- the last child of the list is a row of the assistant, the composer does not load any more, and the
  -- stored history is that of the list, or the typewriter is still at work on the reply.
  pub end_request-IsAnswered :
      (parse_json : Text → Parsed) (is : List Input) (o : Settled) (called : Called) (w : Widget)
      → o ≢ pending
      → IsAnswered
          (end_request setup page now i meta called (settle (steps parse_json fresh is) o) w)
        × IsKept
            (settle (steps parse_json fresh is) o)
            (end_request setup page now i meta called (settle (steps parse_json fresh is) o) w)
  end_request-IsAnswered parse_json is o called w h =
      live-IsAnswered called (settle (steps parse_json fresh is) o) w
        (subst IsLive (sym (settle_stream _ o)) (steps-IsLive parse_json fresh is initial-IsLive))
        (settle_over _ o h)
