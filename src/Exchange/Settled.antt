-- ===== src/Exchange/Settled.antt =====
-- The ends of a streamed request, as the composer knows them.
use website_ai_assistant.Prelude.{
  ℕ, true, List, [], ◌∷◌, Option, if◌then◌else◌, arith, ◌≡◌, refl, ap, ◌∙◌, sym, Bool, false, some,
  ◌++◌, ◌||◌,
}
use mathlib.Core.Path.{subst}
use website_ai_assistant.Text.{Text}
use website_ai_assistant.Stream.{Payload, Stream}
use website_ai_assistant.Stream.Reader.{
  Reader, Ending, waiting, typing, call_backend, nothing, direct, kept_partial, throws, ellipsis,
  after,
}
use website_ai_assistant.Chat.{
  Chat, Outcome, answered, typed, failed, settle, handle_answer, type_out, block, call_again,
  set_loading,
}
use website_ai_assistant.Chat
use website_ai_assistant.Chat.Steps.{Reach, here, next, settles, asks_again, types_out}
use website_ai_assistant.History.{Page}
use website_ai_assistant.Answer.{Widget, Setup, Meta, RuleAction, or_else, payload_of, begun}
use website_ai_assistant.Answer.Handlers.{
  maybe_show_handoff, apply_rule_action, apply_each, apply_rule_actions, follow_up,
  handle_answer_result, handle_answer_result_from_el,
}
use website_ai_assistant.Exchange.{hand_over}
use website_ai_assistant.Exchange.Endings.{
  Called, replied, call_failed, conclude, ready, report, answer_called, finish_stream, asked_again,
  streamed_so_far, end_request,
}

module _ (setup : Setup) where
  handoff-chat : (t : Text) (w : Widget) → (maybe_show_handoff setup t w).chat ≡ w.chat
  unfolding maybe_show_handoff
  handoff-chat t w = ground arith

  each-chat :
      (t : Text) (as_ : List RuleAction) (w : Widget) → (apply_each setup t as_ w).chat ≡ w.chat
  unfolding apply_each apply_rule_action
  each-chat t [] w = refl
  each-chat t (a ∷ as_) w =
      each-chat t as_ (apply_rule_action setup t a w)
      ∙ ground (arith, handoff-chat (or_else t (payload_of a)) w)

  follow_up-chat :
      (now : ℕ) (t : Text) (d : Meta) (w : Widget) → (follow_up setup now t d w).chat ≡ w.chat
  unfolding follow_up apply_rule_actions
  follow_up-chat now t d w = ground (arith, each-chat t d.rule_actions w, handoff-chat t w)

  module _ (page : Page) (now : ℕ) where
    handle_answer_result-chat :
        (t : Text) (d : Meta) (w : Widget)
        → (handle_answer_result setup page now t d w).chat ≡ handle_answer t d.payload w.chat
    unfolding handle_answer_result
    handle_answer_result-chat t d w = follow_up-chat now t d _

    from_el-chat :
        (i : ℕ) (t : Text) (d : Meta) (w : Widget)
        → (handle_answer_result_from_el setup page now i t d w).chat ≡ type_out t d.payload w.chat
    unfolding handle_answer_result_from_el
    from_el-chat i t d w = follow_up-chat now t d _

-- The controller of the request is dropped, before or behind the answer.
abbrev dropped : Chat → Chat
dropped c = record c { abort_stream = false }

dropped-if :
    (b : Bool) (c d : Chat) → dropped (if b then c else d) ≡ (if b then dropped c else dropped d)
dropped-if true c d = refl
dropped-if false c d = refl

dropped-handle_answer :
    (t : Text) (d : Payload) (c : Chat)
    → dropped (handle_answer t d c) ≡ handle_answer t d (dropped c)
unfolding handle_answer block
dropped-handle_answer t d c = dropped-if (d.guard_blocked || d.quota_locked) _ _

ready-handle_answer :
    (t : Text) (d : Payload) (c : Chat) → ready (handle_answer t d c) ≡ settle (answered t d) c
unfolding settle Chat.conclude
ready-handle_answer t d c = ap (set_loading false) (dropped-handle_answer t d c)

type_out-loading : (t : Text) (d : Payload) (c : Chat) → (type_out t d c).is_loading ≡ c.is_loading
unfolding type_out block
type_out-loading t d c = ground arith

type_out-stream :
    (t : Text) (d : Payload) (c : Chat) → (type_out t d c).abort_stream ≡ c.abort_stream
unfolding type_out block
type_out-stream t d c = ground arith

module _ (setup : Setup) (page : Page) (now i : ℕ) (meta : Option Payload → Meta) where
  -- A reachable composer that awaits a streamed answer.
  abbrev Awaits : Chat → Chat → Type 0
  Awaits c d = Reach c d × (d.is_loading ≡ true) × (d.abort_stream ≡ true)

  from_el-Awaits :
      (c : Chat) (t : Text) (d : Meta) (w : Widget)
      → Awaits c w.chat
      → Awaits c (handle_answer_result_from_el setup page now i t d w).chat
  from_el-Awaits c t d w (r, l, a) = subst (Awaits c) (sym (from_el-chat setup page now i t d w)) (
    next r (types_out t d.payload),
    type_out-loading t d.payload w.chat ∙ l,
    type_out-stream t d.payload w.chat ∙ a,
  )

  hand_over-Awaits :
      (c : Chat) (rs : List (Text × Option Payload)) (w : Widget)
      → Awaits c w.chat
      → Awaits c (hand_over setup page now i meta rs w).chat
  unfolding hand_over
  hand_over-Awaits c [] w h = h
  hand_over-Awaits c ((t, d) ∷ rs) w h = hand_over-Awaits c rs _ (from_el-Awaits c t (meta d) w h)

  whole-Reach :
      (c : Chat) (t : Text) (d : Meta) (w : Widget)
      → Awaits c w.chat
      → Reach c (ready (handle_answer_result setup page now t d w).chat)
  whole-Reach c t d w (r, l, a) =
      subst (Reach c)
        (sym (
          ap ready (handle_answer_result-chat setup page now t d w)
          ∙ ready-handle_answer t d.payload w.chat))
        (next r (settles (answered t d.payload) l))

  again-Awaits : (c : Chat) (w : Widget) → Awaits c w.chat → Awaits c (asked_again w).chat
  unfolding call_again
  again-Awaits c w (r, l, a) = (next r (asks_again l a), l, a)

  ended-Reach :
      (c : Chat) (called : Called) (e : Ending) (s : Stream) (w : Widget)
      → Awaits c w.chat
      → Reach c (conclude page now (finish_stream setup page now i meta called e s w)).chat
  unfolding conclude finish_stream answer_called report settle Chat.conclude
  ended-Reach c called waiting s w (r, l, a) = r
  ended-Reach c called typing s w (r, l, a) = next r (settles typed l)
  ended-Reach c (replied t d) call_backend s w h =
      whole-Reach c t d (asked_again w) (again-Awaits c w h)
  ended-Reach c (call_failed n) call_backend s w h =
      let (r, l, a) = again-Awaits c w h in next r (settles (failed n) l)
  ended-Reach c called nothing s w (r, l, a) = next r (settles typed l)
  ended-Reach c called (direct d t) s w h = whole-Reach c t (meta (some d)) w h
  ended-Reach c called kept_partial s w h =
      let (r, l, a) = from_el-Awaits c (s.streamed ++ ellipsis) (meta s.finish_meta) w h in
      next r (settles typed l)
  ended-Reach c called (throws n) s w (r, l, a) = next r (settles (failed n) l)

  opened-Awaits :
      (b : Bool) (w : Widget)
      → w.chat.is_loading ≡ true
      → w.chat.abort_stream ≡ true
      → Awaits w.chat (if b then begun page w else w).chat
  opened-Awaits true w l a = (here, l, a)
  opened-Awaits false w l a = (here, l, a)

  -- Whatever a streamed request has brought while the composer awaits its answer, and however it and
  -- the call of the backend in its place end: the composer has gone through steps of Chat/Steps, the
  -- second request being one of them.
  pub end_request-Reach :
      (called : Called) (r : Reader) (w : Widget)
      → w.chat.is_loading ≡ true
      → w.chat.abort_stream ≡ true
      → Reach w.chat (end_request setup page now i meta called r w).chat
  unfolding end_request streamed_so_far
  end_request-Reach called r w l a =
      ended-Reach w.chat called (after r.settled r.stream).1 r.stream _
        (hand_over-Awaits w.chat r.stream.results _ (opened-Awaits r.stream.has_els w l a))
