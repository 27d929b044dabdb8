-- ===== src/Answer/Offers.antt =====
-- The hand-off to people is offered at most once, and by safe links.
use website_ai_assistant.Prelude.{
  if_both, not, is_empty, ℕ, ◌≤◌, true, List, [], ◌∷◌, ◌++◌, if◌then◌else◌, ◌≡◌, arith, length, All,
  All-append, length-append,
}
use website_ai_assistant.Text.{Text, text, eq_text}
use website_ai_assistant.Links.{Anchor}
use website_ai_assistant.History.{Page}
use website_ai_assistant.Links.Safe.{All-push_if}
use website_ai_assistant.Answer.{
  gives_link, gives_hint, type_of, saved_now, or_else, add_item, last_is_row, Widget, Setup, Meta,
  Bar, RuleItem, RuleAction, start_anew,
}
use website_ai_assistant.Answer.Handlers.{
  with_offer, maybe_show_handoff, handoff_anchors, apply_rule_action, apply_each,
  apply_rule_actions, follow_up, handle_answer_result, handle_answer_result_from_el,
}
use website_ai_assistant.Answer.Steps.{
  Step, asks, answers, begins, finishes, starts_anew, Reach, here, next,
}

module _ (setup : Setup) where
  abbrev pub IsSafeHref : Anchor → Type 0
  IsSafeHref a = setup.is_safe_url a.href ≡ true

  abbrev pub IsSafeBar : Bar → Type 0
  IsSafeBar b = All IsSafeHref b.anchors

  -- No bar and no form before the first hand-off, then at most one of each; every bar's links are
  -- safe.
  abbrev pub IsOffered : Widget → Type 0
  IsOffered w =
      (length w.bars ≤ (if w.handoff_shown then 1 else 0))
      × (length w.lead_forms ≤ (if w.handoff_shown then 1 else 0))
      × All IsSafeBar w.bars

  anchors-IsSafeHref : All IsSafeHref (handoff_anchors setup)
  unfolding handoff_anchors
  anchors-IsSafeHref =
      All-push_if setup.is_safe_url IsSafeHref _ _ _ (λ e. ground arith)
        (All-push_if setup.is_safe_url IsSafeHref _ _ _ (λ e. ground arith)
          (All-push_if setup.is_safe_url IsSafeHref _ _ _ (λ e. ground arith) tt))

  handoff-kept :
      (P : Widget → Type 0) (t : Text) (w : Widget)
      → P w
      → P (record w { handoff_shown = true })
      → P (with_offer setup t w)
      → P (maybe_show_handoff setup t w)
  unfolding maybe_show_handoff
  handoff-kept P t w f g h = if_both P _ f (if_both P _ g h)

  new_bar-IsSafe :
      (bs : List Bar)
      → All IsSafeBar bs
      → All IsSafeBar
          (bs ++ record { label = setup.handoff_message; anchors = handoff_anchors setup } ∷ [])
  new_bar-IsSafe bs h = All-append IsSafeBar bs _ h (anchors-IsSafeHref, tt)

  offer-IsSafe :
      (t : Text) (w : Widget) → All IsSafeBar w.bars → All IsSafeBar (with_offer setup t w).bars
  offer-IsSafe t w h =
      if_both (All IsSafeBar) (is_empty (handoff_anchors setup)) h (new_bar-IsSafe w.bars h)

  bars-IsSafe :
      (t : Text) (w : Widget)
      → All IsSafeBar w.bars
      → All IsSafeBar (maybe_show_handoff setup t w).bars
  bars-IsSafe t w h = handoff-kept (λ x. All IsSafeBar x.bars) t w h h (offer-IsSafe t w h)

  handoff-IsOffered :
      (t : Text) (w : Widget) → IsOffered w → IsOffered (maybe_show_handoff setup t w)
  unfolding maybe_show_handoff
  handoff-IsOffered t w (p, q, r) = (
    ground (
      arith,
      length-append w.bars
          (record { label = setup.handoff_message; anchors = handoff_anchors setup } ∷ []),
    ),
    ground (arith, length-append w.lead_forms (or_else t w.messages.last_user_message ∷ [])),
    bars-IsSafe t w r,
  )

  -- What holds after each kind of change by a rule holds after a rule.
  action-kept :
      (P : Widget → Type 0) (t : Text) (a : RuleAction) (w : Widget)
      → ((i : RuleItem) (s : Text) → P (add_item i s w))
      → ((s : Text) → P (maybe_show_handoff setup s w))
      → P w
      → P (apply_rule_action setup t a w)
  unfolding apply_rule_action
  action-kept P t a w f g h =
      if_both P (gives_link a) (f _ _) (
        if_both P (gives_hint a) (f _ _) (if_both P (eq_text (type_of a) (text "handoff")) (g _) h))

  action-IsOffered :
      (t : Text) (a : RuleAction) (w : Widget)
      → IsOffered w
      → IsOffered (apply_rule_action setup t a w)
  unfolding add_item
  action-IsOffered t a w h = action-kept IsOffered t a w (λ i s. h) (λ s. handoff-IsOffered s w h) h

  each-IsOffered :
      (t : Text) (as_ : List RuleAction) (w : Widget)
      → IsOffered w
      → IsOffered (apply_each setup t as_ w)
  unfolding apply_each
  each-IsOffered t [] w h = h
  each-IsOffered t (a ∷ as_) w h = each-IsOffered t as_ _ (action-IsOffered t a w h)

  follow_up-IsOffered :
      (now : ℕ) (t : Text) (d : Meta) (w : Widget)
      → IsOffered w
      → IsOffered (follow_up setup now t d w)
  unfolding follow_up apply_rule_actions
  follow_up-IsOffered now t d w h =
      if_both IsOffered (not (is_empty d.rule_actions))
        (if_both IsOffered (last_is_row w.messages.children)
          {x = saved_now now (apply_each setup t d.rule_actions w)}
          (each-IsOffered t d.rule_actions w h) h)
        (if_both IsOffered d.payload.fallback (handoff-IsOffered t w h) h)

  module _ (page : Page) where
    Step-IsOffered : {w d : Widget} → Step setup page w d → IsOffered w → IsOffered d
    unfolding handle_answer_result handle_answer_result_from_el start_anew
    Step-IsOffered {w} (asks now s) h = h
    Step-IsOffered {w} (answers now answer d) h = follow_up-IsOffered now answer d _ h
    Step-IsOffered {w} begins h = h
    Step-IsOffered {w} (finishes now i answer d) h = follow_up-IsOffered now answer d _ h
    Step-IsOffered {w} (starts_anew greeting) h = (omega arith, omega arith, tt)

    -- From a conversation with nothing offered on, whatever is asked, answered, streamed to the end
    -- or started anew: the list of messages has at most one bar of channels and one contact form,
    -- none of either before the hand-off is marked as shown, and every link of a bar is safe.
    pub Reach-IsOffered : {w d : Widget} → IsOffered w → Reach setup page w d → IsOffered d
    Reach-IsOffered h here = h
    Reach-IsOffered h (next r s) = Step-IsOffered s (Reach-IsOffered h r)
