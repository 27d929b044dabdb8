-- ===== src/Answer/Last.antt =====
-- The last child of the list of messages stays a row of the assistant while an answer is handled.
use website_ai_assistant.Prelude.{
  if_both, ℕ, zero, suc, true, List, [], ◌∷◌, ◌++◌, if◌then◌else◌, arith, is_empty, ◌≡◌, refl, sym,
  ap, ◌∙◌,
}
use website_ai_assistant.Text.{Text}
use website_ai_assistant.History.{
  Sender, bot, Child, hero, divider, hint, row, Row, Opts, Messages, Page, same_sender, continues,
  unmark, append_row, add_message, save_local_history,
}
use website_ai_assistant.Answer.{
  Widget, Setup, Meta, RuleItem, RuleAction, or_else, payload_of, rule_link, rule_hint, label_of,
  at_row, append_to_last, add_item,
}
use website_ai_assistant.Answer.Handlers.{
  answer_opts, maybe_show_handoff, apply_rule_action, apply_each, apply_rule_actions, follow_up,
  finished_row, handle_answer_result, handle_answer_result_from_el,
}

pub continues-append :
    (s : Sender) (cs : List Child) (r : Row)
    → continues s (cs ++ row r ∷ []) ≡ same_sender s r.sender
unfolding continues
continues-append s [] r = refl
continues-append s (hero t ∷ []) r = refl
continues-append s (divider t ∷ []) r = refl
continues-append s (hint ∷ []) r = refl
continues-append s (row q ∷ []) r = refl
continues-append s (c ∷ d ∷ cs) r = continues-append s (d ∷ cs) r

continues-cons :
    (s : Sender) (c : Child) (cs : List Child)
    → continues s (c ∷ cs) ≡ (if is_empty cs then continues s (c ∷ []) else continues s cs)
unfolding continues
continues-cons s c [] = refl
continues-cons s c (d ∷ cs) = refl

append_to_last-is_empty :
    (t : Text) (cs : List Child) → is_empty (append_to_last t cs) ≡ is_empty cs
unfolding append_to_last
append_to_last-is_empty t [] = refl
append_to_last-is_empty t (row r ∷ []) = refl
append_to_last-is_empty t (hero u ∷ []) = refl
append_to_last-is_empty t (divider u ∷ []) = refl
append_to_last-is_empty t (hint ∷ []) = refl
append_to_last-is_empty t (c ∷ d ∷ cs) = refl

at_row-is_empty : (i : ℕ) (f : Row → Row) (cs : List Child) → is_empty (at_row i f cs) ≡ is_empty cs
unfolding at_row
at_row-is_empty i f [] = refl
at_row-is_empty zero f (row r ∷ cs) = refl
at_row-is_empty zero f (hero u ∷ cs) = refl
at_row-is_empty zero f (divider u ∷ cs) = refl
at_row-is_empty zero f (hint ∷ cs) = refl
at_row-is_empty (suc i) f (c ∷ cs) = refl

-- A change behind the first child that keeps what the rest ends with.
continues-behind :
    (s : Sender) (c : Child) (cs ds : List Child)
    → is_empty cs ≡ is_empty ds
    → continues s cs ≡ continues s ds
    → continues s (c ∷ cs) ≡ continues s (c ∷ ds)
continues-behind s c cs ds h k = continues-cons s c cs ∙ rw (h, k) (sym (continues-cons s c ds))

continues-append_to_last :
    (s : Sender) (t : Text) (cs : List Child) → continues s (append_to_last t cs) ≡ continues s cs
unfolding continues append_to_last
continues-append_to_last s t [] = refl
continues-append_to_last s t (row r ∷ []) = refl
continues-append_to_last s t (hero u ∷ []) = refl
continues-append_to_last s t (divider u ∷ []) = refl
continues-append_to_last s t (hint ∷ []) = refl
continues-append_to_last s t (c ∷ d ∷ cs) =
    continues-behind s c (append_to_last t (d ∷ cs)) (d ∷ cs) (append_to_last-is_empty t (d ∷ cs))
      (continues-append_to_last s t (d ∷ cs))

continues-first :
    (s : Sender) (f : Row → Row) (r : Row) (cs : List Child)
    → (f r).sender ≡ r.sender
    → continues s (row (f r) ∷ cs) ≡ continues s (row r ∷ cs)
unfolding continues
continues-first s f r [] h = ap (same_sender s) h
continues-first s f r (c ∷ cs) h = refl

continues-at_row :
    (s : Sender) (i : ℕ) (f : Row → Row) (cs : List Child)
    → ((r : Row) → (f r).sender ≡ r.sender)
    → continues s (at_row i f cs) ≡ continues s cs
unfolding at_row
continues-at_row s i f [] h = refl
continues-at_row s zero f (row r ∷ cs) h = continues-first s f r cs (h r)
continues-at_row s zero f (hero u ∷ cs) h = refl
continues-at_row s zero f (divider u ∷ cs) h = refl
continues-at_row s zero f (hint ∷ cs) h = refl
continues-at_row s (suc i) f (c ∷ cs) h =
    continues-behind s c (at_row i f cs) cs (at_row-is_empty i f cs) (continues-at_row s i f cs h)

-- The last child is a row of the assistant.
abbrev pub HasReply : Widget → Type 0
HasReply w = continues bot w.messages.children ≡ true

module _ (setup : Setup) where
  handoff-children : (t : Text) (w : Widget) → (maybe_show_handoff setup t w).messages ≡ w.messages
  unfolding maybe_show_handoff
  handoff-children t w = ground arith

  handoff-HasReply : (t : Text) (w : Widget) → HasReply w → HasReply (maybe_show_handoff setup t w)
  handoff-HasReply t w h = ap (λ m. continues bot m.children) (handoff-children t w) ∙ h

  item-HasReply : (i : RuleItem) (t : Text) (w : Widget) → HasReply w → HasReply (add_item i t w)
  unfolding add_item
  item-HasReply i t w h = continues-append_to_last bot t w.messages.children ∙ h

  action-HasReply :
      (t : Text) (a : RuleAction) (w : Widget)
      → HasReply w
      → HasReply (apply_rule_action setup t a w)
  unfolding apply_rule_action
  action-HasReply t a w h =
      let P : Widget → Type 0 = HasReply in
      if_both P _ (item-HasReply (rule_link (label_of a) (payload_of a)) (label_of a) w h) (
        if_both P _ (item-HasReply (rule_hint (payload_of a)) (payload_of a) w h)
          (if_both P _ (handoff-HasReply (or_else t (payload_of a)) w h) h))

  each-HasReply :
      (t : Text) (as_ : List RuleAction) (w : Widget)
      → HasReply w
      → HasReply (apply_each setup t as_ w)
  unfolding apply_each
  each-HasReply t [] w h = h
  each-HasReply t (a ∷ as_) w h =
      each-HasReply t as_ (apply_rule_action setup t a w) (action-HasReply t a w h)

  follow_up-HasReply :
      (now : ℕ) (t : Text) (d : Meta) (w : Widget)
      → HasReply w
      → HasReply (follow_up setup now t d w)
  unfolding follow_up apply_rule_actions save_local_history
  follow_up-HasReply now t d w h =
      ground (arith, each-HasReply t d.rule_actions w h, handoff-children t w)

  module _ (page : Page) (now : ℕ) where
    pub append_row-continues :
        (t : Text) (o : Opts) (m : Messages)
        → continues bot (append_row page t bot o m).children ≡ true
    unfolding append_row
    append_row-continues t o m = continues-append bot (unmark m.children) _

    pub add_message-continues :
        (t : Text) (o : Opts) (m : Messages)
        → continues bot (add_message page now t bot o m).children ≡ true
    unfolding add_message save_local_history
    add_message-continues t o m = ground (arith, append_row-continues t o m)

    pub whole-HasReply :
        (t : Text) (d : Meta) (w : Widget) → HasReply (handle_answer_result setup page now t d w)
    unfolding handle_answer_result
    whole-HasReply t d w =
        follow_up-HasReply now t d _ (add_message-continues t (answer_opts setup page d) w.messages)

    pub from_el-HasReply :
        (i : ℕ) (t : Text) (d : Meta) (w : Widget)
        → HasReply w
        → HasReply (handle_answer_result_from_el setup page now i t d w)
    unfolding handle_answer_result_from_el save_local_history
    from_el-HasReply i t d w h =
        follow_up-HasReply now t d _
          (continues-at_row bot i (finished_row setup page t d) w.messages.children (λ r. refl) ∙ h)
