-- ===== src/Answer/Rules.antt =====
-- What the rules of an answer put into its bubble, and what of it the saved history keeps.
use website_ai_assistant.Prelude.{
  append_assoc, append-nil, ℕ, List, [], ◌∷◌, ◌++◌, if◌then◌else◌, ◌≡◌, refl, sym, ap, ◌∙◌, arith,
}
use website_ai_assistant.Text.{Text}
use website_ai_assistant.History.{
  Child, hero, divider, hint, row, Row, Messages, save_local_history,
}
use website_ai_assistant.Answer.{
  gives_link, gives_hint, payload_of, label_of, or_else, add_item, last_is_row, append_to_last,
  Widget, Setup, RuleItem, rule_link, rule_hint, RuleAction, saved_now,
}
use website_ai_assistant.Answer.Handlers.{
  maybe_show_handoff, apply_rule_action, apply_each, apply_rule_actions,
}
use website_ai_assistant.Answer.Paths.{last_is_row-append}

-- The link or hint of a rule, if it has one, and its text.
abbrev items_of_rule : RuleAction → List RuleItem
items_of_rule a =
    if gives_link a
    then rule_link (label_of a) (payload_of a) ∷ []
    else if gives_hint a
    then rule_hint (payload_of a) ∷ []
    else []

abbrev text_of_rule : RuleAction → Text
text_of_rule a = if gives_link a then label_of a else if gives_hint a then payload_of a else []

abbrev pub items_of_rules : List RuleAction → List RuleItem
items_of_rules [] = []
items_of_rules (a ∷ as_) = items_of_rule a ++ items_of_rules as_

abbrev pub text_of_rules : List RuleAction → Text
text_of_rules [] = []
text_of_rules (a ∷ as_) = text_of_rule a ++ text_of_rules as_

-- A conversation's messages, the last child being a row, and its rule items.
abbrev pub with_last : List Child → Row → Text → Messages → Messages
with_last cs r s m = record m { children = cs ++ row (record r { content = r.content ++ s }) ∷ [] }

append_to_last-append :
    (s : Text) (cs : List Child) (r : Row)
    → append_to_last s (cs ++ row r ∷ []) ≡ cs ++ row (record r { content = r.content ++ s }) ∷ []
unfolding append_to_last
append_to_last-append s [] r = refl
append_to_last-append s (hero t ∷ []) r = refl
append_to_last-append s (divider t ∷ []) r = refl
append_to_last-append s (hint ∷ []) r = refl
append_to_last-append s (row q ∷ []) r = refl
append_to_last-append s (c ∷ d ∷ cs) r = ap (◌∷◌ c) (append_to_last-append s (d ∷ cs) r)

-- What is told of a conversation: its messages and rule items.
abbrev pub told : Widget → Messages × List RuleItem
told w = (w.messages, w.rule_items)

module _ (setup : Setup) where
  handoff-told : (t : Text) (w : Widget) → told (maybe_show_handoff setup t w) ≡ told w
  unfolding maybe_show_handoff
  handoff-told t w = ground arith

  action-told :
      (t : Text) (a : RuleAction) (w : Widget)
      → told (apply_rule_action setup t a w) ≡ (
          if gives_link a
          then told (add_item (rule_link (label_of a) (payload_of a)) (label_of a) w)
          else if gives_hint a
          then told (add_item (rule_hint (payload_of a)) (payload_of a) w)
          else told w)
  unfolding apply_rule_action
  action-told t a w = ground (arith, handoff-told (or_else t (payload_of a)) w)

  add_item-told :
      (i : RuleItem) (s : Text) (cs : List Child) (r : Row) (w : Widget)
      → w.messages.children ≡ cs ++ row r ∷ []
      → told (add_item i s w) ≡ (with_last cs r s w.messages, w.rule_items ++ i ∷ [])
  unfolding add_item
  add_item-told i s cs r w e =
      ap (λ ds. (record w.messages { children = ds }, w.rule_items ++ i ∷ []))
        (ap (append_to_last s) e ∙ append_to_last-append s cs r)

  row_lem :
      (cs : List Child) (r : Row) (w : Widget)
      → w.messages.children ≡ cs ++ row r ∷ []
      → told w ≡ (with_last cs r [] w.messages, w.rule_items ++ [])
  row_lem cs r w e =
      ap (λ ds. (record w.messages { children = ds }, w.rule_items)) e
      ∙ ap
          (λ x. (
            record w.messages { children = cs ++ row (record r { content = x }) ∷ [] },
            w.rule_items,
          ))
          (sym (append-nil r.content))
      ∙ ap (λ is. (with_last cs r [] w.messages, is)) (sym (append-nil w.rule_items))

  action-items :
      (t : Text) (a : RuleAction) (cs : List Child) (r : Row) (w : Widget)
      → w.messages.children ≡ cs ++ row r ∷ []
      → told (apply_rule_action setup t a w)
        ≡ (with_last cs r (text_of_rule a) w.messages, w.rule_items ++ items_of_rule a)
  action-items t a cs r w e = ground (
    arith,
    action-told t a w,
    add_item-told (rule_link (label_of a) (payload_of a)) (label_of a) cs r w e,
    add_item-told (rule_hint (payload_of a)) (payload_of a) cs r w e,
    row_lem cs r w e,
  )

  each-items :
      (t : Text) (as_ : List RuleAction) (cs : List Child) (r : Row) (w : Widget)
      → w.messages.children ≡ cs ++ row r ∷ []
      → told (apply_each setup t as_ w)
        ≡ (with_last cs r (text_of_rules as_) w.messages, w.rule_items ++ items_of_rules as_)
  unfolding apply_each
  each-items t [] cs r w e = row_lem cs r w e
  each-items t (a ∷ as_) cs r w e =
      let first = action-items t a cs r w e in
      let grown = record r { content = r.content ++ text_of_rule a } in
      each-items t as_ cs grown (apply_rule_action setup t a w) (ap (λ p. p.0.children) first)
      ∙ ap (λ p. (with_last cs grown (text_of_rules as_) p.0, p.1 ++ items_of_rules as_)) first
      ∙ ap
          (λ x. (
            record w.messages { children = cs ++ row (record r { content = x }) ∷ [] },
            (w.rule_items ++ items_of_rule a) ++ items_of_rules as_,
          ))
          (append_assoc r.content (text_of_rule a) (text_of_rules as_))
      ∙ ap (λ is. (with_last cs r (text_of_rules (a ∷ as_)) w.messages, is))
          (append_assoc w.rule_items (items_of_rule a) (items_of_rules as_))

  -- Where the last child is a row, the rules of an answer put into its bubble, in their order, a link
  -- for every rule with a nonempty payload that suggests a link, to that payload whatever the browser
  -- says of the address, and a hint for every one that suggests a text; the texts of both become
  -- part of the bubble's text, and the history is saved with it.
  pub apply_rule_actions-items :
      (now : ℕ) (t : Text) (as_ : List RuleAction) (cs : List Child) (r : Row) (w : Widget)
      → w.messages.children ≡ cs ++ row r ∷ []
      → told (apply_rule_actions setup now t as_ w) ≡ (
        save_local_history now (with_last cs r (text_of_rules as_) w.messages),
        w.rule_items ++ items_of_rules as_,
      )
  unfolding apply_rule_actions
  apply_rule_actions-items now t as_ cs r w e =
      let is_row = ap last_is_row e ∙ last_is_row-append cs r in
      ap (λ b. told (if b then saved_now now (apply_each setup t as_ w) else w)) is_row
      ∙ ap (λ p. (save_local_history now p.0, p.1)) (each-items t as_ cs r w e)
