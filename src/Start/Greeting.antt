-- ===== src/Start/Greeting.antt =====
-- The greeting is shown just when no local history is.
use website_ai_assistant.Prelude.{
  ℕ, Bool, true, false, not, List, [], ◌∷◌, ◌++◌, Option, none, if_both, ◌||◌, ◌&&◌, if◌then◌else◌,
  ◌==◌, ltb, is_empty, take_last, length, length-drop, ◌-◌, ◌≡◌, refl, ap, ◌∙◌, arith, ◌+◌,
}
use website_ai_assistant.Text.{Text}
use website_ai_assistant.History.{
  Sender, is_bot, Child, hero, divider, hint, row, Item, Store, nothing, garbage, saved, Messages,
  Opts, Page, unmark, append_row, add_message, save_local_history, add_hero, clear_local_history,
}
use website_ai_assistant.History.Local.{
  is_expired, local_opts, server_opts, next_day, divide, divided, new_day, restore_items,
  restore_saved, restore_store, restore_local_history, add_all, restore_history,
}
use website_ai_assistant.Markup.Cards.{has_hero}
use website_ai_assistant.Start.{initialize}

has_hero-append : (cs ds : List Child) → has_hero (cs ++ ds) ≡ (has_hero cs || has_hero ds)
unfolding has_hero
has_hero-append [] ds = refl
has_hero-append (hero s ∷ cs) ds = refl
has_hero-append (divider s ∷ cs) ds = has_hero-append cs ds
has_hero-append (hint ∷ cs) ds = has_hero-append cs ds
has_hero-append (row r ∷ cs) ds = has_hero-append cs ds

has_hero-unmark : (cs : List Child) → has_hero (unmark cs) ≡ has_hero cs
unfolding has_hero unmark
has_hero-unmark [] = refl
has_hero-unmark (hero s ∷ cs) = refl
has_hero-unmark (divider s ∷ cs) = has_hero-unmark cs
has_hero-unmark (hint ∷ cs) = has_hero-unmark cs
has_hero-unmark (row r ∷ cs) = ground (arith, has_hero-unmark cs)

-- A child that is no greeting does not change whether there is one.
has_hero-last :
    (cs : List Child) (c : Child)
    → has_hero (c ∷ []) ≡ false
    → has_hero (cs ++ c ∷ []) ≡ has_hero cs
has_hero-last cs c e = ground (arith, has_hero-append cs (c ∷ []))

module _ (page : Page) (now : ℕ) where
  has_hero-add_message :
      (s : Text) (from : Sender) (opts : Opts) (m : Messages)
      → has_hero (add_message page now s from opts m).children ≡ has_hero m.children
  unfolding add_message append_row save_local_history has_hero
  has_hero-add_message s from opts m =
      if_both (λ (x : Messages). has_hero x.children ≡ has_hero m.children) opts.streaming
        {x = append_row page s from opts m}
        {y = save_local_history now (append_row page s from opts m)}
        (has_hero-last (unmark m.children) _ refl ∙ has_hero-unmark m.children)
        (has_hero-last (unmark m.children) _ refl ∙ has_hero-unmark m.children)

  has_hero-divide :
      (prev : Option ℕ) (i : Item) (m : Messages)
      → has_hero (divide page now prev i m).children ≡ has_hero m.children
  unfolding divide has_hero
  has_hero-divide prev i m =
      if_both (λ (x : Messages). has_hero x.children ≡ has_hero m.children) (new_day page prev i)
        {x = divided page now i m} {y = m} (has_hero-last m.children _ refl) refl

  has_hero-restore_items :
      (is : List Item) (prev : Option ℕ) (m : Messages)
      → has_hero (restore_items page now prev is m).children ≡ has_hero m.children
  unfolding restore_items
  has_hero-restore_items [] prev m = refl
  has_hero-restore_items (i ∷ is) prev m =
      has_hero-restore_items is (next_day page prev i) _
      ∙ has_hero-add_message i.content i.sender (local_opts i.sender) (divide page now prev i m)
      ∙ has_hero-divide prev i m

  has_hero-add_all :
      (ms : List (Sender × Text × Bool)) (m : Messages)
      → has_hero (add_all page now ms m).children ≡ has_hero m.children
  unfolding add_all
  has_hero-add_all [] m = refl
  has_hero-add_all ((from, s, c) ∷ ms) m =
      has_hero-add_all ms _ ∙ has_hero-add_message s from (server_opts (is_bot from && c)) m

  count-restore_items :
      (is : List Item) (prev : Option ℕ) (m : Messages)
      → (restore_items page now prev is m).count ≡ m.count + length is
  unfolding restore_items add_message append_row save_local_history divide
  count-restore_items [] prev m = omega arith
  count-restore_items (i ∷ is) prev m =
      let d =
        add_message page now i.content i.sender (local_opts i.sender) (divide page now prev i m) in
      ground (arith, count-restore_items is (next_day page prev i) d)

  abbrev pub emptied : Messages → Messages
  emptied m = record m { children = []; count = 0 }

  pub count-restore_saved :
      (i : Item) (is : List Item) (m : Messages)
      → ((restore_saved page now (i ∷ is) m).count == 0) ≡ false
  unfolding restore_saved
  count-restore_saved i is m = ground (
    arith,
    count-restore_items (take_last 22 (i ∷ is)) none (emptied m),
    length-drop (length (i ∷ is) - 22) (i ∷ is),
  )

  has_hero-restore_saved :
      (i : Item) (is : List Item) (m : Messages)
      → has_hero (restore_saved page now (i ∷ is) m).children ≡ false
  unfolding restore_saved has_hero
  has_hero-restore_saved i is m = has_hero-restore_items (take_last 22 (i ∷ is)) none (emptied m)

  has_hero-add_hero : (g : Text) (m : Messages) → has_hero (add_hero g m).children ≡ true
  unfolding add_hero has_hero
  has_hero-add_hero g m = ground (arith, has_hero-append m.children (hero g ∷ []))

  module _ (known : Bool) (g : Text) (msgs : List (Sender × Text × Bool)) where
    -- The greeting on top of what the server's history gave, if need be.
    abbrev greeted : Messages → Messages
    greeted e = if e.count == 0 then add_hero g e else e

    greeted-has_hero :
        (e : Messages) → has_hero e.children ≡ true → has_hero (greeted e).children ≡ true
    greeted-has_hero e h =
        if_both (λ (x : Messages). has_hero x.children ≡ true) (e.count == 0) {x = add_hero g e}
          {y = e} (has_hero-add_hero g e) h

    has_hero-history :
        (m : Messages)
        → has_hero (greeted (restore_history page known now g msgs (emptied m))).children ≡ true
    unfolding restore_history
    has_hero-history m =
        let begun = add_hero g (emptied m) in
        if_both (λ (e : Messages). has_hero (greeted e).children ≡ true)
          (not known || ltb 1 0 || is_empty msgs) {x = emptied m} {y = add_all page now msgs begun}
          (has_hero-add_hero g (emptied m))
          (greeted-has_hero (add_all page now msgs begun)
            (has_hero-add_all msgs begun ∙ has_hero-add_hero g (emptied m)))

    greeted-saved :
        (i : Item) (is : List Item) (m : Messages)
        → has_hero (greeted (restore_saved page now (i ∷ is) m)).children ≡ false
    greeted-saved i is m =
        let d = restore_saved page now (i ∷ is) m in
        ap (λ b. has_hero (if b then add_hero g d else d).children) (count-restore_saved i is m)
        ∙ has_hero-restore_saved i is m

    -- The rest of `initialize`, once the local history was looked at.
    abbrev after_local : Messages × Bool → Messages
    after_local (d, restored) =
        greeted (if restored then d else restore_history page known now g msgs d)

    has_hero-restored :
        (s : Store) (m : Messages)
        → has_hero (after_local (restore_store page now s (emptied m))).children
          ≡ not (restore_store page now s (emptied m)).1
    unfolding restore_store clear_local_history
    has_hero-restored nothing m = has_hero-history m
    has_hero-restored garbage m = has_hero-history m
    has_hero-restored (saved ts []) m = has_hero-history m
    has_hero-restored (saved ts (i ∷ is)) m =
        if_both (λ (r : Messages × Bool). has_hero (after_local r).children ≡ not r.1)
          (is_expired now ts) {x = (clear_local_history (emptied m), false)}
          {y = (restore_saved page now (i ∷ is) (emptied m), true)}
          (has_hero-history (clear_local_history m)) (greeted-saved i is (emptied m))

    -- On a page whose list of messages is still empty, whatever the browser has stored and whatever
    -- the server knows: after the start the greeting is shown just when no local history was
    -- restored.
    pub has_hero-initialize :
        (m : Messages)
        → has_hero (initialize page now known g msgs (emptied m)).children
          ≡ not (restore_local_history page now (emptied m)).1
    unfolding initialize restore_local_history
    has_hero-initialize m = has_hero-restored m.store m
