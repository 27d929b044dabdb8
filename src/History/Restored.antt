-- ===== src/History/Restored.antt =====
-- What `restoreLocalHistory` shows, stores and counts.
use mathlib.Core.Path.{subst}
use website_ai_assistant.Prelude.{
  ◌↔◌, ◌⊎◌, if_both, if◌then◌else◌, is_empty, length-map, take_last_all, ℕ, ◌+◌, ◌≤◌, true, false,
  List, [], ◌∷◌, ◌++◌, map, append-nil, append_assoc, ◌≡◌, refl, sym, ap, ◌∙◌, arith, length, take,
  take_last, take_all, All, Option, none, ltb,
}
use website_ai_assistant.History.{
  is_bot, Child, hero, divider, hint, row, Item, saved, Messages, Opts, Page, shown, unmark,
  items_of, item_of, save_local_history, clear_local_history, append_row, add_message,
}
use website_ai_assistant.History.Local.{
  new_day, divided, local_opts, next_day, divide, restore_items, restore_saved, restore_store,
  restore_local_history, is_expired, week,
}

-- A stored message as it was written by `saveLocalHistory`, and whose text, rendered as Markdown if
-- it is an answer, reads the same.
abbrev pub IsPlain : Page → Item → Type 0
IsPlain page i = (shown page i.sender i.content ≡ i.content) × (length i.content ≤ 800)

abbrev pub dated : ℕ → Item → Item
dated now i = record i { t = now }

items_of-append :
    (now : ℕ) (cs ds : List Child) → items_of now (cs ++ ds) ≡ items_of now cs ++ items_of now ds
unfolding items_of
items_of-append now [] ds = refl
items_of-append now (row r ∷ cs) ds = ap (◌∷◌ (item_of now r)) (items_of-append now cs ds)
items_of-append now (hero _ ∷ cs) ds = items_of-append now cs ds
items_of-append now (divider _ ∷ cs) ds = items_of-append now cs ds
items_of-append now (hint ∷ cs) ds = items_of-append now cs ds

items_of-unmark : (now : ℕ) (cs : List Child) → items_of now (unmark cs) ≡ items_of now cs
unfolding items_of unmark
items_of-unmark now [] = refl
items_of-unmark now (row r ∷ cs) = ground (arith, items_of-unmark now cs)
items_of-unmark now (hero _ ∷ cs) = items_of-unmark now cs
items_of-unmark now (divider _ ∷ cs) = items_of-unmark now cs
items_of-unmark now (hint ∷ cs) = items_of-unmark now cs

abbrev pub answers : List Item → ℕ
answers [] = 0
answers (i ∷ is) = (if is_bot i.sender then 1 else 0) + answers is

module _ (page : Page) (now : ℕ) where
  divide-items :
      (prev : Option ℕ) (i : Item) (m : Messages)
      → items_of now (divide page now prev i m).children ≡ items_of now m.children
  unfolding divide items_of
  divide-items prev i m =
      if_both (λ (x : Messages). items_of now x.children ≡ items_of now m.children)
        (new_day page prev i) {x = divided page now i m} {y = m}
        (items_of-append now m.children _ ∙ append-nil (items_of now m.children)) refl

  abbrev rendered : Item → Item
  rendered i = record {
    sender = i.sender;
    content = take 800 (shown page i.sender i.content);
    t = now;
  }

  append_row-items :
      (i : Item) (o : Opts) (m : Messages)
      → IsPlain page i
      → items_of now (append_row page i.content i.sender o m).children
        ≡ items_of now m.children ++ dated now i ∷ []
  unfolding append_row items_of
  append_row-items i o m (p, q) =
      items_of-append now (unmark m.children) _
      ∙ ap (λ k. k ++ rendered i ∷ []) (items_of-unmark now m.children)
      ∙ ap (λ s. items_of now m.children ++ record { sender = i.sender; content = s; t = now } ∷ [])
          (ap (take 800) p ∙ take_all 800 i.content q)

  restore_items-items :
      (is : List Item) (prev : Option ℕ) (m : Messages)
      → All (IsPlain page) is
      → items_of now (restore_items page now prev is m).children
        ≡ items_of now m.children ++ map (dated now) is
  unfolding restore_items add_message save_local_history
  restore_items-items [] prev m h = sym (append-nil _)
  restore_items-items (i ∷ is) prev m (p, h) =
      restore_items-items is (next_day page prev i)
        (add_message page now i.content i.sender (local_opts i.sender) (divide page now prev i m)) h
      ∙ ap (λ k. k ++ map (dated now) is)
          (append_row-items i (local_opts i.sender) (divide page now prev i m) p
            ∙ ap (λ k. k ++ dated now i ∷ []) (divide-items prev i m))
      ∙ append_assoc (items_of now m.children) (dated now i ∷ []) (map (dated now) is)

  restore_items-store :
      (is : List Item) (prev : Option ℕ) (i : Item) (m : Messages)
      → let d = restore_items page now prev (i ∷ is) m in d.store ≡ (save_local_history now d).store
  unfolding restore_items add_message save_local_history
  restore_items-store [] prev i m = refl
  restore_items-store (j ∷ is) prev i m =
      restore_items-store is (next_day page prev i) j
        (add_message page now i.content i.sender (local_opts i.sender) (divide page now prev i m))

  restore_items-unread :
      (is : List Item) (prev : Option ℕ) (m : Messages)
      → m.is_open ≡ false
      → (restore_items page now prev is m).unread_marks ≡ m.unread_marks + answers is
  unfolding restore_items add_message append_row save_local_history divide
  restore_items-unread [] prev m e = omega arith
  restore_items-unread (i ∷ is) prev m e =
      let d =
        add_message page now i.content i.sender (local_opts i.sender) (divide page now prev i m) in
      ground (arith, restore_items-unread is (next_day page prev i) d)

  abbrev emptied : Messages → Messages
  emptied m = record m { children = []; count = 0 }

  restore_saved-store :
      (i : Item) (is : List Item) (m : Messages)
      → length (i ∷ is) ≤ 22
      → All (IsPlain page) (i ∷ is)
      → (restore_saved page now (i ∷ is) m).store ≡ saved now (map (dated now) (i ∷ is))
  unfolding restore_saved save_local_history
  restore_saved-store i is m le h =
      ap (λ k. (restore_items page now none k (emptied m)).store) (take_last_all 22 (i ∷ is) le)
      ∙ restore_items-store is none i (emptied m)
      ∙ ap (λ k. saved now (if ltb 22 (length k) then take_last 22 k else k))
          (restore_items-items (i ∷ is) none (emptied m) h)
      ∙ ground (arith, length-map (dated now) is)

  restore_store-restored :
      (ts : ℕ) (i : Item) (is : List Item) (m : Messages)
      → is_expired now ts ≡ false
      → restore_store page now (saved ts (i ∷ is)) m ≡ (restore_saved page now (i ∷ is) m, true)
  unfolding restore_store
  restore_store-restored ts i is m e =
      ap
        (λ b.
          if b then (clear_local_history m, false) else (restore_saved page now (i ∷ is) m, true))
        e

-- A stored history of at most 22 messages that is not empty and not older than a week, whose messages
-- have at most 800 code units each and read the same after rendering, is restored: then the same
-- messages are stored again, in order, every one dated now, and so is the history itself.
pub restore_local_history-saved :
    (page : Page) (now ts : ℕ) (items : List Item) (m : Messages)
    → m.store ≡ saved ts items
    → is_empty items ≡ false
    → is_expired now ts ≡ false
    → length items ≤ 22
    → All (IsPlain page) items
    → let (d, restored) = restore_local_history page now m in
      (d.store ≡ saved now (map (dated now) items)) × (restored ≡ true)
unfolding restore_local_history
restore_local_history-saved page now ts [] m e full x le h = absurd (ground arith)
restore_local_history-saved page now ts (i ∷ is) m e full x le h =
    let r = ap (λ s. restore_store page now s m) e ∙ restore_store-restored page now ts i is m x in
    (ap (λ d. d.0.store) r ∙ restore_saved-store page now i is m le h, ap (λ d. d.1) r)

-- When such a history is restored while the panel is closed, the unread badge counts every answer in
-- it as a new one.
pub restore_local_history-unread :
    (page : Page) (now ts : ℕ) (items : List Item) (m : Messages)
    → m.store ≡ saved ts items
    → is_empty items ≡ false
    → is_expired now ts ≡ false
    → length items ≤ 22
    → m.is_open ≡ false
    → (restore_local_history page now m).0.unread_marks ≡ m.unread_marks + answers items
unfolding restore_local_history restore_saved
restore_local_history-unread page now ts [] m e full x le closed = absurd (ground arith)
restore_local_history-unread page now ts (i ∷ is) m e full x le closed =
    let start = record m { children = []; count = 0 } in
    ap (λ s. (restore_store page now s m).0.unread_marks) e
    ∙ ap (λ d. d.0.unread_marks) (restore_store-restored page now ts i is m x)
    ∙ ap (λ k. (restore_items page now none k start).unread_marks) (take_last_all 22 (i ∷ is) le)
    ∙ restore_items-unread page now (i ∷ is) none start closed

restore_store-restores :
    (page : Page) (now ts : ℕ) (items : List Item) (m : Messages)
    → ((restore_store page now (saved ts items) m).1 ≡ true)
      ↔ ((is_empty items ≡ false) × ((ts ≡ 0) ⊎ (now ≤ ts + week)))
unfolding restore_store is_expired
restore_store-restores page now ts [] m = ground arith
restore_store-restores page now ts (i ∷ is) m = ground arith

-- A saved history is restored just when it is not empty and bears no time or one of at most a week ago.
pub restore_local_history-restores :
    (page : Page) (now ts : ℕ) (items : List Item) (m : Messages)
    → m.store ≡ saved ts items
    → ((restore_local_history page now m).1 ≡ true)
      ↔ ((is_empty items ≡ false) × ((ts ≡ 0) ⊎ (now ≤ ts + week)))
unfolding restore_local_history
restore_local_history-restores page now ts items m e =
    subst
      (λ s.
        ((restore_store page now s m).1 ≡ true)
        ↔ ((is_empty items ≡ false) × ((ts ≡ 0) ⊎ (now ≤ ts + week))))
      (sym e) (restore_store-restores page now ts items m)
