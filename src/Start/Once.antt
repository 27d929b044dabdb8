-- ===== src/Start/Once.antt =====
-- The page never shows two greetings, and never stays blank.
use website_ai_assistant.Prelude.{
  ◌&&◌, ℕ, ◌+◌, ◌≤◌, ◌<◌, Bool, true, false, List, [], ◌∷◌, ◌++◌, Option, none, is_empty, ◌==◌,
  if_both, if_each, take_last, ◌≡◌, refl, ap, ◌∙◌, arith,
}
use website_ai_assistant.Text.{Text}
use website_ai_assistant.History.{
  Sender, Child, hero, divider, hint, row, Item, Store, nothing, garbage, saved, Messages, Opts,
  Page, is_bot, unmark, append_row, add_message, save_local_history, add_hero, collapse_hero,
  without_hero, new_conversation, clear_local_history,
}
use website_ai_assistant.History.Local.{
  is_expired, local_opts, server_opts, next_day, new_day, divide, divided, restore_items,
  restore_saved, restore_store, restore_local_history, add_all,
}
use website_ai_assistant.Start.Greeting.{count-restore_saved}
use website_ai_assistant.Start.Overlap.{
  config_wait, history_wait, started, Boot, Past, Response, failed, answered, restore_ids, emptied,
  finish, start_anew, with_local, config_ended, take_past, history_ended, Act, adds, collapses,
  collapsed, turns, begins_anew, hears, composes, locks, acts, configures, remembers, Reach, here,
  next,
}

unfoldable pub heroes : List Child → ℕ
heroes [] = 0
heroes (hero s ∷ cs) = 1 + heroes cs
heroes (divider s ∷ cs) = heroes cs
heroes (hint ∷ cs) = heroes cs
heroes (row r ∷ cs) = heroes cs

heroes-append : (cs ds : List Child) → heroes (cs ++ ds) ≡ heroes cs + heroes ds
unfolding heroes
heroes-append [] ds = omega arith
heroes-append (hero s ∷ cs) ds = omega (arith, heroes-append cs ds)
heroes-append (divider s ∷ cs) ds = heroes-append cs ds
heroes-append (hint ∷ cs) ds = heroes-append cs ds
heroes-append (row r ∷ cs) ds = heroes-append cs ds

heroes-unmark : (cs : List Child) → heroes (unmark cs) ≡ heroes cs
unfolding heroes unmark
heroes-unmark [] = refl
heroes-unmark (hero s ∷ cs) = ap (λ n. 1 + n) (heroes-unmark cs)
heroes-unmark (divider s ∷ cs) = heroes-unmark cs
heroes-unmark (hint ∷ cs) = heroes-unmark cs
heroes-unmark (row r ∷ cs) = ground (arith, heroes-unmark cs)

heroes-without_hero : (cs : List Child) → heroes (without_hero cs) ≤ heroes cs
unfolding heroes without_hero
heroes-without_hero [] = omega arith
heroes-without_hero (hero s ∷ cs) = omega arith
heroes-without_hero (divider s ∷ cs) = heroes-without_hero cs
heroes-without_hero (hint ∷ cs) = heroes-without_hero cs
heroes-without_hero (row r ∷ cs) = heroes-without_hero cs

-- The greeting is there once at most, and not without a message counted.
pub record IsSingle (m : Messages) : Type 0 where
  pub single : heroes m.children ≤ 1
  pub counted : m.count ≡ 0 → heroes m.children ≡ 0

-- A child that is no greeting.
heroes-last :
    (cs : List Child) (c : Child) → heroes (c ∷ []) ≡ 0 → heroes (unmark cs ++ c ∷ []) ≡ heroes cs
heroes-last cs c e = omega (arith, heroes-append (unmark cs) (c ∷ []), heroes-unmark cs)

module _ (page : Page) (now : ℕ) where
  heroes-add_message :
      (s : Text) (from : Sender) (opts : Opts) (m : Messages)
      → heroes (add_message page now s from opts m).children ≡ heroes m.children
  unfolding add_message append_row save_local_history heroes
  heroes-add_message s from opts m =
      if_both (λ (x : Messages). heroes x.children ≡ heroes m.children) opts.streaming
        {x = append_row page s from opts m}
        {y = save_local_history now (append_row page s from opts m)} (heroes-last m.children _ refl)
        (heroes-last m.children _ refl)

  count-add_message :
      (s : Text) (from : Sender) (opts : Opts) (m : Messages)
      → (add_message page now s from opts m).count ≡ m.count + 1
  unfolding add_message append_row save_local_history
  count-add_message s from opts m = ground arith

  add_message-IsSingle :
      (s : Text) (from : Sender) (opts : Opts) (m : Messages)
      → IsSingle m
      → IsSingle (add_message page now s from opts m)
  add_message-IsSingle s from opts m h =
      ground (arith, heroes-add_message s from opts m, count-add_message s from opts m)

  -- The greeting in front of messages from the server, or the greeting alone.
  pub add_all-IsSingle :
      (ms : List (Sender × Text × Bool)) (m : Messages)
      → IsSingle m
      → IsSingle (add_all page now ms m) × (m.count ≤ (add_all page now ms m).count)
  unfolding add_all
  add_all-IsSingle [] m h = (h, omega arith)
  add_all-IsSingle ((from, s, c) ∷ ms) m h =
      let opts = server_opts (is_bot from && c) in
      let (single, more) =
        add_all-IsSingle ms (add_message page now s from opts m)
          (add_message-IsSingle s from opts m h) in
      (single, omega (arith, count-add_message s from opts m))

  heroes-restore_items :
      (is : List Item) (prev : Option ℕ) (m : Messages)
      → heroes (restore_items page now prev is m).children ≡ heroes m.children
  unfolding restore_items divide heroes
  heroes-restore_items [] prev m = refl
  heroes-restore_items (i ∷ is) prev m =
      heroes-restore_items is (next_day page prev i) _
      ∙ heroes-add_message i.content i.sender (local_opts i.sender) (divide page now prev i m)
      ∙ if_both (λ (x : Messages). heroes x.children ≡ heroes m.children) (new_day page prev i)
          {x = divided page now i m} {y = m}
          (omega (arith, heroes-append m.children (divider (page.day_label now i.t) ∷ []))) refl

  restore_saved-IsSingle :
      (i : Item) (is : List Item) (m : Messages) → IsSingle (restore_saved page now (i ∷ is) m)
  restore_saved-IsSingle i is m =
      let none_there : heroes (restore_saved page now (i ∷ is) m).children ≡ 0 =
        unfold restore_saved heroes in
        heroes-restore_items (take_last 22 (i ∷ is)) none (emptied m) in
      record { single = omega arith; counted = λ e. none_there }

  -- The local history: it is restored, and then something is counted, or the list is as before.
  restore_store-IsSingle :
      (s : Store) (m : Messages)
      → IsSingle m
      → IsSingle (restore_store page now s m).0
        × ((restore_store page now s m).1 ≡ true → 0 < (restore_store page now s m).0.count)
  unfolding restore_store clear_local_history
  restore_store-IsSingle nothing m h = (h, λ e. cc)
  restore_store-IsSingle garbage m h = (h, λ e. cc)
  restore_store-IsSingle (saved ts []) m h = (h, λ e. cc)
  restore_store-IsSingle (saved ts (i ∷ is)) m h =
      if_both (λ (r : Messages × Bool). IsSingle r.0 × (r.1 ≡ true → 0 < r.0.count))
        (is_expired now ts) {x = (clear_local_history m, false)}
        {y = (restore_saved page now (i ∷ is) m, true)} (ground arith, λ e. cc)
        (restore_saved-IsSingle i is m, λ e. ground (arith, count-restore_saved page now i is m))

pub add_hero-IsSingle : (g : Text) (m : Messages) → heroes m.children ≡ 0 → IsSingle (add_hero g m)
unfolding add_hero heroes
add_hero-IsSingle g m h = ground (arith, heroes-append m.children (hero g ∷ []))

pub record IsGreeted (b : Boot) : Type 0 where
  pub list : IsSingle b.messages
  pub begun : b.phase ≡ started → 0 < b.messages.count

module _ (greeting : Text) where
  finish-IsGreeted : (b : Boot) → IsSingle b.messages → IsGreeted (finish greeting b)
  unfolding finish
  finish-IsGreeted b h =
      let of = λ (m : Messages). IsSingle m × (0 < m.count) in
      let (list, begun) =
        if_each of (b.messages.count == 0) {x = add_hero greeting b.messages} {y = b.messages}
          (λ e. (
            add_hero-IsSingle greeting b.messages (h.counted (ground arith)),
            unfold add_hero in ground arith,
          ))
          (λ e. (h, ground arith)) in
      record { list = list; begun = λ e. begun }

  module _ (page : Page) (now : ℕ) where
    config_ended-IsGreeted :
        (b : Boot)
        → b.phase ≡ config_wait
        → IsGreeted b
        → IsGreeted (config_ended greeting page now b)
    unfolding config_ended restore_ids restore_local_history
    config_ended-IsGreeted b e h =
        let d = restore_ids b in
        let found = restore_store page now b.messages.store b.messages in
        let list = (restore_store-IsSingle page now b.messages.store b.messages h.list).0 in
        if_both IsGreeted _ {x = finish greeting (with_local greeting page now found d)}
          {y = record (with_local greeting page now found d) { phase = history_wait }}
          (finish-IsGreeted (with_local greeting page now found d) list)
          (record { list = list; begun = λ p. cc })

    take_past-IsSingle :
        (d : Past) (b : Boot)
        → IsSingle b.messages
        → IsSingle (take_past greeting page now d b).messages
    unfolding take_past
    take_past-IsSingle d b h =
        if_both (λ (x : Boot). IsSingle x.messages) (is_empty d.msgs) h
          (add_all-IsSingle page now d.msgs (add_hero greeting (emptied b.messages))
            (add_hero-IsSingle greeting (emptied b.messages) (unfold heroes in refl))).0

    history_ended-IsGreeted :
        (r : Response) (b : Boot) → IsGreeted b → IsGreeted (history_ended greeting page now r b)
    unfolding history_ended
    history_ended-IsGreeted failed b h = finish-IsGreeted b h.list
    history_ended-IsGreeted (answered d) b h =
        finish-IsGreeted (take_past greeting page now d b) (take_past-IsSingle d b h.list)

  module _ (page : Page) where
    Act-IsGreeted : {b d : Boot} → Act greeting page b d → IsGreeted b → IsGreeted d
    unfolding start_anew new_conversation collapse_hero clear_local_history
    Act-IsGreeted {b} (adds now s from opts) h = ground (
      arith,
      add_message-IsSingle page now s from opts b.messages,
      count-add_message page now s from opts b.messages,
    )
    Act-IsGreeted {b} collapses h = ground arith
    Act-IsGreeted {b} (collapsed e) h = ground (arith, heroes-without_hero b.messages.children)
    Act-IsGreeted {b} (turns o t) h = ground arith
    Act-IsGreeted {b} begins_anew h = record {
      list =
          add_hero-IsSingle greeting (emptied (clear_local_history b.messages))
            (unfold heroes in refl);
      begun = unfold add_hero in λ e. ground arith;
    }
    Act-IsGreeted {b} (hears c) h = ground arith
    Act-IsGreeted {b} (composes c) h = ground arith
    Act-IsGreeted {b} (locks e) h = ground arith

    -- From an empty page on, whatever the visitor, the answers and the timers do while the start
    -- waits for the configuration or for the server's history, and whatever these bring: the list
    -- never holds two greetings, and once the start is over it has had a message or a greeting
    -- since it was last emptied.
    pub Reach-IsGreeted : {b d : Boot} → Reach greeting page b d → IsGreeted b → IsGreeted d
    Reach-IsGreeted here h = h
    Reach-IsGreeted (next r (acts a)) h = Act-IsGreeted a (Reach-IsGreeted r h)
    Reach-IsGreeted (next {d = d} r (configures now e)) h =
        config_ended-IsGreeted page now d e (Reach-IsGreeted r h)
    Reach-IsGreeted (next {d = d} r (remembers now o e)) h =
        history_ended-IsGreeted page now o d (Reach-IsGreeted r h)
