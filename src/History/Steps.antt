-- ===== src/History/Steps.antt =====
-- What happens to the list of messages in the page, and how an invariant of its parts is one of all;
-- `retried` says whether retry buttons are clicked.
use website_ai_assistant.Prelude.{
  if_both, ℕ, Bool, List, [], ◌∷◌, Option, none, take_last, ◌&&◌, true, ◌≡◌,
}
use website_ai_assistant.Text.{Text}
use website_ai_assistant.History.{
  Sender, hint, Item, Store, nothing, garbage, saved, Messages, Opts, Page, clear_local_history,
  add_hero, collapse_hero, click_retry, new_conversation, add_message, is_bot,
}
use website_ai_assistant.History.Local.{
  is_expired, local_opts, server_opts, next_day, divide, restore_items, restore_saved,
  restore_store, restore_local_history, add_all, restore_history,
}

module _ (page : Page) (retried : Bool) where
  pub data Step (m : Messages) : Messages → Type 0 where
    adds :
        (now : ℕ) (s : Text) (from : Sender) (opts : Opts)
        → Step m (add_message page now s from opts m)
    greets : (s : Text) → Step m (add_hero s m)
    collapses : Step m (collapse_hero m)
    starts_anew : (greeting : Text) → Step m (new_conversation greeting m)
    restores : (now : ℕ) → Step m (restore_local_history page now m).0
    restores_server :
        (known : Bool) (now : ℕ) (greeting : Text) (msgs : List (Sender × Text × Bool))
        → Step m (restore_history page known now greeting msgs m)
    -- the retry button of a row
    retries : (i : ℕ) → retried ≡ true → Step m (click_retry i m)
    -- the panel is opened or closed, or the visitor sends a message
    turns : (b : Bool) (t : Text) → Step m (record m { is_open = b; last_user_message = t })

  pub data Reach (m : Messages) : Messages → Type 0 where
    here : Reach m m
    next : {d e : Messages} → Reach m d → Step d e → Reach m e

  -- An invariant of the basic changes.
  pub record IsKept (P : Messages → Type 0) : Type 0 where
    pub add :
        (now : ℕ) (s : Text) (from : Sender) (opts : Opts) (m : Messages)
        → P m
        → P (add_message page now s from opts m)
    pub separate :
        (now : ℕ) (prev : Option ℕ) (i : Item) (m : Messages) → P m → P (divide page now prev i m)
    pub empty : (m : Messages) → P m → P (record m { children = []; count = 0 })
    pub hinted : (m : Messages) → P m → P (record m { children = hint ∷ m.children })
    pub greet : (s : Text) (m : Messages) → P m → P (add_hero s m)
    pub collapse : (m : Messages) → P m → P (collapse_hero m)
    pub retry : (i : ℕ) (m : Messages) → retried ≡ true → P m → P (click_retry i m)
    pub clear : (m : Messages) → P m → P (clear_local_history m)
    pub turn :
        (b : Bool) (t : Text) (m : Messages)
        → P m
        → P (record m { is_open = b; last_user_message = t })

  module _ (P : Messages → Type 0) (k : IsKept P) where
    restore_items-kept :
        (now : ℕ) (is : List Item) (prev : Option ℕ) (m : Messages)
        → P m
        → P (restore_items page now prev is m)
    unfolding restore_items
    restore_items-kept now [] prev m h = h
    restore_items-kept now (i ∷ is) prev m h =
        restore_items-kept now is (next_day page prev i) _
          (k.add now i.content i.sender (local_opts i.sender) _ (k.separate now prev i m h))

    add_all-kept :
        (now : ℕ) (ms : List (Sender × Text × Bool)) (m : Messages)
        → P m
        → P (add_all page now ms m)
    unfolding add_all
    add_all-kept now [] m h = h
    add_all-kept now ((from, s, c) ∷ ms) m h =
        add_all-kept now ms _ (k.add now s from (server_opts (is_bot from && c)) m h)

    restore_saved-kept :
        (now : ℕ) (is : List Item) (m : Messages) → P m → P (restore_saved page now is m)
    unfolding restore_saved
    restore_saved-kept now is m h =
        k.hinted _ (restore_items-kept now (take_last 22 is) none _ (k.empty m h))

    restore_store-kept :
        (now : ℕ) (s : Store) (m : Messages) → P m → P (restore_store page now s m).0
    unfolding restore_store
    restore_store-kept now nothing m h = h
    restore_store-kept now garbage m h = h
    restore_store-kept now (saved ts []) m h = h
    restore_store-kept now (saved ts (i ∷ is)) m h =
        if_both (λ (x : Messages × Bool). P x.0) (is_expired now ts) (k.clear m h)
          (restore_saved-kept now (i ∷ is) m h)

    Step-kept : {m d : Messages} → Step m d → P m → P d
    unfolding new_conversation restore_local_history restore_history
    Step-kept {m} (adds now s from opts) h = k.add now s from opts m h
    Step-kept {m} (greets s) h = k.greet s m h
    Step-kept {m} collapses h = k.collapse m h
    Step-kept {m} (starts_anew g) h = k.greet g _ (k.empty _ (k.clear m h))
    Step-kept {m} (restores now) h = restore_store-kept now m.store m h
    Step-kept {m} (restores_server known now g msgs) h =
        if_both P _ h (add_all-kept now msgs _ (k.greet g _ (k.empty m h)))
    Step-kept {m} (retries i e) h = k.retry i m e h
    Step-kept {m} (turns b t) h = k.turn b t m h

    pub Reach-kept : {m d : Messages} → P m → Reach m d → P d
    Reach-kept h here = h
    Reach-kept h (next r s) = Step-kept s (Reach-kept h r)
