-- ===== src/History/Bounds.antt =====
-- The stored history stays small, whatever happens in the page.
use website_ai_assistant.Prelude.{
  Bool, if_both, ℕ, zero, suc, ◌-◌, ◌≤◌, List, [], ◌∷◌, arith, length, drop, take_last, length-take,
  length-drop, All, Bool-cases, inl, inr, if◌then◌else◌, ltb,
}
use website_ai_assistant.History.Steps.{Reach, IsKept, Reach-kept}
use website_ai_assistant.History.{
  Child, hero, divider, hint, row, Item, Store, nothing, garbage, saved, Messages, Page, items_of,
  save_local_history, clear_local_history, add_hero, collapse_hero, click_retry, append_row,
  add_message,
}
use website_ai_assistant.History.Local.{divide}

abbrev IsShort : Item → Type 0
IsShort i = length i.content ≤ 800

-- At most 22 messages of at most 800 code units each.
abbrev pub IsBounded : Store → Type 0
IsBounded nothing = Unit
IsBounded garbage = Unit
IsBounded (saved ts items) = (length items ≤ 22) × All IsShort items

All-drop : (n : ℕ) (xs : List Item) → All IsShort xs → All IsShort (drop n xs)
All-drop zero xs h = h
All-drop (suc n) [] h = h
All-drop (suc n) (x ∷ xs) (p, h) = All-drop n xs h

items_of-IsShort : (now : ℕ) (cs : List Child) → All IsShort (items_of now cs)
unfolding items_of
items_of-IsShort now [] = tt
items_of-IsShort now (row r ∷ cs) =
    (omega (arith, length-take 800 r.content), items_of-IsShort now cs)
items_of-IsShort now (hero _ ∷ cs) = items_of-IsShort now cs
items_of-IsShort now (divider _ ∷ cs) = items_of-IsShort now cs
items_of-IsShort now (hint ∷ cs) = items_of-IsShort now cs

capped-IsBounded :
    (ts : ℕ) (xs : List Item)
    → All IsShort xs
    → IsBounded (saved ts (if ltb 22 (length xs) then take_last 22 xs else xs))
capped-IsBounded ts xs h = elim (Bool-cases (ltb 22 (length xs))) [
  | inl e ↦ ground (arith, e, length-drop (length xs - 22) xs, All-drop (length xs - 22) xs h)
  | inr e ↦ ground (arith, e, h)
]

save-IsBounded : (now : ℕ) (m : Messages) → IsBounded (save_local_history now m).store
unfolding save_local_history
save-IsBounded now m =
    capped-IsBounded now (items_of now m.children) (items_of-IsShort now m.children)

module _ (page : Page) (retried : Bool) where
  IsBounded-IsKept : IsKept page retried (λ m. IsBounded m.store)
  unfolding add_message append_row divide add_hero collapse_hero click_retry clear_local_history
  IsBounded-IsKept = record {
    add = λ now s from opts m h.
        if_both (λ (x : Messages). IsBounded x.store) opts.streaming h
          (save-IsBounded now (append_row page s from opts m));
    separate = λ now prev i m h. if_both (λ (x : Messages). IsBounded x.store) _ h h;
    empty = λ m h. h;
    hinted = λ m h. h;
    greet = λ s m h. h;
    collapse = λ m h. h;
    retry = λ i m e h. h;
    clear = λ m h. tt;
    turn = λ b t m h. h;
  }

-- Whatever messages are added, restored or forgotten: if the stored history has at most 22 messages
-- of at most 800 code units each, or there is none, that stays so.
pub Reach-IsBounded :
    (page : Page) (retried : Bool) {m d : Messages}
    → IsBounded m.store
    → Reach page retried m d
    → IsBounded d.store
Reach-IsBounded page retried h r =
    Reach-kept page retried (λ m. IsBounded m.store) (IsBounded-IsKept page retried) h r
