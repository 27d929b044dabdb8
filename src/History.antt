-- ===== src/History.antt =====
-- static/widget/widget.js: the list of messages (`addMessage`, `addHero`, `collapseHero`) and its memory
-- (`saveLocalHistory`, `restoreLocalHistory`, `clearLocalHistory`, `restoreHistory`, the button for a new
-- conversation). Avatars, times and citations are noted by presence; `now` is `Date.now()`.
pub mod Local
pub mod Steps
pub mod Bounds
pub mod Restored
pub mod Newest
mod Tests
use website_ai_assistant.Prelude.{
  ℕ, zero, suc, ◌+◌, ◌-◌, Bool, true, false, not, ◌&&◌, ◌||◌, List, [], ◌∷◌, ◌++◌, Option, none,
  some, if◌then◌else◌, ◌==◌, ltb, length, take, take_last, is_empty,
}
use website_ai_assistant.Text.{Text}

pub data Sender : Type 0 where
  user bot : Sender

abbrev pub is_bot : Sender → Bool
is_bot user = false
is_bot bot = true

abbrev pub same_sender : Sender → Sender → Bool
same_sender user user = true
same_sender bot bot = true
same_sender _ _ = false

-- A row of the conversation; `content` is the `textContent` of its bubble.
pub record Row : Type 0 where
  pub sender : Sender
  pub content : Text
  pub is_cont : Bool
  pub is_last : Bool
  pub has_retry : Bool
  pub has_feedback : Bool
  pub has_time : Bool
  pub has_citations : Bool

-- The children of the list of messages.
pub data Child : Type 0 where
  hero : Text → Child
  divider : Text → Child
  hint : Child
  row : Row → Child

pub record Item : Type 0 where
  pub sender : Sender
  pub content : Text
  pub t : ℕ

-- The browser's entry for the history: none, no JSON of the right shape, or the saved object.
pub data Store : Type 0 where
  nothing garbage : Store
  saved : (ts : ℕ) → List Item → Store

pub record Messages : Type 0 where
  pub children : List Child
  pub count : ℕ
  pub store : Store
  pub is_open : Bool
  pub unread_marks : ℕ
  pub last_user_message : Text

-- `opts`, as the callers set it; `no_retry` is `retry: false`.
pub record Opts : Type 0 where
  pub streaming : Bool
  pub is_error : Bool
  pub no_retry : Bool
  pub skip_feedback : Bool
  pub citations : Bool

-- The browser and the options: the text of a bubble with rendered Markdown, the day of a time
-- (`toDateString`), the divider's label, and what the site wants to see.
pub record Page : Type 0 where
  pub plain : Text → Text
  pub day : ℕ → ℕ
  pub day_label : ℕ → ℕ → Text
  pub show_feedback : Bool
  pub show_timestamp : Bool
  pub show_citations : Bool

-- `prev`: the last child is a row of the same sender.
unfoldable pub continues : Sender → List Child → Bool
continues s [] = false
continues s (hero _ ∷ []) = false
continues s (divider _ ∷ []) = false
continues s (hint ∷ []) = false
continues s (row r ∷ []) = same_sender s r.sender
continues s (_ ∷ c ∷ cs) = continues s (c ∷ cs)

-- Only the first row found loses the mark of the newest.
unfoldable pub unmark : List Child → List Child
unmark [] = []
unmark (row r ∷ cs) =
    let rest = unmark cs in
    if r.is_last then row (record r { is_last = false }) ∷ cs else row r ∷ rest
unmark (hero s ∷ cs) = hero s ∷ unmark cs
unmark (divider s ∷ cs) = divider s ∷ unmark cs
unmark (hint ∷ cs) = hint ∷ unmark cs

abbrev pub item_of : ℕ → Row → Item
item_of now r = record { sender = r.sender; content = take 800 r.content; t = now }

-- The loop of `saveLocalHistory`.
unfoldable pub items_of : ℕ → List Child → List Item
items_of now [] = []
items_of now (row r ∷ cs) = item_of now r ∷ items_of now cs
items_of now (hero _ ∷ cs) = items_of now cs
items_of now (divider _ ∷ cs) = items_of now cs
items_of now (hint ∷ cs) = items_of now cs

unfoldable pub save_local_history : ℕ → Messages → Messages
unfolding items_of
save_local_history now m =
    let items = items_of now m.children in
    record m { store = saved now (if ltb 22 (length items) then take_last 22 items else items) }

unfoldable pub clear_local_history : Messages → Messages
clear_local_history m = record m { store = nothing }

unfoldable pub add_hero : Text → Messages → Messages
add_hero s m = record m { children = m.children ++ hero s ∷ []; count = m.count + 1 }

-- `collapseHero`, after its timer: the first hero is gone.
unfoldable pub without_hero : List Child → List Child
without_hero [] = []
without_hero (hero s ∷ cs) = cs
without_hero (row r ∷ cs) = row r ∷ without_hero cs
without_hero (divider s ∷ cs) = divider s ∷ without_hero cs
without_hero (hint ∷ cs) = hint ∷ without_hero cs

-- The click on the retry button of the row at an index takes the row away, before `sendText` may send or
-- refuse the message.
unfoldable pub without_row : ℕ → List Child → List Child
without_row i [] = []
without_row zero (row r ∷ cs) = if r.has_retry then cs else row r ∷ cs
without_row zero (hero s ∷ cs) = hero s ∷ cs
without_row zero (divider s ∷ cs) = divider s ∷ cs
without_row zero (hint ∷ cs) = hint ∷ cs
without_row (suc i) (c ∷ cs) = c ∷ without_row i cs

unfoldable pub click_retry : ℕ → Messages → Messages
unfolding without_row
click_retry i m = record m { children = without_row i m.children }

unfoldable pub collapse_hero : Messages → Messages
unfolding without_hero
collapse_hero m = record m { children = without_hero m.children }

-- The button for a new conversation.
unfoldable pub new_conversation : Text → Messages → Messages
unfolding add_hero clear_local_history
new_conversation greeting m =
    add_hero greeting (record (clear_local_history m) { children = []; count = 0 })

module _ (page : Page) where
  -- `bubble.textContent`
  abbrev pub shown : Sender → Text → Text
  shown user s = s
  shown bot s = page.plain s

  abbrev pub new_row : Text → Sender → Opts → Messages → Row
  new_row s from opts m = record {
    sender = from;
    content = shown from s;
    is_cont = continues from m.children;
    is_last = true;
    has_retry = opts.is_error && not opts.no_retry && not (is_empty m.last_user_message);
    has_feedback = is_bot from && page.show_feedback && not opts.skip_feedback;
    has_time = page.show_timestamp && not opts.streaming;
    has_citations = is_bot from && page.show_citations && opts.citations;
  }

  -- The list and the badge, before the history is saved.
  unfoldable pub append_row : Text → Sender → Opts → Messages → Messages
  unfolding continues unmark
  append_row s from opts m = record m {
    children = unmark m.children ++ row (new_row s from opts m) ∷ [];
    count = m.count + 1;
    unread_marks =
        if is_bot from && not opts.streaming && not m.is_open
        then m.unread_marks + 1
        else m.unread_marks;
  }

  -- `addMessage`, for a message that is not the greeting.
  unfoldable pub add_message : ℕ → Text → Sender → Opts → Messages → Messages
  unfolding append_row save_local_history
  add_message now s from opts m =
      if opts.streaming
      then append_row s from opts m
      else save_local_history now (append_row s from opts m)
