-- ===== src/Answer.antt =====
-- static/widget/widget.js: what happens once an answer is there (`handleAnswerResult` for a whole answer,
-- `handleAnswerResultFromEl` for a streamed one, `applyRuleActions`, `maybeShowHandoff`): the list of
-- messages, the composer and the links together. What is put into a row stands in a list for each
-- kind of part; the order of the parts of a row is not modelled.
pub mod Handlers
pub mod Paths
pub mod Steps
pub mod Offers
pub mod Rules
pub mod Last
pub mod Samples
mod Tests
use website_ai_assistant.Prelude.{
  ℕ, zero, suc, Bool, true, false, not, ◌&&◌, ◌||◌, List, [], ◌∷◌, ◌++◌, if◌then◌else◌, is_empty,
  take,
}
use website_ai_assistant.Text.{Text, text, eq_text}
use website_ai_assistant.Escape.{escape_html}
use website_ai_assistant.Stream.{Payload}
use website_ai_assistant.Chat.{Chat, handle_answer, type_out}
use website_ai_assistant.History.{
  Sender, bot, Child, hero, divider, hint, row, Row, Messages, Opts, Page, shown,
  save_local_history, add_message, new_conversation, append_row,
}
use website_ai_assistant.Links.{Contacts, Citation, Chip, Anchor, push_if, build_citations}

pub record RuleAction : Type 0 where
  pub action_type : Text
  pub type_ : Text
  pub payload : Text
  pub url : Text
  pub label : Text
  pub name : Text

-- `meta`; the fields that the composer reads are in `payload`, `message_id` is its text or empty.
pub record Meta : Type 0 where
  pub payload : Payload
  pub citations : List Citation
  pub message_id : Text
  pub rule_actions : List RuleAction

pub record Feedback : Type 0 where
  pub question : Text
  pub answer : Text
  pub message_id : Text

-- What a rule puts into the bubble.
pub data RuleItem : Type 0 where
  rule_link : (label : Text) → (href : Text) → RuleItem
  rule_hint : Text → RuleItem

abbrev pub or_else : Text → Text → Text
or_else s t = if is_empty s then t else s

abbrev pub type_of : RuleAction → Text
type_of a = or_else a.action_type a.type_

abbrev pub payload_of : RuleAction → Text
payload_of a = or_else a.payload a.url

abbrev pub label_of : RuleAction → Text
label_of a = or_else a.label (or_else a.name (text "\u{645}\u{634}\u{627}\u{647}\u{62f}\u{647}"))

abbrev pub gives_link : RuleAction → Bool
gives_link a = eq_text (type_of a) (text "suggest_link") && not (is_empty (payload_of a))

abbrev pub gives_hint : RuleAction → Bool
gives_hint a = eq_text (type_of a) (text "suggest_text") && not (is_empty (payload_of a))

-- The bar of channels under an answer.
pub record Bar : Type 0 where
  pub label : Text
  pub anchors : List Anchor

pub record Widget : Type 0 where
  pub messages : Messages
  pub chat : Chat
  pub chips : List (List Chip)
  pub feedbacks : List Feedback
  pub rule_items : List RuleItem
  pub bars : List Bar
  pub lead_forms : List Text
  pub handoff_shown : Bool

-- The browser's verdict on an address, and the options that are read here.
pub record Setup : Type 0 where
  pub is_safe_url : Text → Bool
  pub contacts : Contacts
  pub handoff_trigger : Text
  pub enable_handoff : Bool
  pub enable_lead_capture : Bool
  pub preview_mode : Bool
  pub handoff_message : Text

-- `lastElementChild` is a row.
unfoldable pub last_is_row : List Child → Bool
last_is_row [] = false
last_is_row (row r ∷ []) = true
last_is_row (hero _ ∷ []) = false
last_is_row (divider _ ∷ []) = false
last_is_row (hint ∷ []) = false
last_is_row (_ ∷ c ∷ cs) = last_is_row (c ∷ cs)

-- A text is appended to the bubble of the last row.
unfoldable pub append_to_last : Text → List Child → List Child
append_to_last s [] = []
append_to_last s (row r ∷ []) = row (record r { content = r.content ++ s }) ∷ []
append_to_last s (hero t ∷ []) = hero t ∷ []
append_to_last s (divider t ∷ []) = divider t ∷ []
append_to_last s (hint ∷ []) = hint ∷ []
append_to_last s (c ∷ d ∷ cs) = c ∷ append_to_last s (d ∷ cs)

-- A change of the row at an index.
unfoldable pub at_row : ℕ → (Row → Row) → List Child → List Child
at_row i f [] = []
at_row zero f (row r ∷ cs) = row (f r) ∷ cs
at_row zero f (hero t ∷ cs) = hero t ∷ cs
at_row zero f (divider t ∷ cs) = divider t ∷ cs
at_row zero f (hint ∷ cs) = hint ∷ cs
at_row (suc i) f (c ∷ cs) = c ∷ at_row i f cs

abbrev pub is_locked : Meta → Bool
is_locked d = d.payload.guard_blocked || d.payload.quota_locked

abbrev pub with_children : List Child → Widget → Widget
with_children cs w = record w { messages = record w.messages { children = cs } }

-- The bubble of the last row gets one more part.
unfoldable pub add_item : RuleItem → Text → Widget → Widget
unfolding append_to_last
add_item item shown_text w =
    record (with_children (append_to_last shown_text w.messages.children) w) {
      rule_items = w.rule_items ++ item ∷ [];
    }

abbrev pub saved_now : ℕ → Widget → Widget
saved_now now w = record w { messages = save_local_history now w.messages }

-- The button for a new conversation: the rows go with all that hangs on them.
unfoldable pub start_anew : Text → Widget → Widget
unfolding new_conversation
start_anew greeting w = record w {
  messages = new_conversation greeting w.messages;
  chat = record w.chat { chat_started = false };
  chips = [];
  feedbacks = [];
  rule_items = [];
  bars = [];
  lead_forms = [];
  handoff_shown = false;
}

abbrev pub streaming_opts : Opts
streaming_opts = record {
  streaming = true;
  is_error = false;
  no_retry = false;
  skip_feedback = true;
  citations = false;
}

-- The row of an answer that begins to stream.
abbrev pub begun : Page → Widget → Widget
begun page w = record w { messages = append_row page [] bot streaming_opts w.messages }
