-- ===== src/Config.antt =====
-- static/widget/widget.js: the options of the widget (`boot`, the constructor, `getHeaders`) and its
-- endpoints. The browser's `new URL(rel, base).toString()` is the parameter `resolve`; `href` is the
-- page's address, `script` that of the script, if it has one.
pub mod Values
pub mod Defaults
pub mod Remote
pub mod Preview
pub mod Endpoints
pub mod Priority
pub mod Kinds
pub mod Typed
mod Tests
use website_ai_assistant.Prelude.{
  Bool, true, false, not, ◌&&◌, ◌||◌, List, [], ◌∷◌, ◌++◌, Option, none, some, if◌then◌else◌,
  is_empty,
}
use website_ai_assistant.Text.{Text, text, eq_text}
use Values.{Value, str, bool, Store, get, put, assign, truthy, text_of}
use Defaults.{defaults}

-- `script.dataset`, as far as `boot` reads it; a missing entry is empty.
pub record Dataset : Type 0 where
  pub api : Text
  pub widget_key : Text
  pub title : Text
  pub primary_color : Text
  pub preview : Text

abbrev put_text : Text → Text → Store → Store
put_text k s o = if is_empty s then o else put k (str s) o

-- `boot`, up to the options that it hands to the constructor; `global` is `AI_WIDGET_CONFIG`.
unfoldable pub boot_options : Dataset → Store → Store
unfolding assign put text eq_text
boot_options d global =
    let o = put_text (text "primaryColor") d.primary_color (
      put_text (text "title") d.title (
        put_text (text "widgetPublicKey") d.widget_key
          (put_text (text "apiEndpoint") d.api (assign [] global)))) in
    if eq_text d.preview (text "1") || eq_text d.preview (text "true")
    then put (text "previewMode") (bool true) o
    else o

-- `replace(/chat\/?$/, name + "/")`.
unfoldable pub replace_chat : Text → Text → Text
unfolding text eq_text
replace_chat name [] = []
replace_chat name (c ∷ s) =
    if eq_text (c ∷ s) (text "chat") || eq_text (c ∷ s) (text "chat/")
    then name ++ text "/"
    else c ∷ replace_chat name s

-- `replace(/\/$/, "")`.
unfoldable pub drop_slash : Text → Text
drop_slash [] = []
drop_slash (c ∷ s) = if eq_text (c ∷ s) (b'/' ∷ []) then [] else c ∷ drop_slash s

-- `o[k] = o[k] || v`.
unfoldable pub fill : Text → Text → Store → Store
unfolding get put truthy
fill k v o = if truthy (get k o) then o else put k (str v) o

-- `getHeaders`.
unfoldable pub get_headers : Store → List (Text × Text)
unfolding get truthy text_of text
get_headers o =
    (text "Content-Type", text "application/json")
    ∷ (if truthy (get (text "widgetPublicKey") o)
        then (text "X-Widget-Key", text_of (get (text "widgetPublicKey") o)) ∷ []
        else [])

-- The names of the endpoint options, and of the backend's handlers.
unfoldable pub siblings : List (Text × Text)
unfolding text
siblings =
    (text "configEndpoint", text "widget-config")
    ∷ (text "eventsEndpoint", text "events")
    ∷ (text "feedbackEndpoint", text "feedback")
    ∷ (text "historyEndpoint", text "history")
    ∷ (text "leadsEndpoint", text "leads")
    ∷ (text "handoffEndpoint", text "handoff")
    ∷ []

module _ (resolve : Text → Text → Text) (href : Text) where
  unfoldable pub default_endpoint : Option Text → Text
  unfolding text
  default_endpoint none = resolve (text "/api/chat/") href
  default_endpoint (some src) =
      if is_empty src then resolve (text "/api/chat/") href else resolve (text "/api/chat/") src

  -- `getSiblingEndpoint`.
  unfoldable pub sibling_endpoint : Text → Text → Text
  unfolding replace_chat
  sibling_endpoint api name = resolve (replace_chat name api) href

  unfoldable pub fill_siblings : Text → List (Text × Text) → Store → Store
  unfolding fill sibling_endpoint
  fill_siblings api [] o = o
  fill_siblings api ((k, name) ∷ ks) o = fill_siblings api ks (fill k (sibling_endpoint api name) o)

  -- The chat endpoint that the constructor settles on.
  unfoldable pub chat_endpoint : Option Text → Value → Value
  unfolding truthy default_endpoint text_of text eq_text
  chat_endpoint script v =
      if not (truthy v) || eq_text (text_of v) (text "/api/chat/")
      then str (default_endpoint script)
      else v

  -- The constructor's options; `session` is what `generateSessionId` gives.
  unfoldable pub construct : Option Text → Text → Store → Store
  unfolding assign defaults get put text fill chat_endpoint fill_siblings siblings text_of
      drop_slash
  construct script session explicit =
      let o = fill (text "sessionId") session (assign defaults explicit) in
      let api = chat_endpoint script (get (text "apiEndpoint") o) in
      let p = fill_siblings (text_of api) siblings (put (text "apiEndpoint") api o) in
      fill (text "streamEndpoint") (drop_slash (text_of api) ++ text "/stream/") p
