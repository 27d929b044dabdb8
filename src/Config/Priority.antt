-- ===== src/Config/Priority.antt =====
-- Which value an option gets: the site's own, else the server's, else the default.
use website_ai_assistant.Prelude.{
  Bool, true, false, not, ◌&&◌, ◌||◌, List, [], ◌∷◌, Option, if◌then◌else◌, ◌≡◌, refl, ap, ◌∙◌,
  arith,
}
use website_ai_assistant.Text.{Text, text, eq_text}
use website_ai_assistant.Text.Laws.{eq_text_iff}
use website_ai_assistant.Config.{
  fill, fill_siblings, siblings, construct, sibling_endpoint, chat_endpoint,
}
use website_ai_assistant.Config.Values.{
  Value, undefined, str, text_of, Store, get, has, put, assign, is_set, get-put, get-assign,
}
use website_ai_assistant.Config.Defaults.{defaults}
use website_ai_assistant.Config.Remote.{
  remote_names, take_remote, Fetched, failed, loaded, load_config,
}

-- No option is named twice.
abbrev pub is_named : Text → List (Text × Text) → Bool
is_named j [] = false
is_named j ((k, a) ∷ ns) = eq_text k j || is_named j ns

abbrev pub is_distinct : List (Text × Text) → Bool
is_distinct [] = true
is_distinct ((k, a) ∷ ns) = not (is_named k ns) && is_distinct ns

pub remote_names_distinct : is_distinct remote_names ≡ true
unfolding remote_names text eq_text
remote_names_distinct = refl

-- The server's value of an option.
abbrev pub source : Text → Store → List (Text × Text) → Value
source j raw [] = undefined
source j raw ((k, a) ∷ ns) = if eq_text k j then get a raw else source j raw ns

pub source-unnamed :
    (j : Text) (raw : Store) (ns : List (Text × Text))
    → is_named j ns ≡ false
    → source j raw ns ≡ undefined
source-unnamed j raw [] h = refl
source-unnamed j raw ((k, a) ∷ ns) h = ground (arith, source-unnamed j raw ns)

source-nothing : (j : Text) (ns : List (Text × Text)) → source j [] ns ≡ undefined
unfolding get
source-nothing j [] = refl
source-nothing j ((k, a) ∷ ns) = ground (arith, source-nothing j ns)

abbrev under : Bool → Value → Value → Value
under fixed new old = if fixed then old else if is_set new then new else old

take_one :
    (explicit raw : Store) (k a j : Text) (o : Store)
    → get j (if is_set (get a raw) && not (has k explicit) then put k (get a raw) o else o)
      ≡ (if eq_text k j then under (has j explicit) (get a raw) (get j o) else get j o)
take_one explicit raw k a j o = ground (arith, get-put k j (get a raw) o, eq_text_iff k j)

is_named-same :
    (k j : Text) (ns : List (Text × Text)) → eq_text k j ≡ true → is_named k ns ≡ is_named j ns
is_named-same k j ns h = ap (λ s. is_named s ns) ((eq_text_iff k j).0 h)

pub get-take_remote :
    (explicit raw : Store) (j : Text) (ns : List (Text × Text)) (o : Store)
    → is_distinct ns ≡ true
    → get j (take_remote explicit raw ns o) ≡ under (has j explicit) (source j raw ns) (get j o)
unfolding take_remote is_set
get-take_remote explicit raw j [] o d = ground arith
get-take_remote explicit raw j ((k, a) ∷ ns) o d =
    let p = if is_set (get a raw) && not (has k explicit) then put k (get a raw) o else o in
    ground (
      arith,
      get-take_remote explicit raw j ns p,
      take_one explicit raw k a j o,
      is_named-same k j ns,
      source-unnamed j raw ns,
    )

-- Not one of the options that the constructor computes.
pub record IsFree (j : Text) : Type 0 where
  pub session : eq_text (text "sessionId") j ≡ false
  pub chat : eq_text (text "apiEndpoint") j ≡ false
  pub sibling : is_named j siblings ≡ false
  pub stream : eq_text (text "streamEndpoint") j ≡ false

get-fill : (k j v : Text) (o : Store) → eq_text k j ≡ false → get j (fill k v o) ≡ get j o
unfolding fill
get-fill k j v o h = ground (arith, get-put k j (str v) o)

module _ (resolve : Text → Text → Text) (href : Text) where
  get-fill_siblings :
      (api j : Text) (ns : List (Text × Text)) (o : Store)
      → is_named j ns ≡ false
      → get j (fill_siblings resolve href api ns o) ≡ get j o
  unfolding fill_siblings
  get-fill_siblings api j [] o h = refl
  get-fill_siblings api j ((k, n) ∷ ns) o h =
      get-fill_siblings api j ns (fill k (sibling_endpoint resolve href api n) o) (ground arith)
      ∙ get-fill k j (sibling_endpoint resolve href api n) o (ground arith)

  get-construct :
      (script : Option Text) (session : Text) (explicit : Store) (j : Text)
      → IsFree j
      → get j (construct resolve href script session explicit)
        ≡ (if has j explicit then get j explicit else get j defaults)
  unfolding construct
  get-construct script session explicit j h =
      let o = fill (text "sessionId") session (assign defaults explicit) in
      let api = chat_endpoint resolve href script (get (text "apiEndpoint") o) in
      let p = put (text "apiEndpoint") api o in
      get-fill (text "streamEndpoint") j _ _ h.stream
      ∙ get-fill_siblings (text_of api) j siblings p h.sibling
      ∙ get-put (text "apiEndpoint") j api o
      ∙ ap (λ b. if b then api else get j o) h.chat
      ∙ get-fill (text "sessionId") j session (assign defaults explicit) h.session
      ∙ get-assign j defaults explicit

  -- The configuration that the widget should have: the site's own value, else the server's, else the
  -- default.
  abbrev pub preferred : Store → Store → Text → Value
  preferred explicit raw j =
      if has j explicit
      then get j explicit
      else if is_set (source j raw remote_names)
      then source j raw remote_names
      else get j defaults

  abbrev pub raw_of : Fetched → Store
  raw_of failed = []
  raw_of (loaded raw) = raw

  -- The options with which the widget runs, behind the constructor and `loadConfig`, are those of the
  -- specification, whatever the site and the server say and also if the configuration cannot be
  -- loaded: for every option that the constructor does not compute, the site's own value, else the
  -- server's, else the default.
  pub load_config_refines :
      (script : Option Text) (session : Text) (explicit : Store) (f : Fetched) (j : Text)
      → IsFree j
      → get j (load_config explicit f (construct resolve href script session explicit))
        ≡ preferred explicit (raw_of f) j
  unfolding load_config
  load_config_refines script session explicit failed j h =
      get-construct script session explicit j h ∙ ground (arith, source-nothing j remote_names)
  load_config_refines script session explicit (loaded raw) j h =
      get-take_remote explicit raw j remote_names _ remote_names_distinct
      ∙ ground (arith, get-construct script session explicit j h)
