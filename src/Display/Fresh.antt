-- ===== src/Display/Fresh.antt =====
-- What the page shows of the options is what a page that is mounted with them would show.
use website_ai_assistant.Prelude.{
  Bool, false, List, [], ◌∷◌, Option, none, some, ◌≡◌, refl, ap, sym, ◌∙◌, arith,
}
use website_ai_assistant.Text.{Text, text, eq_text}
use website_ai_assistant.Layout.{Number}
use website_ai_assistant.Config.Values.{Value, Store, get}
use website_ai_assistant.Config.Remote.{remote_names, Fetched, failed, loaded, load_config}
use website_ai_assistant.Config.Priority.{
  get-take_remote, source-unnamed, is_named, remote_names_distinct,
}
use website_ai_assistant.Display.{
  Look, Drawn, Moment, Face, Message, Event, loads, messages, awaits, moves, mount, redraw_loaded,
  redraw_applied, load, configure, on_message, show_loading, happen, happen_all,
}

teaser_unnamed : is_named (text "teaserText") remote_names ≡ false
unfolding remote_names text eq_text
teaser_unnamed = refl

-- The server does not set the teaser's text.
get-teaser :
    (explicit raw o : Store)
    → get (text "teaserText") (load_config explicit (loaded raw) o) ≡ get (text "teaserText") o
unfolding load_config
get-teaser explicit raw o =
    get-take_remote explicit raw (text "teaserText") remote_names o remote_names_distinct
    ∙ ground (arith, source-unnamed (text "teaserText") raw remote_names, teaser_unnamed)

module _ (shown : Value → Text) (is_safe_url : Text → Bool) where
  -- The options as a page shows them that is mounted with them.
  abbrev pub look_of : Store → Look
  look_of o = (mount shown is_safe_url o).look

  redraw_applied-look :
      (now : Moment) (o : Store) (d : Drawn)
      → (redraw_applied shown is_safe_url now o d).look ≡ look_of o
  unfolding redraw_applied mount
  redraw_applied-look now o d = refl

  redraw_loaded-look :
      (now : Moment) (o : Store) (d : Drawn)
      → d.look.teaser_text ≡ shown (get (text "teaserText") o)
      → (redraw_loaded shown is_safe_url now o d).look ≡ look_of o
  unfolding redraw_loaded mount
  redraw_loaded-look now o d h = ap (λ t. record (look_of o) { teaser_text = t }) h

  look_of-teaser : (o : Store) → (look_of o).teaser_text ≡ shown (get (text "teaserText") o)
  unfolding mount
  look_of-teaser o = refl

  abbrev pub IsFresh : Face → Type 0
  IsFresh f = f.drawn.look ≡ look_of f.options

  module _ (to_text : Value → Text) (to_number : Value → Number) (explicit : Store) where
    load-IsFresh :
        (r : Fetched) (now : Moment) (f : Face)
        → IsFresh f
        → IsFresh (load shown is_safe_url to_text to_number explicit r now f)
    unfolding load
    load-IsFresh failed now f h = h
    load-IsFresh (loaded raw) now f h =
        redraw_loaded-look now (load_config explicit (loaded raw) f.options) f.drawn (
          ap (λ (l : Look). l.teaser_text) h
          ∙ look_of-teaser f.options
          ∙ ap shown (sym (get-teaser explicit raw f.options)))

    configure-IsFresh :
        (cfg : Option Store) (now : Moment) (f : Face)
        → IsFresh f
        → IsFresh (configure shown is_safe_url to_text to_number cfg now f)
    unfolding configure
    configure-IsFresh none now f h = h
    configure-IsFresh (some cfg) now f h = redraw_applied-look now _ f.drawn

    on_message-IsFresh :
        (e : Message) (now : Moment) (f : Face)
        → IsFresh f
        → IsFresh (on_message shown is_safe_url to_text to_number e now f)
    unfolding on_message
    on_message-IsFresh e now f h = ground (arith, configure-IsFresh e.config now f h)

    happen-IsFresh :
        (e : Event) (f : Face)
        → IsFresh f
        → IsFresh (happen shown is_safe_url to_text to_number explicit e f)
    unfolding happen show_loading
    happen-IsFresh (loads r now) f h = load-IsFresh r now f h
    happen-IsFresh (messages e now) f h = on_message-IsFresh e now f h
    happen-IsFresh (awaits b) f h = h
    happen-IsFresh (moves p) f h = h

    -- However often a configuration is loaded or fails to load, and whatever the previewing page
    -- sends: title, badge, avatar, suggestions, links, channels, the texts of sheet, teaser and
    -- round button and its icon are drawn as on a page that is mounted with the present options.
    pub happen_all-IsFresh :
        (es : List Event) (f : Face)
        → IsFresh f
        → IsFresh (happen_all shown is_safe_url to_text to_number explicit es f)
    unfolding happen_all
    happen_all-IsFresh [] f h = h
    happen_all-IsFresh (e ∷ es) f h =
        happen_all-IsFresh es (happen shown is_safe_url to_text to_number explicit e f)
          (happen-IsFresh e f h)
