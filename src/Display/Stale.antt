-- ===== src/Display/Stale.antt =====
-- What the redraws leave behind: a configuration that comes while an answer is under way, the contact
-- button, and the panel's name.
use website_ai_assistant.Prelude.{
  Bool, true, not, List, [], ◌∷◌, Option, none, some, if◌then◌else◌, ◌≡◌, refl, ap, ◌∙◌, arith,
}
use website_ai_assistant.Text.{Text, text}
use website_ai_assistant.Layout.{Number}
use website_ai_assistant.Config.Values.{Value, Store, get, truthy}
use website_ai_assistant.Config.Remote.{Fetched, failed, loaded}
use website_ai_assistant.Config.Preview.{apply_config}
use website_ai_assistant.Display.{
  Moment, Face, Message, Event, loads, messages, awaits, moves, redraw_loaded, redraw_applied, load,
  configure, on_message, show_loading, happen, happen_all, writing,
}

module _ (shown : Value → Text) (is_safe_url : Text → Bool) (to_text : Value → Text)
    (to_number : Value → Number) (explicit : Store) where
  configure-kept :
      (cfg : Option Store) (now : Moment) (f : Face)
      → ((configure shown is_safe_url to_text to_number cfg now f).drawn.panel_label
          ≡ f.drawn.panel_label)
        × ((configure shown is_safe_url to_text to_number cfg now f).drawn.contact_hidden
            ≡ f.drawn.contact_hidden)
  unfolding configure redraw_applied
  configure-kept none now f = (refl, refl)
  configure-kept (some cfg) now f = (refl, refl)

  on_message-kept :
      (e : Message) (now : Moment) (f : Face)
      → ((on_message shown is_safe_url to_text to_number e now f).drawn.panel_label
          ≡ f.drawn.panel_label)
        × ((on_message shown is_safe_url to_text to_number e now f).drawn.contact_hidden
            ≡ f.drawn.contact_hidden)
  unfolding on_message
  on_message-kept e now f = ground (arith, configure-kept e.config now f)

  load-panel_label :
      (r : Fetched) (now : Moment) (f : Face)
      → (load shown is_safe_url to_text to_number explicit r now f).drawn.panel_label
        ≡ f.drawn.panel_label
  unfolding load redraw_loaded
  load-panel_label failed now f = refl
  load-panel_label (loaded raw) now f = refl

  happen-panel_label :
      (e : Event) (f : Face)
      → (happen shown is_safe_url to_text to_number explicit e f).drawn.panel_label
        ≡ f.drawn.panel_label
  unfolding happen show_loading
  happen-panel_label (loads r now) f = load-panel_label r now f
  happen-panel_label (messages e now) f = (on_message-kept e now f).0
  happen-panel_label (awaits b) f = refl
  happen-panel_label (moves p) f = refl

  -- The panel keeps the accessible name of its first title, whatever title is loaded or sent later.
  pub happen_all-panel_label :
      (es : List Event) (f : Face)
      → (happen_all shown is_safe_url to_text to_number explicit es f).drawn.panel_label
        ≡ f.drawn.panel_label
  unfolding happen_all
  happen_all-panel_label [] f = refl
  happen_all-panel_label (e ∷ es) f =
      happen_all-panel_label es (happen shown is_safe_url to_text to_number explicit e f)
      ∙ happen-panel_label e f

  abbrev pub sent : List (Message × Moment) → List Event
  sent [] = []
  sent ((e, now) ∷ es) = messages e now ∷ sent es

  sent-contact_hidden :
      (es : List (Message × Moment)) (f : Face)
      → (happen_all shown is_safe_url to_text to_number explicit (sent es) f).drawn.contact_hidden
        ≡ f.drawn.contact_hidden
  unfolding happen_all happen
  sent-contact_hidden [] f = refl
  sent-contact_hidden ((e, now) ∷ es) f =
      sent-contact_hidden es (on_message shown is_safe_url to_text to_number e now f)
      ∙ (on_message-kept e now f).1

  load-contact_hidden :
      (raw : Store) (now : Moment) (f : Face)
      → (load shown is_safe_url to_text to_number explicit (loaded raw) now f).drawn.contact_hidden
        ≡ not (
            truthy (
              get
                (text "enableLeadCapture")
                (load shown is_safe_url to_text to_number explicit (loaded raw) now f).options))
  unfolding load redraw_loaded
  load-contact_hidden raw now f = refl

  -- After a configuration was loaded, the contact button is shown just when that configuration
  -- allowed the contact form, whatever the previewing page sends then, also if it switches the form
  -- on or off.
  pub loaded-contact_hidden :
      (raw : Store) (now : Moment) (es : List (Message × Moment)) (f : Face)
      → (happen_all shown is_safe_url to_text to_number explicit
          (loads (loaded raw) now ∷ sent es)
          f).drawn.contact_hidden
        ≡ not (
            truthy (
              get
                (text "enableLeadCapture")
                (load shown is_safe_url to_text to_number explicit (loaded raw) now f).options))
  unfolding happen_all happen
  loaded-contact_hidden raw now es f =
      sent-contact_hidden es (load shown is_safe_url to_text to_number explicit (loaded raw) now f)
      ∙ load-contact_hidden raw now f

  -- A configuration that the previewing page sends while an answer is under way leaves the header
  -- saying so, but not the input: its placeholder is the configured one again.
  pub configure-loading :
      (cfg : Store) (now : Moment) (f : Face)
      → now.is_loading ≡ true
      → ((configure shown is_safe_url to_text to_number
            (some cfg)
            now
            (show_loading shown is_safe_url to_text to_number true f)).drawn.subtitle
          ≡ writing)
        × ((configure shown is_safe_url to_text to_number
              (some cfg)
              now
              (show_loading shown is_safe_url to_text to_number true f)).drawn.placeholder
            ≡ shown (get (text "inputPlaceholder") (apply_config to_text to_number cfg f.options)))
  unfolding configure redraw_applied show_loading
  configure-loading cfg now f h = (
    ap
        (λ b.
          if b
          then writing
          else shown (get (text "subtitle") (apply_config to_text to_number cfg f.options)))
        h,
    refl,
  )
