-- ===== src/Display/Tests.antt =====
-- What is drawn of a configuration that is loaded and one that is sent.
use website_ai_assistant.Prelude.{Bool, ◌≡◌, refl, [], ◌∷◌, List, some, true, false}
use website_ai_assistant.Text.{Text, text, starts_with, eq_text}
use website_ai_assistant.Layout.{Number, not_number}
use website_ai_assistant.Config.Values.{Value, str, bool, Store, text_of}
use website_ai_assistant.Config.Remote.{loaded}
use website_ai_assistant.Panel.Steps.{mounted}
use website_ai_assistant.Display.{Moment, Face, Event, loads, messages, mount, happen_all}
use website_ai_assistant.Display.Fresh.{IsFresh, happen_all-IsFresh}

abbrev is_safe : Text → Bool
is_safe s = starts_with (text "https:") s

abbrev no_number : Value → Number
no_number v = not_number

abbrev own : Store
own = (text "title", str (text "Shop")) ∷ (text "subtitle", str (text "Ask us")) ∷ []

abbrev face : Face
face = record {
  options = own;
  drawn = mount text_of is_safe own;
  panel = mounted (text "Shop") false;
}

abbrev busy : Moment
busy = record { is_loading = true; chat_started = true; children = [] }

abbrev remote : Store
remote = (text "title", str (text "Remote")) ∷ (text "enable_lead_capture", bool false) ∷ []

abbrev trial : Store
trial = (text "title", str (text "Trial")) ∷ (text "enableLeadCapture", bool true) ∷ []

abbrev events : List Event
events =
    loads (loaded remote) busy
    ∷ messages (record { type_ = text "aiss:config"; config = some trial }) busy
    ∷ []

happen_all-IsFresh_example :
    IsFresh text_of is_safe (happen_all text_of is_safe text_of no_number [] events face)
happen_all-IsFresh_example =
    happen_all-IsFresh text_of is_safe text_of no_number [] events face refl

sent_title :
    (happen_all text_of is_safe text_of no_number [] events face).drawn.look.title ≡ text "Trial"
unfolding happen_all text eq_text
sent_title = refl
