-- ===== src/Config/Tests.antt =====
-- Tests of the configuration, and its theorems at concrete inputs.
use website_ai_assistant.Prelude.{◌≡◌, refl, [], ◌∷◌, none}
use website_ai_assistant.Text.{Text, text, eq_text}
use website_ai_assistant.Layout.{Number, not_number}
use website_ai_assistant.Config.{construct, siblings, get_headers}
use website_ai_assistant.Config.Values.{Value, str, null, Store, get}
use website_ai_assistant.Config.Defaults.{defaults}
use website_ai_assistant.Config.Remote.{loaded, load_config}
use website_ai_assistant.Config.Preview.{apply_config}
use website_ai_assistant.Config.Priority.{preferred, load_config_refines}
use website_ai_assistant.Config.Kinds.{IsTyped, defaults-IsTyped}
use website_ai_assistant.Config.Typed.{apply_config-IsTyped}

-- A resolver that takes every address for absolute.
abbrev absolute : Text → Text → Text
absolute rel base = rel

abbrev shop : Store
shop = (text "title", str (text "Shop")) ∷ []

abbrev server : Store
server =
    (text "title", str (text "Remote"))
    ∷ (text "faq_url", str (text "https://x/faq"))
    ∷ (text "theme_mode", null)
    ∷ []

abbrev running : Store
running = load_config shop (loaded server) (construct absolute [] none (text "s1") shop)

own_title : get (text "title") running ≡ str (text "Shop")
unfolding load_config construct get text eq_text
own_title = refl

server_faq : get (text "faqUrl") running ≡ str (text "https://x/faq")
unfolding load_config construct get text eq_text
server_faq = refl

default_theme : get (text "themeMode") running ≡ str (text "gradient")
unfolding load_config construct get text eq_text
default_theme = refl

config_place : get (text "configEndpoint") running ≡ str (text "/api/widget-config/")
unfolding load_config construct get text eq_text
config_place = refl

stream_place : get (text "streamEndpoint") running ≡ str (text "/api/chat/stream/")
unfolding load_config construct get text eq_text
stream_place = refl

no_key : get_headers running ≡ (text "Content-Type", text "application/json") ∷ []
unfolding get_headers load_config construct text eq_text
no_key = refl

load_config_refines_example :
    get (text "faqUrl") running ≡ preferred absolute [] shop server (text "faqUrl")
unfolding text eq_text siblings
load_config_refines_example =
    load_config_refines absolute [] none (text "s1") shop (loaded server) (text "faqUrl")
      (record { session = refl; chat = refl; sibling = refl; stream = refl })

abbrev plain_text : Value → Text
plain_text v = text "x"

abbrev no_number : Value → Number
no_number v = not_number

apply_config-IsTyped_example : IsTyped (apply_config plain_text no_number server defaults)
apply_config-IsTyped_example =
    apply_config-IsTyped plain_text no_number server defaults defaults-IsTyped
