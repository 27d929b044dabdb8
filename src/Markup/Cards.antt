-- ===== src/Markup/Cards.antt =====
-- static/widget/widget.js: the suggestions above the input and on the greeting's cards
-- (`renderSuggestions`, `syncSuggestions`, `addHero`) and the toast (`showToast`).
use website_ai_assistant.Prelude.{
  Bool, true, false, not, ◌&&◌, ◌||◌, List, [], ◌∷◌, ◌++◌, take, is_empty, if◌then◌else◌,
}
use website_ai_assistant.Text.{Text, text}
use website_ai_assistant.History.{Child, hero, divider, hint, row}
use website_ai_assistant.Markup.{Symbol, put, fixed, template}
use website_ai_assistant.Markup.Icons.{icon_sparkles, icon_chevron_left, icon_info}

-- `suggestions` lists the option's texts, `logo_url` is empty where it is missing.
pub record Site : Type 0 where
  pub suggestions : List Text
  pub logo_url : Text

-- `filter(Boolean)`
unfoldable pub filled : List Text → List Text
filled [] = []
filled (x ∷ xs) = let rest = filled xs in if is_empty x then rest else x ∷ rest

-- `_suggestionItems`
abbrev pub suggestion_items : Site → List Text
suggestion_items o = take 6 (filled o.suggestions)

unfoldable pub strip_card : Text → List Symbol
unfolding text fixed put template
strip_card item = template (
    fixed (text "<button class=\"asw-suggestion\" type=\"button\" data-msg=\"")
    ∷ put item
    ∷ fixed (text "\"><span>")
    ∷ put item
    ∷ fixed (text "</span></button>")
    ∷ [])

unfoldable pub hero_card : Text → List Symbol
unfolding text fixed put template
hero_card item = template (
    fixed (text "<button class=\"asw-suggestion\" type=\"button\" data-msg=\"")
    ∷ put item
    ∷ fixed (text "\">")
    ∷ fixed (text "<span>")
    ∷ put item
    ∷ fixed (text "</span>")
    ∷ fixed (text "<span class=\"asw-card-arrow\" aria-hidden=\"true\">")
    ∷ fixed icon_chevron_left
    ∷ fixed (text "</span>")
    ∷ fixed (text "</button>")
    ∷ [])

-- `items.map(…).join("")`
unfoldable pub cards : (Text → List Symbol) → List Text → List Symbol
cards card [] = []
cards card (x ∷ xs) = card x ++ cards card xs

-- The HTML of the strip of `renderSuggestions`.
unfoldable pub strip_template : Site → List Symbol
unfolding cards strip_card filled
strip_template o = cards strip_card (suggestion_items o)

abbrev pub has_logo : (Text → Bool) → Site → Bool
has_logo is_safe_url o = not (is_empty o.logo_url) && is_safe_url o.logo_url

unfoldable pub logo_image : Site → List Symbol
unfolding text fixed put template
logo_image o = template (
    fixed (text "<img src=\"")
    ∷ put o.logo_url
    ∷ fixed (text "\" alt=\"\" referrerpolicy=\"no-referrer\">")
    ∷ [])

abbrev pub orb_content : (Text → Bool) → Site → List Symbol
orb_content is_safe_url o = if has_logo is_safe_url o then logo_image o else fixed icon_sparkles

-- The cards of `addHero`.
unfoldable pub hero_cards : List Text → List Symbol
unfolding text fixed template cards hero_card
hero_cards [] = []
hero_cards (x ∷ xs) = template (
    fixed (text "<div class=\"asw-hero-grid\">")
    ∷ cards hero_card (x ∷ xs)
    ∷ fixed (text "</div>")
    ∷ [])

unfoldable pub hero_head : List Symbol
unfolding text fixed template
hero_head = template (
    fixed (text "<div class=\"asw-hero-spot\" aria-hidden=\"true\"></div>")
    ∷ fixed (text "<div class=\"asw-hero-orb-wrap\" aria-hidden=\"true\">")
    ∷ fixed (
        text
          "<span class=\"asw-hero-p p1\"></span><span class=\"asw-hero-p p2\"></span><span class=\"asw-hero-p p3\"></span>")
    ∷ fixed (text "<div class=\"asw-hero-orb\">")
    ∷ [])

unfoldable pub hero_text : Text → List Symbol
unfolding text fixed put template
hero_text greeting = template (
    fixed (text "</div>")
    ∷ fixed (text "</div>")
    ∷ fixed (text "<div class=\"asw-hero-text\">")
    ∷ put greeting
    ∷ fixed (text "</div>")
    ∷ [])

-- The HTML of `addHero`.
unfoldable pub hero_template : (Text → Bool) → Site → Text → List Symbol
unfolding hero_head logo_image hero_text hero_cards filled
hero_template is_safe_url o greeting =
    hero_head
    ++ (orb_content is_safe_url o
        ++ (hero_text greeting ++ hero_cards (take 4 (suggestion_items o))))

-- The HTML of `showToast`.
unfoldable pub toast_template : Text → List Symbol
unfolding text fixed put template
toast_template msg =
    template (fixed icon_info ∷ fixed (text "<span>") ∷ put msg ∷ fixed (text "</span>") ∷ [])

-- `querySelector(".asw-hero")` finds one.
unfoldable pub has_hero : List Child → Bool
has_hero [] = false
has_hero (hero _ ∷ cs) = true
has_hero (divider _ ∷ cs) = has_hero cs
has_hero (hint ∷ cs) = has_hero cs
has_hero (row _ ∷ cs) = has_hero cs

-- `syncSuggestions`: the strip is hidden.
unfoldable pub strip_hidden : Site → Bool → List Child → Bool
unfolding has_hero filled
strip_hidden o chat_started cs = is_empty (suggestion_items o) || has_hero cs || chat_started
