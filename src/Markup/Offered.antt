-- ===== src/Markup/Offered.antt =====
-- A suggestion's button carries the suggestion's text.
use website_ai_assistant.Prelude.{
  Bool, true, List, [], ◌∷◌, ◌++◌, take, append-nil, append_assoc, ◌≡◌, refl, ap, sym, ◌∙◌, if_both,
}
use website_ai_assistant.Text.{Text, text, eq_text}
use website_ai_assistant.Markup.{
  Symbol, put, fixed, template, content, next, glue, cuts, attributes, pieces, render,
}
use website_ai_assistant.Markup.Reading.{fits, plug, meant, pieces-render}
use website_ai_assistant.Markup.Bare.{values_in}
use website_ai_assistant.Markup.Cards.{
  Site, filled, suggestion_items, strip_card, hero_card, cards, strip_template, logo_image,
  orb_content, has_logo, hero_cards, hero_head, hero_text, hero_template,
}
use website_ai_assistant.Markup.Icons.{icon_sparkles}

abbrev pub data_msg : Text
data_msg = text " data-msg="

-- A piece of a template with no text for a click, which ends where content is read.
abbrev IsSilent : List Symbol → Type 0
IsSilent ss =
    (rest : List Symbol)
    → (fits content (ss ++ rest) ≡ fits content rest)
      × (values_in data_msg (ss ++ rest) ≡ values_in data_msg rest)

-- One that says a text.
abbrev Says : Text → List Symbol → Type 0
Says x ss =
    (rest : List Symbol)
    → (fits content (ss ++ rest) ≡ fits content rest)
      × (values_in data_msg (ss ++ rest) ≡ x ∷ values_in data_msg rest)

saying : (x : Text) (ss : List Symbol) → Says (x ++ []) ss → Says x ss
saying x ss h rest = ((h rest).0, (h rest).1 ∙ ap (λ y. y ∷ values_in data_msg rest) (append-nil x))

strip_card-Says : (x : Text) → Says x (strip_card x)
unfolding strip_card fits plug text fixed put template next attributes cuts glue eq_text
strip_card-Says x = saying x (strip_card x) (λ rest. (refl, refl))

hero_card-Says : (x : Text) → Says x (hero_card x)
unfolding hero_card fits plug text fixed put template next attributes cuts glue eq_text
hero_card-Says x = saying x (hero_card x) (λ rest. (refl, refl))

cards-say :
    (card : Text → List Symbol) (xs : List Text) (rest : List Symbol)
    → ((x : Text) → Says x (card x))
    → (fits content (cards card xs ++ rest) ≡ fits content rest)
      × (values_in data_msg (cards card xs ++ rest) ≡ xs ++ values_in data_msg rest)
unfolding cards
cards-say card [] rest h = (refl, refl)
cards-say card (x ∷ xs) rest h =
    let regroup = append_assoc (card x) (cards card xs) rest in
    let says = h x (cards card xs ++ rest) in
    let others = cards-say card xs rest h in
    (
      ap (fits content) regroup ∙ says.0 ∙ others.0,
      ap (values_in data_msg) regroup ∙ says.1 ∙ ap (◌∷◌ x) others.1,
    )

-- What a template says when it is read from the start.
Speaks : List Text → List Symbol → Type 0
Speaks xs ss = (fits content ss ≡ true) × (values_in data_msg ss ≡ xs)

heard :
    (xs : List Text) (ss : List Symbol)
    → Speaks xs ss
    → attributes data_msg [] (pieces (render ss)) ≡ xs
unfolding Speaks meant attributes
heard xs ss (f, v) = ap (attributes data_msg []) (pieces-render ss f) ∙ v

cards-Speaks :
    (card : Text → List Symbol) (xs : List Text)
    → ((x : Text) → Says x (card x))
    → Speaks xs (cards card xs)
unfolding Speaks fits plug attributes
cards-Speaks card xs h =
    let (f, v) = cards-say card xs [] h in
    let whole = sym (append-nil (cards card xs)) in
    (ap (fits content) whole ∙ f, ap (values_in data_msg) whole ∙ v ∙ append-nil xs)

silent-Speaks :
    (xs : List Text) (ss rest : List Symbol) → IsSilent ss → Speaks xs rest → Speaks xs (ss ++ rest)
unfolding Speaks
silent-Speaks xs ss rest h (f, v) = ((h rest).0 ∙ f, (h rest).1 ∙ v)

head-IsSilent : IsSilent hero_head
unfolding hero_head fits plug text fixed put template next attributes cuts glue eq_text
head-IsSilent rest = (refl, refl)

logo_image-IsSilent : (o : Site) → IsSilent (logo_image o)
unfolding logo_image fits plug text fixed put template next attributes cuts glue eq_text
logo_image-IsSilent o rest = (refl, refl)

sparkles-IsSilent : IsSilent (fixed icon_sparkles)
unfolding fits plug text fixed put template next attributes cuts glue eq_text
sparkles-IsSilent rest = (refl, refl)

hero_text-IsSilent : (s : Text) → IsSilent (hero_text s)
unfolding hero_text fits plug text fixed put template next attributes cuts glue eq_text
hero_text-IsSilent s rest = (refl, refl)

hero_cards-Speaks : (xs : List Text) → Speaks xs (hero_cards xs)
unfolding Speaks hero_cards fits plug text fixed put template next attributes cuts glue eq_text
hero_cards-Speaks [] = (refl, refl)
hero_cards-Speaks (x ∷ xs) =
    let (f, v) = cards-say hero_card (x ∷ xs) (fixed (text "</div>") ++ []) hero_card-Says in
    (f, v ∙ append-nil (x ∷ xs))

orb-IsSilent : (is_safe_url : Text → Bool) (o : Site) → IsSilent (orb_content is_safe_url o)
orb-IsSilent is_safe_url o =
    if_both IsSilent (has_logo is_safe_url o) {x = logo_image o} (logo_image-IsSilent o)
      sparkles-IsSilent

-- Whatever the suggestions, the greeting, the logo and the browser's verdict on its address: as a
-- browser reads them, the strip has one button for each of the first six suggestions that are not
-- empty and the greeting one for each of the first four of these, in their order, and the text
-- that a click on a button sends is the suggestion, character by character.
pub suggestions-data_msg :
    (is_safe_url : Text → Bool) (o : Site) (greeting : Text)
    → (attributes data_msg [] (pieces (render (strip_template o))) ≡ take 6 (filled o.suggestions))
      × (attributes data_msg [] (pieces (render (hero_template is_safe_url o greeting)))
          ≡ take 4 (take 6 (filled o.suggestions)))
unfolding strip_template hero_template
suggestions-data_msg is_safe_url o greeting =
    let few = take 4 (suggestion_items o) in
    (
      heard (suggestion_items o) (strip_template o)
          (cards-Speaks strip_card (suggestion_items o) strip_card-Says),
      heard few (hero_template is_safe_url o greeting) (
          silent-Speaks few hero_head _ head-IsSilent (
            silent-Speaks few (orb_content is_safe_url o) _ (orb-IsSilent is_safe_url o) (
              silent-Speaks few (hero_text greeting) _ (hero_text-IsSilent greeting)
                (hero_cards-Speaks few)))),
    )
