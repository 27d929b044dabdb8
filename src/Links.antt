-- ===== src/Links.antt =====
-- static/widget/widget.js: the links that the widget builds from options and answers
-- (`renderResources`, `getContactChannels`, `renderChannels`, `buildCitations`). The browser's verdict
-- on an address is the parameter `is_safe_url`; icons are left out.
pub mod Safe
mod Tests
use website_ai_assistant.Prelude.{
  Bool, true, false, not, ◌&&◌, List, [], ◌∷◌, ◌++◌, map, Option, none, some, if◌then◌else◌,
  is_empty, take,
}
use website_ai_assistant.Text.{Text, text, starts_with}
use website_ai_assistant.Escape.{escape_html}

-- The options read here; a missing address is empty.
pub record Contacts : Type 0 where
  pub faq_url : Text
  pub privacy_url : Text
  pub support_email : Text
  pub support_phone : Text
  pub telegram : Text
  pub whatsapp : Text
  pub contact_form : Text

-- An `a` element; `new_tab` stands for `target="_blank"` with `rel="noopener noreferrer"`, `inner` is
-- its HTML.
pub record Anchor : Type 0 where
  pub href : Text
  pub new_tab : Bool
  pub inner : Text

pub record Channel : Type 0 where
  pub key : Text
  pub label : Text
  pub cap : Text
  pub url : Text
  pub tint : Option Text

-- A citation of an answer; `page` is the text of `page_number`, empty where that is missing or zero.
pub record Citation : Type 0 where
  pub title : Text
  pub url : Text
  pub page : Text

-- A citation's chip: a link, or plain text.
pub data Chip : Type 0 where
  link : Anchor → Text → Chip
  plain : (inner : Text) → (tooltip : Text) → Chip

-- `if (b) links.push(x)`, and what is pushed behind it.
unfoldable pub push_if {ℓ} : {A : Type ℓ} → Bool → A → List A → List A
push_if b x rest = if b then x ∷ rest else rest

-- A link of the footer; its text is set by `textContent`.
abbrev resource : Text → Text → Anchor
resource label url = record { href = url; new_tab = true; inner = escape_html label }

-- `ch.url.indexOf("http") === 0` opens a new tab.
unfoldable pub channel_anchor : Channel → Anchor
unfolding text starts_with escape_html
channel_anchor ch = record {
  href = ch.url;
  new_tab = starts_with (text "http") ch.url;
  inner =
      text "<span class=\"asw-chan-tx\"><b>"
      ++ (escape_html ch.label ++ (text "</b><i>" ++ (escape_html ch.cap ++ text "</i></span>")));
}

abbrev or_else : Text → Text → Text
or_else s t = if is_empty s then t else s

-- The title that a citation shows.
unfoldable pub citation_title : Citation → Text
unfolding text
citation_title c = take 60 (or_else c.title (text "\u{645}\u{646}\u{628}\u{639}"))

unfoldable pub citation_tooltip : Citation → Text
unfolding citation_title text
citation_tooltip c =
    if is_empty c.page
    then citation_title c
    else citation_title c ++ (text " — \u{635}\u{641}\u{62d}\u{647} " ++ c.page)

unfoldable pub citation_inner : Citation → Text
unfolding citation_title escape_html text
citation_inner c =
    text "<span>"
    ++ (escape_html (citation_title c)
        ++ ((if is_empty c.page then [] else text " · \u{635}" ++ escape_html c.page)
            ++ text "</span>"))

module _ (is_safe_url : Text → Bool) where
  -- `url && isSafeUrl(url)`
  abbrev usable : Text → Bool
  usable url = not (is_empty url) && is_safe_url url

  unfoldable pub render_resources : Contacts → List Anchor
  unfolding text escape_html
  render_resources o = push_if (usable o.faq_url) (resource (text "FAQ") o.faq_url) (
      push_if (usable o.privacy_url) (resource (text "Privacy") o.privacy_url) (
        push_if (not (is_empty o.support_email))
          (resource (text "Support") (text "mailto:" ++ o.support_email))
          (push_if (not (is_empty o.support_phone))
            (resource (text "\u{62a}\u{645}\u{627}\u{633}") (text "tel:" ++ o.support_phone)) [])))

  unfoldable pub get_contact_channels : Contacts → List Channel
  unfolding text
  get_contact_channels o =
      push_if (not (is_empty o.support_phone))
        (record {
          key = text "phone";
          label = text "\u{62a}\u{645}\u{627}\u{633} \u{62a}\u{644}\u{641}\u{646}\u{6cc}";
          cap = o.support_phone;
          url = text "tel:" ++ o.support_phone;
          tint = some (text "#10b981");
        })
        (push_if (not (is_empty o.support_email))
          (record {
            key = text "email";
            label = text "\u{627}\u{6cc}\u{645}\u{6cc}\u{644}";
            cap = o.support_email;
            url = text "mailto:" ++ o.support_email;
            tint = none;
          })
          (push_if (usable o.telegram)
            (record {
              key = text "telegram";
              label = text "\u{62a}\u{644}\u{6af}\u{631}\u{627}\u{645}";
              cap =
                  text
                    "\u{67e}\u{6cc}\u{627}\u{645} \u{62f}\u{631} \u{62a}\u{644}\u{6af}\u{631}\u{627}\u{645}";
              url = o.telegram;
              tint = some (text "#229ED9");
            })
            (push_if (usable o.whatsapp)
              (record {
                key = text "whatsapp";
                label = text "\u{648}\u{627}\u{62a}\u{633}\u{627}\u{67e}";
                cap =
                    text "\u{686}\u{62a} \u{62f}\u{631} \u{648}\u{627}\u{62a}\u{633}\u{627}\u{67e}";
                url = o.whatsapp;
                tint = some (text "#25D366");
              })
              (push_if (usable o.contact_form)
                (record {
                  key = text "contact_form";
                  label = text "\u{641}\u{631}\u{645} \u{62a}\u{645}\u{627}\u{633}";
                  cap =
                      text
                        "\u{641}\u{631}\u{645} \u{6a9}\u{627}\u{645}\u{644} \u{633}\u{627}\u{6cc}\u{62a}";
                  url = o.contact_form;
                  tint = none;
                })
                []))))

  -- `renderChannels`: the cards, and whether their list is hidden.
  unfoldable pub render_channels : Contacts → List Anchor × Bool
  unfolding get_contact_channels channel_anchor
  render_channels o =
      (map channel_anchor (get_contact_channels o), is_empty (get_contact_channels o))

  unfoldable pub citation_chip : Citation → Chip
  unfolding citation_inner citation_tooltip
  citation_chip c =
      if usable c.url
      then link (record { href = c.url; new_tab = true; inner = citation_inner c })
          (citation_tooltip c)
      else plain (citation_inner c) (citation_tooltip c)

  -- At most four chips.
  unfoldable pub build_citations : List Citation → List Chip
  unfolding citation_chip
  build_citations cs = map citation_chip (take 4 cs)
