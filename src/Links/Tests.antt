-- ===== src/Links/Tests.antt =====
-- Tests of the links, and their theorem at a concrete input.
use website_ai_assistant.Prelude.{◌≡◌, ◌≤◌, refl, [], ◌∷◌, map, Bool, All, length}
use website_ai_assistant.Text.{Text, text, starts_with}
use website_ai_assistant.Links.{
  Contacts, Anchor, Citation, push_if, render_resources, render_channels, build_citations,
}
use website_ai_assistant.Links.Safe.{IsSafeAnchor, IsSafeChip, links-IsSafe}

abbrev https_only : Text → Bool
https_only s = starts_with (text "https:") s

abbrev shop : Contacts
shop = record {
  faq_url = text "javascript:x";
  privacy_url = text "https://x/p";
  support_email = text "a@b.c";
  support_phone = [];
  telegram = text "https://t.me/x";
  whatsapp = [];
  contact_form = [];
}

abbrev href_of : Anchor → Text
href_of a = a.href

-- An address that is not safe is left out.
resource_hrefs :
    map href_of (render_resources https_only shop) ≡ text "https://x/p" ∷ text "mailto:a@b.c" ∷ []
unfolding render_resources push_if text starts_with
resource_hrefs = refl

channel_hrefs :
    map href_of (render_channels https_only shop).0
    ≡ text "mailto:a@b.c" ∷ text "https://t.me/x" ∷ []
unfolding render_channels push_if text starts_with
channel_hrefs = refl

abbrev page_two : Citation
page_two = record { title = text "Guide"; url = text "https://x/g"; page = text "2" }

links-IsSafe_example :
    All (IsSafeAnchor https_only) (render_resources https_only shop)
    × All (IsSafeAnchor https_only) (render_channels https_only shop).0
    × All (IsSafeChip https_only) (build_citations https_only (page_two ∷ []))
    × (length (build_citations https_only (page_two ∷ [])) ≤ 4)
links-IsSafe_example = links-IsSafe https_only shop (page_two ∷ [])
