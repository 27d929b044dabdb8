-- ===== src/Links/Safe.antt =====
-- The links from options and answers lead to safe addresses, and their text is inert.
use website_ai_assistant.Prelude.{
  if_each, ◌≤◌, Bool, true, false, not, ◌&&◌, List, [], ◌∷◌, ◌++◌, map, ◌≡◌, ◌⊎◌, inl, inr, refl,
  All, arith, length, take, is_empty, length-map, length-take,
}
use website_ai_assistant.Text.{Text, text, starts_with}
use website_ai_assistant.Links.{
  Contacts, Anchor, Channel, Citation, Chip, link, plain, push_if, channel_anchor, render_resources,
  get_contact_channels, render_channels, citation_chip, citation_inner, citation_tooltip,
  build_citations,
}

module _ (is_safe_url : Text → Bool) where
  -- Safe by the browser's verdict, or a mail address or a telephone number.
  abbrev pub IsSafe : Text → Type 0
  IsSafe url =
      (is_safe_url url ≡ true)
      ⊎ ((starts_with (text "mailto:") url ≡ true) ⊎ (starts_with (text "tel:") url ≡ true))

  mailto-IsSafe : (s : Text) → IsSafe (text "mailto:" ++ s)
  unfolding text starts_with
  mailto-IsSafe s = inr (inl refl)

  tel-IsSafe : (s : Text) → IsSafe (text "tel:" ++ s)
  unfolding text starts_with
  tel-IsSafe s = inr (inr refl)

  pub All-push_if {ℓ κ} :
      {A : Type ℓ} (P : A → Type κ) (b : Bool) (x : A) (rest : List A)
      → (b ≡ true → P x)
      → All P rest
      → All P (push_if b x rest)
  unfolding push_if
  All-push_if P true x rest h k = (h refl, k)
  All-push_if P false x rest h k = k

  usable-IsSafe : (url : Text) → (not (is_empty url) && is_safe_url url) ≡ true → IsSafe url
  usable-IsSafe url h = inl (ground arith)

  abbrev pub IsSafeAnchor : Anchor → Type 0
  IsSafeAnchor a = IsSafe a.href

  abbrev pub IsSafeChannel : Channel → Type 0
  IsSafeChannel c = IsSafe c.url

  resources-IsSafe : (o : Contacts) → All IsSafeAnchor (render_resources is_safe_url o)
  unfolding render_resources
  resources-IsSafe o = All-push_if IsSafeAnchor _ _ _ (usable-IsSafe o.faq_url) (
      All-push_if IsSafeAnchor _ _ _ (usable-IsSafe o.privacy_url) (
        All-push_if IsSafeAnchor _ _ _ (λ _. mailto-IsSafe o.support_email)
          (All-push_if IsSafeAnchor _ _ _ (λ _. tel-IsSafe o.support_phone) tt)))

  channels-IsSafe : (o : Contacts) → All IsSafeChannel (get_contact_channels is_safe_url o)
  unfolding get_contact_channels
  channels-IsSafe o =
      All-push_if IsSafeChannel _ _ _ (λ _. tel-IsSafe o.support_phone)
        (All-push_if IsSafeChannel _ _ _ (λ _. mailto-IsSafe o.support_email)
          (All-push_if IsSafeChannel _ _ _ (usable-IsSafe o.telegram) (
            All-push_if IsSafeChannel _ _ _ (usable-IsSafe o.whatsapp)
              (All-push_if IsSafeChannel _ _ _ (usable-IsSafe o.contact_form) tt))))

  anchors-IsSafe :
      (cs : List Channel) → All IsSafeChannel cs → All IsSafeAnchor (map channel_anchor cs)
  unfolding channel_anchor
  anchors-IsSafe [] h = tt
  anchors-IsSafe (c ∷ cs) (p, h) = (p, anchors-IsSafe cs h)

  abbrev pub IsSafeChip : Chip → Type 0
  IsSafeChip (link a t) = (is_safe_url a.href ≡ true) × (a.new_tab ≡ true)
  IsSafeChip (plain i t) = Unit

  chip-IsSafe : (c : Citation) → IsSafeChip (citation_chip is_safe_url c)
  unfolding citation_chip
  chip-IsSafe c =
      if_each IsSafeChip (not (is_empty c.url) && is_safe_url c.url)
        {x = link (record { href = c.url; new_tab = true; inner = citation_inner c })
          (citation_tooltip c)}
        {y = plain (citation_inner c) (citation_tooltip c)} (λ e. (ground arith, refl)) (λ e. tt)

  chips-IsSafe : (cs : List Citation) → All IsSafeChip (map (citation_chip is_safe_url) cs)
  chips-IsSafe [] = tt
  chips-IsSafe (c ∷ cs) = (chip-IsSafe c, chips-IsSafe cs)

  -- Every link of the footer and of the contact sheet leads to an address that the browser takes for
  -- safe, to a mail address or to a telephone number; an answer has at most four chips for its
  -- citations, and those that are links lead to safe addresses in a new tab. So it is whatever the
  -- options and the citations hold.
  pub links-IsSafe :
      (o : Contacts) (cs : List Citation)
      → All IsSafeAnchor (render_resources is_safe_url o)
        × All IsSafeAnchor (render_channels is_safe_url o).0
        × All IsSafeChip (build_citations is_safe_url cs)
        × (length (build_citations is_safe_url cs) ≤ 4)
  unfolding render_channels build_citations
  links-IsSafe o cs = (
    resources-IsSafe o,
    anchors-IsSafe (get_contact_channels is_safe_url o) (channels-IsSafe o),
    chips-IsSafe (take 4 cs),
    omega (arith, length-map (citation_chip is_safe_url) (take 4 cs), length-take 4 cs),
  )
