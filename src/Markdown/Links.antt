-- ===== src/Markdown/Links.antt =====
-- static/widget/widget.js, `renderInline`: safe links are taken out as tokens, the rest is escaped
-- and marked up, and the tokens are replaced by the links. `is_safe_url` is the browser's verdict.
use mathlib.Core.Option
use website_ai_assistant.Prelude.{
  ℕ, zero, suc, ◌+◌, Bool, true, false, List, [], ◌∷◌, ◌++◌, Option, none, some, if◌then◌else◌,
  ◌==◌, length, drop,
}
use website_ai_assistant.Text.{Text, text, starts_with}
use website_ai_assistant.Text.Decimal.{decimal}
use website_ai_assistant.Escape.{escape_html}
use website_ai_assistant.Markdown.Inline.{replace_from, strong, em, inline_code, Link, link_at}

-- `"ASWL" + links.length`
unfoldable pub link_token : ℕ → Text
unfolding text decimal
link_token n = text "ASWL" ++ decimal n

abbrev emit : Text → Text × List Link → Text × List Link
emit t (s, links) = (t ++ s, links)

module _ (is_safe_url : Text → Bool) where
  -- The first replacement: an unsafe link leaves its label, a safe one its token.
  unfoldable pub take_links : ℕ → List Link → Text → Text × List Link
  unfolding link_at link_token
  take_links skip links [] = ([], links)
  take_links (suc k) links (c ∷ s) = take_links k links s
  take_links zero links (c ∷ s) = elim (link_at (c ∷ s)) [
    | none ↦ emit (c ∷ []) (take_links 0 links s)
    | some l ↦ elim (is_safe_url l.url) [
      | true ↦
          emit (link_token (length links))
            (take_links (length l.label + length l.url + 3) (links ++ l ∷ []) s)
      | false ↦ emit l.label (take_links (length l.label + length l.url + 3) links s)
    ]
  ]

unfoldable pub link_html : Link → Text
unfolding text escape_html
link_html l =
    text "<a href=\""
    ++ (escape_html l.url
        ++ (text "\" target=\"_blank\" rel=\"noopener noreferrer\">"
            ++ (escape_html l.label ++ text "</a>")))

-- The replacements between escaping and the links, in order.
unfoldable pub mark_up : Text → Text
unfolding replace_from strong em inline_code
mark_up s =
    let bold = replace_from (strong b'_') none 0 (replace_from (strong b'*') none 0 s) in
    let italic = replace_from (em b'_') none 0 (replace_from (em b'*') none 0 bold) in
    replace_from inline_code none 0 italic

-- The first occurrence: what stands before it and behind it.
unfoldable pub find_first : Text → Text → Option (Text × Text)
unfolding starts_with
find_first token [] = none
find_first token (c ∷ s) =
    let later = Option.map (λ p. (c ∷ p.0, p.1)) (find_first token s) in
    if starts_with token (c ∷ s) then some ([], drop (length token) (c ∷ s)) else later

-- `$$`, `$&`, a dollar with a back quote and one with a quote, in a replacement.
abbrev expansion : Text → Text → Text → ℕ → Option Text
expansion before token behind c =
    if c == b'$'
    then some (b'$' ∷ [])
    else if c == b'&'
    then some token
    else if c == 96
    then some before
    else if c == 39
    then some behind
    else none

unfoldable pub expand : Text → Text → Text → Text → Text
expand before token behind [] = []
expand before token behind (c ∷ []) = c ∷ []
expand before token behind (c ∷ d ∷ s) =
    let plain = c ∷ expand before token behind (d ∷ s) in
    let rest = expand before token behind s in
    if c == b'$'
    then elim (expansion before token behind d) [ none ↦ plain | some t ↦ t ++ rest ]
    else plain

abbrev place : Text → Text → Text → Option (Text × Text) → Text
place token replacement html none = html
place token replacement html (some (before, behind)) =
    before ++ (expand before token behind replacement ++ behind)

-- `html.replace(token, replacement)` with a text as the pattern.
unfoldable pub replace_first : Text → Text → Text → Text
unfolding find_first expand
replace_first token replacement html = place token replacement html (find_first token html)

-- The last loop; `n` is the number of the first link.
unfoldable pub put_links : ℕ → List Link → Text → Text
unfolding replace_first link_token link_html
put_links n [] html = html
put_links n (l ∷ ls) html = put_links (suc n) ls (replace_first (link_token n) (link_html l) html)

unfoldable pub render_inline : (Text → Bool) → Text → Text
unfolding take_links mark_up put_links escape_html
render_inline is_safe_url s =
    let (t, links) = take_links is_safe_url 0 [] s in put_links 0 links (mark_up (escape_html t))
