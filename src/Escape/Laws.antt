-- ===== src/Escape/Laws.antt =====
-- What escaping promises: the result is inert in HTML, and a browser's decoding of the five
-- entities gives the text back.
use website_ai_assistant.Prelude.{
  append_assoc, ℕ, Option, none, some, [], ◌∷◌, ◌++◌, ◌≡◌, ◌≢◌, refl, ap, ◌∙◌, ◌==◌, if◌then◌else◌,
  All, All-append, arith,
}
use website_ai_assistant.Text.{Text, text, eq_text}
use website_ai_assistant.Escape.{escape_char, escape_html}

-- No character that opens or closes a tag or a quoted attribute.
abbrev pub IsInert : ℕ → Type 0
IsInert c = (c ≢ b'<') × (c ≢ b'>') × (c ≢ b'"') × (c ≢ 39)

escape_char-IsInert : (c : ℕ) → All IsInert (escape_char c)
unfolding escape_char
escape_char-IsInert c = ground arith

-- Whatever the text, its escaped form holds no angle bracket and no quote.
pub escape_html-IsInert : (s : Text) → All IsInert (escape_html s)
unfolding escape_html
escape_html-IsInert [] = tt
escape_html-IsInert (c ∷ s) =
    All-append IsInert (escape_char c) (escape_html s) (escape_char-IsInert c)
      (escape_html-IsInert s)

-- A decoder of character references: `some name` while it reads a reference, `none` outside.
abbrev entity : Text → Text
entity name =
    if eq_text name (text "amp")
    then b'&' ∷ []
    else if eq_text name (text "lt")
    then b'<' ∷ []
    else if eq_text name (text "gt")
    then b'>' ∷ []
    else if eq_text name (text "quot")
    then b'"' ∷ []
    else if eq_text name (text "#039")
    then 39 ∷ []
    else b'&' ∷ (name ++ b';' ∷ [])

decode_from : Option Text → Text → Text
decode_from none [] = []
decode_from (some name) [] = b'&' ∷ name
decode_from none (c ∷ s) =
    let inside = decode_from (some []) s in
    let outside = decode_from none s in if c == b'&' then inside else c ∷ outside
decode_from (some name) (c ∷ s) =
    let closed = decode_from none s in
    let longer = decode_from (some (name ++ c ∷ [])) s in
    if c == b';' then entity name ++ closed else longer

unfoldable pub decode : Text → Text
unfolding decode_from text eq_text
decode = decode_from none

decode_from-escape_char :
    (c : ℕ) (rest : Text) → decode_from none (escape_char c ++ rest) ≡ c ∷ decode_from none rest
unfolding decode_from escape_char text eq_text
decode_from-escape_char c rest = ground arith

pub decode-nil : decode [] ≡ []
unfolding decode
decode-nil = refl

-- Decoding goes on behind a character that begins no reference.
pub decode-cons : (c : ℕ) (s : Text) → (c ≢ b'&') → decode (c ∷ s) ≡ c ∷ decode s
unfolding decode decode_from
decode-cons c s h = ground arith

pub decode-append : (s rest : Text) → decode (escape_html s ++ rest) ≡ s ++ decode rest
unfolding decode escape_html
decode-append [] rest = refl
decode-append (c ∷ s) rest =
    ap decode (append_assoc (escape_char c) (escape_html s) rest)
    ∙ decode_from-escape_char c (escape_html s ++ rest)
    ∙ ap (◌∷◌ c) (decode-append s rest)

-- Decoding an escaped text gives the text back.
pub decode-escape_html : (s : Text) → decode (escape_html s) ≡ s
unfolding decode escape_html
decode-escape_html [] = refl
decode-escape_html (c ∷ s) =
    decode_from-escape_char c (escape_html s) ∙ ap (◌∷◌ c) (decode-escape_html s)
