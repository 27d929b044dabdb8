-- ===== src/Markdown/Inline.antt =====
-- static/widget/widget.js, `renderInline`: links, bold, italics and code in one line. A global
-- replacement walks the text once; `skip` counts the characters that a match has consumed.
-- `isSafeUrl` asks the browser's `URL` and is a parameter here.
use mathlib.Core.Option
use website_ai_assistant.Prelude.{
  ℕ, zero, suc, ◌+◌, ◌-◌, Bool, false, not, ◌&&◌, [], ◌∷◌, ◌++◌, Option, none, some, if◌then◌else◌,
  ◌==◌, is_empty, length, drop,
}
use website_ai_assistant.Text.{Text, text, starts_with}
use website_ai_assistant.Markdown.Lines.{is_line_end}

-- A match: how many characters it takes and what replaces them.
abbrev pub Match : Type 0
Match = Option (ℕ × Text)

-- `String.prototype.replace` with a global pattern; the pattern sees the character before.
unfoldable pub replace_from : (Option ℕ → Text → Match) → Option ℕ → ℕ → Text → Text
replace_from m prev skip [] = []
replace_from m prev (suc k) (c ∷ s) = replace_from m (some c) k s
replace_from m prev zero (c ∷ s) = elim (m prev (c ∷ s)) [
  | none ↦ c ∷ replace_from m (some c) 0 s
  | some (n, out) ↦ out ++ replace_from m (some c) (n - 1) s
]

abbrev replace_all : (Option ℕ → Text → Match) → Text → Text
replace_all m s = replace_from m none 0 s

-- The shortest text of one or more characters that `.` matches in front of a place where the
-- closing test holds; `fresh` is false once there is a character. The test sees the last one.
unfoldable pub lazy_until : (Option ℕ → Text → Bool) → Option ℕ → Text → Option Text
unfolding is_line_end
lazy_until closes prev [] = none
lazy_until closes none (c ∷ s) =
    if is_line_end c then none else Option.map (◌∷◌ c) (lazy_until closes (some c) s)
lazy_until closes (some p) (c ∷ s) =
    let longer = Option.map (◌∷◌ c) (lazy_until closes (some c) s) in
    if closes (some p) (c ∷ s) then some [] else if is_line_end c then none else longer

abbrev pub head_is : ℕ → Text → Bool
head_is c [] = false
head_is c (d ∷ s) = d == c

abbrev pub is_char : ℕ → Option ℕ → Bool
is_char c none = false
is_char c (some d) = d == c

abbrev pub wrap : Text → Text → ℕ → Option Text → Match
wrap before behind size none = none
wrap before behind size (some t) = some (length t + size, before ++ (t ++ behind))

-- `/\*\*(.+?)\*\*/g` and `/__(.+?)__/g`
unfoldable pub strong : ℕ → Option ℕ → Text → Match
unfolding lazy_until starts_with text
strong mark prev s =
    let double = mark ∷ mark ∷ [] in
    if starts_with double s
    then wrap (text "<strong>") (text "</strong>") 4
        (lazy_until (λ _ t. starts_with double t) none (drop 2 s))
    else none

-- One mark that does not touch another: `(?<!\*)\*(?!\*)`.
abbrev pub lone : ℕ → Option ℕ → Text → Bool
lone mark prev s = not (is_char mark prev) && head_is mark s && not (head_is mark (drop 1 s))

-- `/(?<!\*)\*(?!\*)(.+?)(?<!\*)\*(?!\*)/g`, and the same for `_`
unfoldable pub em : ℕ → Option ℕ → Text → Match
unfolding lazy_until text
em mark prev s =
    if lone mark prev s
    then wrap (text "<em>") (text "</em>") 2 (lazy_until (lone mark) none (drop 1 s))
    else none

-- What stands before the first `c`, if there is one.
unfoldable pub before_char : ℕ → Text → Option Text
before_char c [] = none
before_char c (d ∷ s) =
    let longer = Option.map (◌∷◌ d) (before_char c s) in if d == c then some [] else longer

abbrev pub nonempty : Option Text → Option Text
nonempty none = none
nonempty (some t) = if is_empty t then none else some t

-- /`([^`]+)`/g
unfoldable pub inline_code : Option ℕ → Text → Match
unfolding before_char text
inline_code prev s =
    if head_is 96 s
    then wrap (text "<code>") (text "</code>") 2 (nonempty (before_char 96 (drop 1 s)))
    else none

pub record Link : Type 0 where
  pub label : Text
  pub url : Text

abbrev link_url : Text → Text → Option Link
link_url label r =
    if head_is b'(' r
    then Option.map (λ u. record { label = label; url = u })
        (nonempty (before_char b')' (drop 1 r)))
    else none

abbrev link_label : Text → Option Text → Option Link
link_label s none = none
link_label s (some label) = link_url label (drop (length label + 2) s)

-- `/\[([^\]]+)\]\(([^)]+)\)/g`; a match takes four characters besides its two groups.
unfoldable pub link_at : Text → Option Link
unfolding before_char
link_at s = if head_is b'[' s then link_label s (nonempty (before_char b']' (drop 1 s))) else none
