-- ===== src/Markdown/Lines.antt =====
-- static/widget/widget.js: the patterns that `renderMarkdown` tests on a line, as functions. Each
-- comment gives the regular expression; every white space of `\s` and no other character of the
-- patterns is skipped by `trim`, and the line ends that `.` refuses are white space too.
use website_ai_assistant.Prelude.{
  ℕ, Bool, true, false, not, ◌&&◌, ◌||◌, List, [], ◌∷◌, Option, none, some, if◌then◌else◌, ◌==◌,
  leb, is_empty, drop,
}
use website_ai_assistant.Text.{Text, text, is_space, trim, trim_start, starts_with, split_char}

-- What `.` does not match.
unfoldable pub is_line_end : ℕ → Bool
is_line_end c = c == 10 || c == 13 || c == 0x2028 || c == 0x2029

abbrev pub all_of : (ℕ → Bool) → Text → Bool
all_of p [] = true
all_of p (c ∷ s) = p c && all_of p s

-- All but the last character, if that is a bar.
unfoldable pub drop_last_bar : Text → Option Text
drop_last_bar [] = none
drop_last_bar (c ∷ []) = if c == b'|' then some [] else none
drop_last_bar (c ∷ d ∷ s) = elim (drop_last_bar (d ∷ s)) [ none ↦ none | some r ↦ some (c ∷ r) ]

-- What stands between the first and the last bar of a trimmed line.
unfoldable pub between_bars : Text → Option Text
unfolding drop_last_bar
between_bars [] = none
between_bars (c ∷ s) = if c == b'|' then drop_last_bar s else none

abbrev middle_test : (ℕ → Bool) → Bool → Option Text → Bool
middle_test p empty_ok none = false
middle_test p empty_ok (some s) = (empty_ok || not (is_empty s)) && all_of p s

-- `/^\s*\|(.*)\|\s*$/`
unfoldable pub table_row : Text → Bool
unfolding between_bars is_line_end trim
table_row line = middle_test (λ c. not (is_line_end c)) true (between_bars (trim line))

-- `/^\s*\|[\s:\-|]+\|\s*$/`
unfoldable pub table_sep : Text → Bool
unfolding between_bars is_space trim
table_sep line =
    middle_test (λ c. is_space c || c == b':' || c == b'-' || c == b'|') false
      (between_bars (trim line))

-- The run that `.+` takes.
unfoldable pub until_line_end : Text → Text
unfolding is_line_end
until_line_end [] = []
until_line_end (c ∷ s) = if is_line_end c then [] else c ∷ until_line_end s

-- Where only white space is left, `\s+` gives back as much as `.+` needs: the last character that
-- is no line end, behind the first one.
abbrev or_else : Option Text → Option Text → Option Text
or_else none o = o
or_else (some t) o = some t

unfoldable pub last_plain : Text → Option Text
unfolding is_line_end
last_plain [] = none
last_plain (c ∷ s) = or_else (last_plain s) (if is_line_end c then none else some (c ∷ []))

abbrev space_head : Text → Bool
space_head [] = false
space_head (c ∷ s) = is_space c

-- `\s+(.+)` at the head of a text: the group.
unfoldable pub spaced_rest : Text → Option Text
unfolding is_space until_line_end last_plain trim_start
spaced_rest s =
    if not (space_head s)
    then none
    else if is_empty (trim_start s)
    then last_plain (drop 1 s)
    else some (until_line_end (trim_start s))

abbrev after_bullet : Text → Option Text
after_bullet [] = none
after_bullet (c ∷ s) = if c == b'-' || c == b'*' || c == 0x2022 then spaced_rest s else none

-- `/^\s*[-*•]\s+(.+)/`
unfoldable pub ul_item : Text → Option Text
unfolding spaced_rest trim_start is_space
ul_item line = after_bullet (trim_start line)

unfoldable pub is_digit : ℕ → Bool
is_digit c = leb b'0' c && leb c b'9'

-- `\d*\.\s+(.+)`
unfoldable pub after_digits : Text → Option Text
unfolding is_digit spaced_rest
after_digits [] = none
after_digits (c ∷ s) =
    let more = after_digits s in
    if is_digit c then more else if c == b'.' then spaced_rest s else none

abbrev one_digit : Text → Option Text
one_digit [] = none
one_digit (c ∷ s) = if is_digit c then after_digits s else none

-- `/^\s*\d+\.\s+(.+)/`
unfoldable pub ol_item : Text → Option Text
unfolding after_digits is_digit trim_start is_space
ol_item line = one_digit (trim_start line)

-- `/^```/`
unfoldable pub is_fence : Text → Bool
unfolding starts_with text
is_fence line = starts_with (text "```") line

-- `line.replace(/^```/, "").trim()`
unfoldable pub fence_lang : Text → Text
unfolding trim
fence_lang line = trim (drop 3 line)

-- One carriage return at the end goes with the line feed.
unfoldable pub drop_return : Text → Text
drop_return [] = []
drop_return (c ∷ []) = if c == 13 then [] else c ∷ []
drop_return (c ∷ d ∷ s) = c ∷ drop_return (d ∷ s)

unfoldable pub drop_returns : List Text → List Text
unfolding drop_return
drop_returns [] = []
drop_returns (l ∷ []) = l ∷ []
drop_returns (l ∷ m ∷ ls) = drop_return l ∷ drop_returns (m ∷ ls)

-- `src.split(/\r?\n/)`
unfoldable pub split_lines : Text → List Text
unfolding drop_returns split_char
split_lines s = drop_returns (split_char 10 s)
