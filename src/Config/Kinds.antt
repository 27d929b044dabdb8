-- ===== src/Config/Kinds.antt =====
-- What kind of value an option has to be: that of its default.
use website_ai_assistant.Prelude.{
  Bool, true, false, ◌&&◌, ◌||◌, List, [], ◌∷◌, if◌then◌else◌, ◌≡◌, refl, sym, ap, ◌∙◌, arith,
  Bool-cases, inl, inr,
}
use website_ai_assistant.Text.{Text, text, eq_text}
use website_ai_assistant.Text.Laws.{eq_text_iff}
use website_ai_assistant.Layout.{not_number}
use website_ai_assistant.Config.Values.{Value, undefined, str, num, bool, Store, get, put, get-put}
use website_ai_assistant.Config.Defaults.{defaults}
use website_ai_assistant.Config.Preview.{text_names, number_names, flag_names}

pub data Kind : Type 0 where
  textual numeric flag free : Kind

abbrev is_in : Text → List Text → Bool
is_in j [] = false
is_in j (k ∷ ks) = eq_text k j || is_in j ks

-- The kind of a default.
abbrev kind_of_default : Value → Kind
kind_of_default (str s) = textual
kind_of_default (num n) = numeric
kind_of_default (bool b) = flag
kind_of_default _ = free

-- The options that `applyConfig` copies as they come, although their default is a text.
abbrev copied_names : List Text
unfolding text
copied_names = text "iconType" ∷ text "defaultIconChoice" ∷ text "customIconUrl" ∷ []

-- What an option has to be, by its default in `DEFAULTS`.
pub kind_of : Text → Kind
unfolding get defaults
kind_of j = if is_in j copied_names then free else kind_of_default (get j defaults)

-- `NaN` is no proper number.
abbrev pub fits : Kind → Value → Bool
fits _ undefined = true
fits textual (str s) = true
fits numeric (num not_number) = false
fits numeric (num n) = true
fits flag (bool b) = true
fits free _ = true
fits _ _ = false

-- Each option is missing or of its kind.
abbrev pub IsTyped : Store → Type 0
IsTyped o = (j : Text) → fits (kind_of j) (get j o) ≡ true

pub put-IsTyped :
    (k : Text) (v : Value) (o : Store) → fits (kind_of k) v ≡ true → IsTyped o → IsTyped (put k v o)
put-IsTyped k v o f h j =
    ap (fits (kind_of j)) (get-put k j v o) ∙ (elim (Bool-cases (eq_text k j)) [
      | inl e ↦
          ap (λ b. fits (kind_of j) (if b then v else get j o)) e
          ∙ ap (λ k. fits (kind_of k) v) (sym ((eq_text_iff k j).0 e))
          ∙ f
      | inr e ↦ ap (λ b. fits (kind_of j) (if b then v else get j o)) e ∙ h j
    ])

same_kind : Kind → Kind → Bool
same_kind textual textual = true
same_kind numeric numeric = true
same_kind flag flag = true
same_kind free free = true
same_kind _ _ = false

pub all_kind : Kind → List Text → Bool
unfolding same_kind kind_of
all_kind q [] = true
all_kind q (k ∷ ks) = same_kind q (kind_of k) && all_kind q ks

same_kind_eq : (q r : Kind) → same_kind q r ≡ true → r ≡ q
unfolding same_kind
same_kind_eq textual r h = ground arith
same_kind_eq numeric r h = ground arith
same_kind_eq flag r h = ground arith
same_kind_eq free r h = ground arith

both_true : (a b : Bool) → (a && b) ≡ true → (a ≡ true) × (b ≡ true)
both_true a b h = (ground arith, ground arith)

pub all_kind_cons :
    (q : Kind) (k : Text) (ks : List Text)
    → all_kind q (k ∷ ks) ≡ true
    → (kind_of k ≡ q) × (all_kind q ks ≡ true)
unfolding all_kind
all_kind_cons q k ks h =
    let (e, r) = both_true (same_kind q (kind_of k)) (all_kind q ks) h in
    (same_kind_eq q (kind_of k) e, r)

pub text_names_kind : all_kind textual text_names ≡ true
unfolding all_kind kind_of get defaults text_names text eq_text
text_names_kind = refl

pub number_names_kind : all_kind numeric number_names ≡ true
unfolding all_kind kind_of get defaults number_names text eq_text
number_names_kind = refl

pub flag_names_kind : all_kind flag flag_names ≡ true
unfolding all_kind kind_of get defaults flag_names text eq_text
flag_names_kind = refl

entries_fit : Store → Bool
unfolding kind_of
entries_fit [] = true
entries_fit ((k, v) ∷ s) = fits (kind_of k) v && entries_fit s

entries-IsTyped : (s : Store) → entries_fit s ≡ true → IsTyped s
unfolding get entries_fit
entries-IsTyped [] h j = refl
entries-IsTyped ((k, v) ∷ s) h j =
    let (first, others) = both_true (fits (kind_of k) v) (entries_fit s) h in
    let later = entries-IsTyped s others j in
    elim (Bool-cases (eq_text k j)) [
      | inl e ↦
          ap (λ b. fits (kind_of j) (if b then v else get j s)) e
          ∙ ap (λ k. fits (kind_of k) v) (sym ((eq_text_iff k j).0 e))
          ∙ first
      | inr e ↦ ap (λ b. fits (kind_of j) (if b then v else get j s)) e ∙ later
    ]

defaults_fit : entries_fit defaults ≡ true
unfolding entries_fit kind_of get defaults text eq_text
defaults_fit = refl

pub defaults-IsTyped : IsTyped defaults
defaults-IsTyped = entries-IsTyped defaults defaults_fit

pub free_kind :
    (kind_of (text "suggestions") ≡ free)
    × (kind_of (text "iconType") ≡ free)
    × (kind_of (text "defaultIconChoice") ≡ free)
    × (kind_of (text "customIconUrl") ≡ free)
unfolding kind_of get defaults text eq_text
free_kind = (refl, refl, refl, refl)
