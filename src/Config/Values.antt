-- ===== src/Config/Values.antt =====
-- Option values and option objects of static/widget/widget.js: a JavaScript object as a list of
-- properties, read and written by name. Each name stands at most once in what `put` builds.
use website_ai_assistant.Prelude.{
  Bool, true, false, not, ◌||◌, List, [], ◌∷◌, if◌then◌else◌, is_empty, ◌==◌, ◌≡◌, refl, arith,
}
use website_ai_assistant.Text.{Text, eq_text}
use website_ai_assistant.Text.Laws.{eq_text_iff}
use website_ai_assistant.Layout.{Number, not_number, infinite, negative, whole}

pub data Value : Type 0 where
  undefined null : Value
  bool : Bool → Value
  num : Number → Value
  str : Text → Value
  texts : List Text → Value
  object : List (Text × Text) → Value

abbrev pub Store : Type 0
Store = List (Text × Value)

unfoldable pub get : Text → Store → Value
get k [] = undefined
get k ((j, v) ∷ s) = if eq_text j k then v else get k s

-- `hasOwnProperty`.
unfoldable pub has : Text → Store → Bool
has k [] = false
has k ((j, v) ∷ s) = eq_text j k || has k s

-- `o[k] = v`.
unfoldable pub put : Text → Value → Store → Store
put k v [] = (k, v) ∷ []
put k v ((j, w) ∷ s) = if eq_text j k then (k, v) ∷ s else (j, w) ∷ put k v s

-- `Object.assign(target, source)`.
unfoldable pub assign : Store → Store → Store
assign target [] = target
assign target ((k, v) ∷ s) = put k v (assign target s)

-- What counts as true.
unfoldable pub truthy : Value → Bool
truthy undefined = false
truthy null = false
truthy (bool b) = b
truthy (num not_number) = false
truthy (num infinite) = true
truthy (num negative) = true
truthy (num (whole n)) = not (n == 0)
truthy (str s) = not (is_empty s)
truthy (texts _) = true
truthy (object _) = true

-- `v !== undefined && v !== null`.
unfoldable pub is_set : Value → Bool
is_set undefined = false
is_set null = false
is_set _ = true

-- The text of an option that is a string.
unfoldable pub text_of : Value → Text
text_of (str s) = s
text_of _ = []

pub get-put :
    (k j : Text) (v : Value) (s : Store) → get j (put k v s) ≡ (if eq_text k j then v else get j s)
unfolding get put
get-put k j v [] = refl
get-put k j v ((i, w) ∷ s) =
    ground (arith, eq_text_iff k j, eq_text_iff i k, eq_text_iff i j, get-put k j v s)

pub get-assign :
    (j : Text) (t s : Store) → get j (assign t s) ≡ (if has j s then get j s else get j t)
unfolding get has assign
get-assign j t [] = refl
get-assign j t ((k, v) ∷ s) = ground (arith, get-put k j v (assign t s), get-assign j t s)
