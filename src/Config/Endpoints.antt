-- ===== src/Config/Endpoints.antt =====
-- Where the endpoints stand that the constructor derives from the chat endpoint.
use website_ai_assistant.Prelude.{
  ℕ, ◌≤◌, ◌<◌, ◌≢◌, Bool, true, false, [], ◌∷◌, ◌++◌, ◌≡◌, refl, ap, ◌∙◌, arith, length,
  length-append, append_assoc, Bool-cases, inl, inr,
}
use website_ai_assistant.Text.{Text, text, eq_text}
use website_ai_assistant.Text.Laws.{eq_text_iff}
use website_ai_assistant.Config.{sibling_endpoint, replace_chat, drop_slash}

eq_text-length : (s t : Text) → length s ≢ length t → eq_text s t ≡ false
eq_text-length s t h = elim (Bool-cases (eq_text s t)) [
  | inl e ↦ absurd (h (ap length ((eq_text_iff s t).0 e)))
  | inr e ↦ e
]

replace_chat_skip :
    (name : Text) (c : ℕ) (s : Text)
    → length s ≢ 3
    → length s ≢ 4
    → replace_chat name (c ∷ s) ≡ c ∷ replace_chat name s
unfolding replace_chat text
replace_chat_skip name c s p q = ground (
  arith,
  eq_text-length (c ∷ s) (text "chat") (omega arith),
  eq_text-length (c ∷ s) (text "chat/") (omega arith),
)

five_before :
    (name : Text) (c : ℕ)
    → replace_chat name (c ∷ text "chat/") ≡ c ∷ replace_chat name (text "chat/")
unfolding replace_chat text eq_text
five_before name c = ground arith

-- An address that ends in `chat`, with or without a slash.
abbrev pub ending : Bool → Text
ending true = text "chat/"
ending false = text "chat"

ends_at : (name : Text) (slash : Bool) → replace_chat name (ending slash) ≡ name ++ text "/"
unfolding replace_chat text eq_text
ends_at name true = refl
ends_at name false = refl

one_before :
    (name : Text) (c : ℕ)
    → replace_chat name (c ∷ text "chat") ≡ c ∷ replace_chat name (text "chat")
unfolding replace_chat text eq_text
one_before name c = ground arith

length-ending : (slash : Bool) → 4 ≤ length (ending slash)
unfolding text
length-ending true = omega arith
length-ending false = omega arith

long : (d : ℕ) (base : Text) (slash : Bool) → 4 < length (d ∷ base ++ ending slash)
long d base slash = omega (arith, length-append {0} base (ending slash), length-ending slash)

replace_chat-append :
    (name base : Text) (slash : Bool)
    → replace_chat name (base ++ ending slash) ≡ base ++ (name ++ text "/")
replace_chat-append name [] slash = ends_at name slash
replace_chat-append name (c ∷ []) true =
    five_before name c ∙ ap (λ k. c ∷ k) (replace_chat-append name [] true)
replace_chat-append name (c ∷ []) false =
    one_before name c ∙ ap (λ k. c ∷ k) (replace_chat-append name [] false)
replace_chat-append name (c ∷ d ∷ base) slash =
    let l = long d base slash in
    replace_chat_skip name c (d ∷ base ++ ending slash) (omega arith) (omega arith)
    ∙ ap (λ k. c ∷ k) (replace_chat-append name (d ∷ base) slash)

drop_slash_skip : (c d : ℕ) (s : Text) → drop_slash (c ∷ d ∷ s) ≡ c ∷ drop_slash (d ∷ s)
unfolding drop_slash eq_text
drop_slash_skip c d s = ground arith

drop_slash-ending : (slash : Bool) → drop_slash (ending slash) ≡ text "chat"
unfolding drop_slash text eq_text
drop_slash-ending true = refl
drop_slash-ending false = refl

slash_before :
    (c : ℕ) (slash : Bool) → drop_slash (c ∷ ending slash) ≡ c ∷ drop_slash (ending slash)
unfolding drop_slash text eq_text
slash_before c true = ground arith
slash_before c false = ground arith

drop_slash-append :
    (base : Text) (slash : Bool) → drop_slash (base ++ ending slash) ≡ base ++ text "chat"
drop_slash-append [] slash = drop_slash-ending slash
drop_slash-append (c ∷ []) slash =
    slash_before c slash ∙ ap (λ k. c ∷ k) (drop_slash-append [] slash)
drop_slash-append (c ∷ d ∷ base) slash =
    drop_slash_skip c d (base ++ ending slash)
    ∙ ap (λ k. c ∷ k) (drop_slash-append (d ∷ base) slash)

joined : text "chat" ++ text "/stream/" ≡ text "chat/stream/"
unfolding text
joined = refl

-- For a chat endpoint whose address ends in `chat` or `chat/`, the other endpoints stand beside it,
-- under their own names, and the stream below it.
pub sibling_endpoint-ending :
    (resolve : Text → Text → Text) (href base name : Text) (slash : Bool)
    → (sibling_endpoint resolve href (base ++ ending slash) name
        ≡ resolve (base ++ (name ++ text "/")) href)
      × (drop_slash (base ++ ending slash) ++ text "/stream/" ≡ base ++ text "chat/stream/")
unfolding sibling_endpoint
sibling_endpoint-ending resolve href base name slash = (
  ap (λ k. resolve k href) (replace_chat-append name base slash),
  ap (λ k. k ++ text "/stream/") (drop_slash-append base slash)
      ∙ append_assoc base (text "chat") (text "/stream/")
      ∙ ap (λ k. base ++ k) joined,
)
