-- ===== src/Contact/Valid.antt =====
-- The pattern of an email address against its description.
use website_ai_assistant.Prelude.{
  ℕ, true, false, [], ◌∷◌, ◌++◌, ◌≡◌, ◌↔◌, ◌⊎◌, inl, inr, refl, ap, ◌∙◌, arith, is_empty,
}
use website_ai_assistant.Text.{Text}
use website_ai_assistant.Contact.{is_plain, all_plain, has_inner_dot, is_domain, is_rest, is_email}

-- A local part, an at sign, a host, a dot and a last part; none of them is empty or holds white space
-- or an at sign.
pub record IsEmail (s : Text) : Type 0 where
  pub local_part : Text
  pub host : Text
  pub last_part : Text
  pub split : s ≡ local_part ++ b'@' ∷ (host ++ b'.' ∷ last_part)
  pub local_ok : (is_empty local_part ≡ false) × (all_plain local_part ≡ true)
  pub host_ok : (is_empty host ≡ false) × (all_plain host ≡ true)
  pub last_ok : (is_empty last_part ≡ false) × (all_plain last_part ≡ true)

record IsDotted (s : Text) : Type 0 where
  front : Text
  back : Text
  split : s ≡ front ++ b'.' ∷ back
  front_ok : all_plain front ≡ true
  back_ok : (is_empty back ≡ false) × (all_plain back ≡ true)

no_text : all_plain [] ≡ true
unfolding all_plain
no_text = refl

cons-IsDotted : (c : ℕ) (s : Text) → is_plain c ≡ true → IsDotted s → IsDotted (c ∷ s)
unfolding all_plain
cons-IsDotted c s p r = record {
  front = c ∷ r.front;
  back = r.back;
  split = ap (λ k. c ∷ k) r.split;
  front_ok = ground (arith, p, r.front_ok);
  back_ok = r.back_ok;
}

inner_step :
    (c d : ℕ) (s : Text)
    → has_inner_dot (c ∷ d ∷ s) ≡ true
    → (c ≡ b'.') ⊎ (has_inner_dot (d ∷ s) ≡ true)
unfolding has_inner_dot
inner_step c d s h = ground arith

plain_step :
    (c : ℕ) (s : Text) → all_plain (c ∷ s) ≡ true → (is_plain c ≡ true) × (all_plain s ≡ true)
unfolding all_plain
plain_step c s h = ground arith

dotted : (s : Text) → has_inner_dot s ≡ true → all_plain s ≡ true → IsDotted s
unfolding has_inner_dot
dotted [] h p = absurd (ground arith)
dotted (c ∷ []) h p = absurd (ground arith)
dotted (c ∷ d ∷ s) h p = elim (inner_step c d s h) [
  | inl e ↦ record {
    front = [];
    back = d ∷ s;
    split = ap (λ k. k ∷ d ∷ s) e;
    front_ok = no_text;
    back_ok = (refl, (plain_step c (d ∷ s) p).1);
  }
  | inr e ↦
      cons-IsDotted c (d ∷ s) (plain_step c (d ∷ s) p).0
        (dotted (d ∷ s) e (plain_step c (d ∷ s) p).1)
]

record IsAt (s : Text) : Type 0 where
  front : Text
  domain : Text
  split : s ≡ front ++ b'@' ∷ domain
  front_ok : all_plain front ≡ true
  domain_ok : is_domain domain ≡ true

cons-IsAt : (c : ℕ) (s : Text) → is_plain c ≡ true → IsAt s → IsAt (c ∷ s)
unfolding all_plain
cons-IsAt c s p r = record {
  front = c ∷ r.front;
  domain = r.domain;
  split = ap (λ k. c ∷ k) r.split;
  front_ok = ground (arith, p, r.front_ok);
  domain_ok = r.domain_ok;
}

rest_step :
    (c : ℕ) (s : Text)
    → is_rest (c ∷ s) ≡ true
    → ((c ≡ b'@') × (is_domain s ≡ true)) ⊎ ((is_plain c ≡ true) × (is_rest s ≡ true))
unfolding is_rest
rest_step c s h = ground arith

rested : (s : Text) → is_rest s ≡ true → IsAt s
unfolding is_rest
rested [] h = absurd (ground arith)
rested (c ∷ s) h = elim (rest_step c s h) [
  | inl (e, d) ↦ record {
    front = [];
    domain = s;
    split = ap (λ k. k ∷ s) e;
    front_ok = no_text;
    domain_ok = d;
  }
  | inr (p, r) ↦ cons-IsAt c s p (rested s r)
]

email_step : (c : ℕ) (s : Text) → is_email (c ∷ s) ≡ true → (is_plain c ≡ true) × (is_rest s ≡ true)
unfolding is_email
email_step c s h = ground arith

domain_step :
    (c : ℕ) (s : Text)
    → is_domain (c ∷ s) ≡ true
    → (is_plain c ≡ true) × (all_plain s ≡ true) × (has_inner_dot s ≡ true)
unfolding is_domain all_plain
domain_step c s h = ground arith

plain_cons : (c : ℕ) (s : Text) → is_plain c ≡ true → all_plain s ≡ true → all_plain (c ∷ s) ≡ true
unfolding all_plain
plain_cons c s p q = ground arith

build :
    (c : ℕ) (s front d : Text)
    → is_plain c ≡ true
    → all_plain front ≡ true
    → is_domain d ≡ true
    → s ≡ front ++ b'@' ∷ d
    → IsEmail (c ∷ s)
unfolding is_domain
build c s front [] p f h e = absurd (ground arith)
build c s front (x ∷ d) p f h e =
    let (px, pd, dot) = domain_step x d h in
    let q = dotted d dot pd in
    record {
      local_part = c ∷ front;
      host = x ∷ q.front;
      last_part = q.back;
      split = ap (λ k. c ∷ k) (e ∙ ap (λ k. front ++ b'@' ∷ x ∷ k) q.split);
      local_ok = (refl, plain_cons c front p f);
      host_ok = (refl, plain_cons x q.front px q.front_ok);
      last_ok = q.back_ok;
    }

found : (c : ℕ) (s : Text) → is_plain c ≡ true → IsAt s → IsEmail (c ∷ s)
found c s p r = build c s r.front r.domain p r.front_ok r.domain_ok r.split

is_email-IsEmail : (s : Text) → is_email s ≡ true → IsEmail s
unfolding is_email
is_email-IsEmail [] h = absurd (ground arith)
is_email-IsEmail (c ∷ s) h = found c s (email_step c s h).0 (rested s (email_step c s h).1)

inner_has : (a : Text) (d : ℕ) (b : Text) → has_inner_dot (a ++ b'.' ∷ d ∷ b) ≡ true
unfolding has_inner_dot
inner_has [] d b = refl
inner_has (c ∷ []) d b = ground arith
inner_has (c ∷ e ∷ a) d b = ground (arith, inner_has (e ∷ a) d b)

plain_append : (a b : Text) → all_plain a ≡ true → all_plain b ≡ true → all_plain (a ++ b) ≡ true
unfolding all_plain
plain_append [] b h k = k
plain_append (c ∷ a) b h k = ground (arith, plain_append a b (plain_step c a h).1 k, h)

rest_plain : (c : ℕ) (s : Text) → is_plain c ≡ true → is_rest s ≡ true → is_rest (c ∷ s) ≡ true
unfolding is_rest is_plain
rest_plain c s p h = ground arith

dot_plain : all_plain (b'.' ∷ []) ≡ true
unfolding all_plain
dot_plain = refl

domain_has :
    (x : ℕ) (a : Text) (d : ℕ) (b : Text)
    → all_plain (x ∷ a) ≡ true
    → all_plain (d ∷ b) ≡ true
    → is_domain (x ∷ (a ++ b'.' ∷ d ∷ b)) ≡ true
unfolding is_domain
domain_has x a d b h k = ground (
  arith,
  inner_has a d b,
  plain_append (x ∷ a) (b'.' ∷ d ∷ b) h (plain_append (b'.' ∷ []) (d ∷ b) dot_plain k),
)

rest_has : (l t : Text) → all_plain l ≡ true → is_domain t ≡ true → is_rest (l ++ b'@' ∷ t) ≡ true
unfolding is_rest
rest_has [] t h k = k
rest_has (c ∷ l) t h k =
    let (p, q) = plain_step c l h in rest_plain c (l ++ b'@' ∷ t) p (rest_has l t q k)

email_has :
    (l h b : Text)
    → (is_empty l ≡ false) × (all_plain l ≡ true)
    → (is_empty h ≡ false) × (all_plain h ≡ true)
    → (is_empty b ≡ false) × (all_plain b ≡ true)
    → is_email (l ++ b'@' ∷ (h ++ b'.' ∷ b)) ≡ true
unfolding is_email
email_has [] h b (n, _) _ _ = absurd (ground arith)
email_has (c ∷ l) [] b _ (n, _) _ = absurd (ground arith)
email_has (c ∷ l) (x ∷ h) [] _ _ (n, _) = absurd (ground arith)
email_has (c ∷ l) (x ∷ h) (d ∷ b) (_, p) (_, q) (_, r) =
    let (pc, pl) = plain_step c l p in
    ground (arith, pc, rest_has l (x ∷ (h ++ b'.' ∷ d ∷ b)) pl (domain_has x h d b q r))

-- What the form takes for an email address is just what has the described shape: a local part, an at
-- sign, a host, a dot and a last part, none of them empty or with white space or an at sign.
pub is_email_iff : (s : Text) → (is_email s ≡ true) ↔ IsEmail s
is_email_iff s = (
  is_email-IsEmail s,
  λ e.
      ap is_email e.split
      ∙ email_has e.local_part e.host e.last_part e.local_ok e.host_ok e.last_ok,
)
