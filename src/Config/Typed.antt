-- ===== src/Config/Typed.antt =====
-- `applyConfig` keeps the options' types, whatever the customizer's page sends.
use website_ai_assistant.Prelude.{
  Bool, true, false, List, [], ◌∷◌, if◌then◌else◌, ◌≡◌, refl, ap, ◌∙◌,
}
use website_ai_assistant.Text.{Text, text}
use website_ai_assistant.Layout.{Number, not_number, infinite, negative, whole}
use website_ai_assistant.Config.Values.{
  Value, undefined, null, str, num, bool, texts, object, Store, get, put, is_set, truthy,
}
use website_ai_assistant.Config.Kinds.{
  textual, numeric, flag, free, kind_of, fits, IsTyped, put-IsTyped, all_kind, all_kind_cons,
  text_names_kind, number_names_kind, flag_names_kind, free_kind,
}
use website_ai_assistant.Config.Preview.{
  text_names, number_names, flag_names, take_texts, take_numbers, take_flags, put_number,
  copy_truthy, is_array, is_undefined, apply_config,
}

kept_if :
    (b : Bool) (p o : Store) → (b ≡ true → IsTyped p) → IsTyped o → IsTyped (if b then p else o)
kept_if true p o h k = h refl
kept_if false p o h k = k

fits_free : (v : Value) → fits free v ≡ true
fits_free undefined = refl
fits_free null = refl
fits_free (str s) = refl
fits_free (num n) = refl
fits_free (bool b) = refl
fits_free (texts l) = refl
fits_free (object l) = refl

put_free : (k : Text) (v : Value) (o : Store) → kind_of k ≡ free → IsTyped o → IsTyped (put k v o)
put_free k v o e h = put-IsTyped k v o (ap (λ q. fits q v) e ∙ fits_free v) h

put_numeric :
    (k : Text) (n : Number) (o : Store)
    → kind_of k ≡ numeric
    → fits numeric (num n) ≡ true
    → IsTyped o
    → IsTyped (put k (num n) o)
put_numeric k n o e f h = put-IsTyped k (num n) o (ap (λ q. fits q (num n)) e ∙ f) h

module _ (to_text : Value → Text) (to_number : Value → Number) (cfg : Store) where
  take_texts-IsTyped :
      (ks : List Text) (o : Store)
      → all_kind textual ks ≡ true
      → IsTyped o
      → IsTyped (take_texts to_text to_number cfg ks o)
  unfolding take_texts
  take_texts-IsTyped [] o a h = h
  take_texts-IsTyped (k ∷ ks) o a h =
      let (e, r) = all_kind_cons textual k ks a in
      let v = str (to_text (get k cfg)) in
      take_texts-IsTyped ks _ r (
        kept_if (is_set (get k cfg)) (put k v o) o (λ _. put-IsTyped k v o (ap (λ q. fits q v) e) h)
          h)

  put_number-IsTyped :
      (k : Text) (n : Number) (o : Store)
      → kind_of k ≡ numeric
      → IsTyped o
      → IsTyped (put_number to_text to_number k n o)
  put_number-IsTyped k not_number o e h = h
  put_number-IsTyped k infinite o e h = put_numeric k infinite o e refl h
  put_number-IsTyped k negative o e h = put_numeric k negative o e refl h
  put_number-IsTyped k (whole n) o e h = put_numeric k (whole n) o e refl h

  take_numbers-IsTyped :
      (ks : List Text) (o : Store)
      → all_kind numeric ks ≡ true
      → IsTyped o
      → IsTyped (take_numbers to_text to_number cfg ks o)
  unfolding take_numbers
  take_numbers-IsTyped [] o a h = h
  take_numbers-IsTyped (k ∷ ks) o a h =
      let (e, r) = all_kind_cons numeric k ks a in
      take_numbers-IsTyped ks _ r (put_number-IsTyped k (to_number (get k cfg)) o e h)

  take_flags-IsTyped :
      (ks : List Text) (o : Store)
      → all_kind flag ks ≡ true
      → IsTyped o
      → IsTyped (take_flags to_text to_number cfg ks o)
  unfolding take_flags
  take_flags-IsTyped [] o a h = h
  take_flags-IsTyped (k ∷ ks) o a h =
      let (e, r) = all_kind_cons flag k ks a in
      let v = bool (truthy (get k cfg)) in
      take_flags-IsTyped ks _ r (
        kept_if (is_set (get k cfg)) (put k v o) o (λ _. put-IsTyped k v o (ap (λ q. fits q v) e) h)
          h)

  copy_truthy-IsTyped :
      (k : Text) (o : Store) → kind_of k ≡ free → IsTyped o → IsTyped (copy_truthy k cfg o)
  copy_truthy-IsTyped k o e h =
      kept_if (truthy (get k cfg)) (put k (get k cfg) o) o (λ _. put_free k (get k cfg) o e h) h

  -- Whatever the customizer's page sends, and whatever `String` and `Number` make of it: if every
  -- option is missing or of the type of its default (a text, a number that is not `NaN`, a flag), that
  -- stays so. The two icon options and the icon's address are copied as they come and are exempt, and
  -- so are the options whose default is a list or an object, or that have none.
  pub apply_config-IsTyped :
      (o : Store) → IsTyped o → IsTyped (apply_config to_text to_number cfg o)
  unfolding apply_config
  apply_config-IsTyped o h =
      let a = take_texts-IsTyped text_names o text_names_kind h in
      let b = take_numbers-IsTyped number_names _ number_names_kind a in
      let c = take_flags-IsTyped flag_names _ flag_names_kind b in
      let s = get (text "suggestions") cfg in
      let d =
        kept_if (is_array s) (put (text "suggestions") s _) _
          (λ _. put_free (text "suggestions") s _ free_kind.0 c) c in
      let e = copy_truthy-IsTyped (text "iconType") _ free_kind.1 d in
      let f = copy_truthy-IsTyped (text "defaultIconChoice") _ free_kind.2 e in
      let u = get (text "customIconUrl") cfg in
      kept_if (is_undefined u) _ (put (text "customIconUrl") u _) (λ _. f)
        (put_free (text "customIconUrl") u _ free_kind.3 f)
