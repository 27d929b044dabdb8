-- ===== src/Start/Wiped.antt =====
-- What the server's history leaves of the page.
use website_ai_assistant.Prelude.{
  ℕ, Bool, false, ◌&&◌, List, [], ◌∷◌, is_empty, ◌==◌, ◌≡◌, refl, sym, ap, ◌∙◌, arith,
}
use website_ai_assistant.Text.{Text}
use website_ai_assistant.History.{
  Sender, Child, Store, Messages, Page, is_bot, append_row, add_message, save_local_history,
  add_hero,
}
use website_ai_assistant.History.Local.{server_opts, add_all}
use website_ai_assistant.Start.Once.{heroes, add_all-IsSingle, add_hero-IsSingle}
use website_ai_assistant.Start.Overlap.{
  Boot, Past, answered, emptied, finish, take_past, history_ended,
}

-- What the visitor sees, and what the browser keeps.
abbrev pub shown_and_kept : Messages → List Child × Store
shown_and_kept m = (m.children, m.store)

module _ (page : Page) (now : ℕ) where
  add_message-children :
      (s : Text) (from : Sender) (c : Bool) (m n : Messages)
      → m.children ≡ n.children
      → shown_and_kept (add_message page now s from (server_opts c) m)
        ≡ shown_and_kept (add_message page now s from (server_opts c) n)
  unfolding add_message append_row save_local_history
  add_message-children s from c m n h = ground arith

  add_all-shown :
      (ms : List (Sender × Text × Bool)) (m n : Messages)
      → shown_and_kept m ≡ shown_and_kept n
      → shown_and_kept (add_all page now ms m) ≡ shown_and_kept (add_all page now ms n)
  unfolding add_all
  add_all-shown [] m n h = h
  add_all-shown ((from, s, c) ∷ ms) m n h =
      add_all-shown ms _ _ (
        add_message-children s from (is_bot from && c) m n (ap (λ (p : List Child × Store). p.0) h))

module _ (greeting : Text) (page : Page) (now : ℕ) where
  abbrev begun_again : Boot → Messages
  begun_again b = add_hero greeting (emptied b.messages)

  begun_again-children : (b d : Boot) → (begun_again b).children ≡ (begun_again d).children
  unfolding add_hero
  begun_again-children b d = refl

  -- The list that the server's history makes.
  abbrev replaced : Past → Boot → Messages
  replaced p b = add_all page now p.msgs (begun_again b)

  count-replaced : (p : Past) (b : Boot) → ((replaced p b).count == 0) ≡ false
  count-replaced p b =
      let start = begun_again b in
      let single = add_hero-IsSingle greeting (emptied b.messages) (unfold heroes in refl) in
      let begun : start.count ≡ 1 = unfold add_hero in refl in
      ground (arith, (add_all-IsSingle page now p.msgs start single).1)

  history_ended-replaced :
      (p : Past) (b : Boot)
      → is_empty p.msgs ≡ false
      → shown_and_kept (history_ended greeting page now (answered p) b).messages
        ≡ shown_and_kept (replaced p b)
  unfolding history_ended take_past finish
  history_ended-replaced p b h = rw (h, count-replaced p b)

  replaced-shown :
      (p : Past) (b d : Boot)
      → is_empty p.msgs ≡ false
      → shown_and_kept (replaced p b) ≡ shown_and_kept (replaced p d)
  replaced-shown p b d h = first p.msgs h
    where
      first :
          (ms : List (Sender × Text × Bool))
          → is_empty ms ≡ false
          → shown_and_kept (add_all page now ms (begun_again b))
            ≡ shown_and_kept (add_all page now ms (begun_again d))
      first [] e = absurd (ground arith)
      first ((from, s, c) ∷ ms) e =
          unfold add_all in
          add_all-shown page now ms _ _ (
            add_message-children page now s from (is_bot from && c) (begun_again b) (begun_again d)
              (begun_again-children b d))

  -- Once the server's history has come with messages, the list and the stored history are the same
  -- whatever the page held when it came: so what the visitor asked and was answered while the
  -- request was under way is gone from both, and a conversation that was begun anew meanwhile shows
  -- the old one again.
  pub history_ended-wipes :
      (p : Past) (b d : Boot)
      → is_empty p.msgs ≡ false
      → shown_and_kept (history_ended greeting page now (answered p) b).messages
        ≡ shown_and_kept (history_ended greeting page now (answered p) d).messages
  history_ended-wipes p b d h =
      history_ended-replaced p b h ∙ replaced-shown p b d h ∙ sym (history_ended-replaced p d h)
