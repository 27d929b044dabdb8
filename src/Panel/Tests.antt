-- ===== src/Panel/Tests.antt =====
-- Tests of the panel, and its theorems at concrete inputs.
use website_ai_assistant.Prelude.{◌≡◌, refl, true, false}
use website_ai_assistant.Text.{text}
use website_ai_assistant.Text.Decimal.{decimal}
use website_ai_assistant.Panel.{Panel, news, badge_text, receive, open_panel, flash}
use website_ai_assistant.Panel.Steps.{mounted, gets, title_ticks, opens, here, next}
use website_ai_assistant.Panel.Tidy.{IsTidy, reachable-IsTidy}

abbrev shop : Panel
shop = mounted (text "Shop") false

-- An answer in a hidden tab, and one tick of the title.
abbrev called : Panel
called = flash (receive true shop)

called_news : called.title ≡ news
unfolding flash receive text
called_news = refl

badge_many : badge_text 12 ≡ text "9+"
unfolding badge_text decimal text
badge_many = refl

badge_few : badge_text 7 ≡ text "7"
unfolding badge_text decimal text
badge_few = refl

reachable-IsTidy_example : IsTidy (text "Shop") (open_panel called)
unfolding receive text
reachable-IsTidy_example =
    reachable-IsTidy (text "Shop") refl false
      (next (next (next here (gets true)) (title_ticks refl)) opens)
