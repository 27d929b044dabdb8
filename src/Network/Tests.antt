-- ===== src/Network/Tests.antt =====
-- A page that loses its connection.
use website_ai_assistant.Prelude.{◌≡◌, refl, true, false}
use website_ai_assistant.Chat.Steps.{mounted}
use website_ai_assistant.Network.{Network, goes, update_net, on_change}

abbrev lost : Network
lost =
    on_change goes
      (update_net (record { online = true; banner_hidden = true; chat = mounted false }))

lost_banner : lost.banner_hidden ≡ false
unfolding on_change update_net
lost_banner = refl
