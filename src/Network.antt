-- ===== src/Network.antt =====
-- static/widget/widget.js, the banner for a lost connection (`updateNet` in `bindEvents`), and the messages
-- that are sent meanwhile.
pub mod Told
mod Tests
use website_ai_assistant.Prelude.{Bool, true, false}
use website_ai_assistant.Text.{Text}
use website_ai_assistant.Notice.{connected}
use website_ai_assistant.Chat.{Chat, show_toast, send_text}

-- `navigator.onLine !== false`, the banner's `hidden`, and the composer with the toast.
pub record Network : Type 0 where
  pub online : Bool
  pub banner_hidden : Bool
  pub chat : Chat

unfoldable pub update_net : Network → Network
update_net n = record n { banner_hidden = n.online }

-- The browser notes the change and fires the event.
pub data Change : Type 0 where
  comes goes : Change

unfoldable pub on_change : Change → Network → Network
unfolding update_net
on_change comes n = record (update_net (record n { online = true })) {
  chat = show_toast connected n.chat;
}
on_change goes n = update_net (record n { online = false })

unfoldable pub send_message : Bool → Text → Network → Network
unfolding send_text
send_message streaming msg n = record n { chat = send_text n.online streaming msg n.chat }
