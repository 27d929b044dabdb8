-- ===== src/Network/Told.antt =====
-- The banner says what becomes of a message.
use website_ai_assistant.Prelude.{
  Bool, true, false, [], ◌∷◌, ◌++◌, is_empty, if◌then◌else◌, ◌≡◌, refl, arith,
}
use website_ai_assistant.Text.{Text}
use website_ai_assistant.Chat.{Chat}
use website_ai_assistant.Network.{Network, Change, comes, goes, update_net, on_change, send_message}

pub data Step (n : Network) : Network → Type 0 where
  changes : (c : Change) → Step n (on_change c n)
  sends : (streaming : Bool) (msg : Text) → Step n (send_message streaming msg n)
  -- whatever else happens to the composer
  goes_on : (c : Chat) → Step n (record n { chat = c })

pub data Reach (online : Bool) (c : Chat) : Network → Type 0 where
  -- `bindEvents` calls `updateNet`
  bound : Reach online c (update_net (record { online = online; banner_hidden = true; chat = c }))
  next : {n m : Network} → Reach online c n → Step n m → Reach online c m

IsTold : Network → Type 0
IsTold n = n.banner_hidden ≡ n.online

Step-IsTold : {n m : Network} → Step n m → IsTold n → IsTold m
unfolding IsTold on_change send_message
Step-IsTold (changes comes) h = refl
Step-IsTold (changes goes) h = refl
Step-IsTold (sends streaming msg) h = h
Step-IsTold (goes_on c) h = h

Reach-IsTold : {online : Bool} {c : Chat} {n : Network} → Reach online c n → IsTold n
unfolding IsTold update_net
Reach-IsTold bound = refl
Reach-IsTold (next r s) = Step-IsTold s (Reach-IsTold r)

send_message_requests :
    (streaming : Bool) (msg : Text) (n : Network)
    → n.chat.is_blocked ≡ false
    → n.chat.is_loading ≡ false
    → is_empty msg ≡ false
    → (send_message streaming msg n).chat.requests
      ≡ (if n.online then n.chat.requests ++ msg ∷ [] else n.chat.requests)
unfolding send_message
send_message_requests streaming msg n h k e = ground arith

-- However the connection comes and goes: a message that is not empty, from a visitor who is not
-- blocked and awaits no answer, is requested from the backend just when the banner is hidden.
pub send_message-banner :
    {online : Bool} {c : Chat} (streaming : Bool) (msg : Text) (n : Network)
    → Reach online c n
    → n.chat.is_blocked ≡ false
    → n.chat.is_loading ≡ false
    → is_empty msg ≡ false
    → (send_message streaming msg n).chat.requests
      ≡ (if n.banner_hidden then n.chat.requests ++ msg ∷ [] else n.chat.requests)
unfolding IsTold send_message
send_message-banner streaming msg n r h k e =
    rw (Reach-IsTold r) (send_message_requests streaming msg n h k e)
