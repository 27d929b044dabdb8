-- ===== src/Answer/Samples.antt =====
-- A site, its options and a conversation, for the tests.
use website_ai_assistant.Prelude.{[], true, false}
use website_ai_assistant.Text.{text, starts_with}
use website_ai_assistant.Chat.Steps.{mounted}
use website_ai_assistant.Links.{Contacts}
use website_ai_assistant.History.{Page, nothing, Messages}
use website_ai_assistant.Answer.{Widget, Setup}
use website_ai_assistant.Answer.Steps.{asked}

abbrev pub site : Page
site = record {
  plain = λ s. s;
  day = λ n. n;
  day_label = λ n t. [];
  show_feedback = true;
  show_timestamp = true;
  show_citations = true;
}

abbrev pub contacts : Contacts
contacts = record {
  faq_url = [];
  privacy_url = [];
  support_email = [];
  support_phone = [];
  telegram = text "https://t.me/x";
  whatsapp = text "javascript:x";
  contact_form = [];
}

abbrev pub shop : Setup
shop = record {
  is_safe_url = λ s. starts_with (text "https:") s;
  contacts = contacts;
  handoff_trigger = [];
  enable_handoff = true;
  enable_lead_capture = true;
  preview_mode = false;
  handoff_message = text "Talk to us";
}

abbrev pub empty_list : Messages
empty_list = record {
  children = [];
  count = 0;
  store = nothing;
  is_open = true;
  unread_marks = 0;
  last_user_message = [];
}

abbrev pub fresh : Widget
fresh = record {
  messages = empty_list;
  chat = mounted false;
  chips = [];
  feedbacks = [];
  rule_items = [];
  bars = [];
  lead_forms = [];
  handoff_shown = false;
}

abbrev pub waiting : Widget
waiting = asked site 5 (text "When?") fresh
