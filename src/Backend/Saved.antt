-- ===== src/Backend/Saved.antt =====
-- The conversation's ids in the widget and in the session's store.
use website_ai_assistant.Prelude.{List, [], ◌∷◌, ◌≡◌}
use website_ai_assistant.Stream.{Payload}
use website_ai_assistant.Stream.Reader.{Conversation, Reader, on_meta}
use website_ai_assistant.Backend.{Fetched, call_backend, forget_conversation}

-- What changes the ids: a request without streaming, a `meta` event of a stream, and the button for a
-- new conversation.
pub data Event : Type 0 where
  asked : Fetched → Event
  got_meta : Reader → Payload → Event
  started_anew : Event

abbrev happen : Event → Conversation → Conversation
happen (asked f) c = (call_backend f c).0
happen (got_meta r d) c = (on_meta (record r { conversation = c }) d).conversation
happen started_anew c = forget_conversation c

abbrev pub happen_all : List Event → Conversation → Conversation
happen_all [] c = c
happen_all (e ∷ es) c = happen_all es (happen e c)

record IsSaved (c : Conversation) : Type 0 where
  pub same_id : c.stored_id ≡ c.id
  pub same_token : c.stored_token ≡ c.token
