-- ===== src/Voice/Session.antt =====
-- Speech input beside everything else that happens to the composer.
use website_ai_assistant.Prelude.{
  Bool, true, false, not, List, [], ◌∷◌, ◌≡◌, refl, ap, ◌∙◌, arith, is_empty, if◌then◌else◌, Option,
}
use website_ai_assistant.Text.{Text, trim}
use website_ai_assistant.Notice.{Notice}
use website_ai_assistant.Chat.{Chat, Placeholder, configured, hearing, update_send_state}
use website_ai_assistant.Chat.Steps
use website_ai_assistant.Chat.Invariant.{IsSound, Step-IsSound, mounted-IsSound}
use website_ai_assistant.Voice.{
  begin_listening, Voice, Fault, not_allowed, network, other, init_voice, click_mic, transcript,
  on_result, on_end, on_error,
}

-- The widget after `mount` and `initVoice`; `kept` is the browser's flag of a lock.
abbrev pub mounted : (kept supported enabled : Bool) → Voice
mounted kept supported enabled = init_voice supported enabled (record {
  chat = Steps.mounted kept;
  ready = false;
  listening = false;
  marked = false;
  wave_hidden = true;
  running = false;
  stops = 0;
})

pub data Step (v : Voice) : Voice → Type 0 where
  -- the composer goes on
  composes : {d : Chat} → Steps.Step v.chat d → Step v (record v { chat = d })
  clicks_mic : v.chat.mic_hidden ≡ false → Step v (click_mic v)
  results : (ss : List Text) → v.running ≡ true → Step v (on_result ss v)
  ends : v.running ≡ true → Step v (on_end v)
  fails : (f : Fault) → v.running ≡ true → Step v (on_error f v)

pub data Reach (v : Voice) : Voice → Type 0 where
  here : Reach v v
  next : {d e : Voice} → Reach v d → Step d e → Reach v e

-- The composer is sound; the wave and the mark are there just while the widget listens, and then the
-- recognizer runs.
pub record IsHeard (v : Voice) : Type 0 where
  pub sound : IsSound v.chat
  pub wave : v.wave_hidden ≡ not v.listening
  pub mark : v.marked ≡ v.listening
  pub runs : v.listening ≡ true → v.running ≡ true

mounted-IsHeard : (kept supported enabled : Bool) → IsHeard (mounted kept supported enabled)
unfolding init_voice
mounted-IsHeard k s e = ground (arith, mounted-IsSound k)

-- Placeholder and toast do not matter for the composer's soundness.
retold-IsSound :
    (c : Chat) (p : Placeholder) (n : Option Notice)
    → IsSound c
    → IsSound (record c { placeholder = p; toast = n })
retold-IsSound c p n h = ground arith

Step-IsHeard : {v w : Voice} → Step v w → IsHeard v → IsHeard w
unfolding click_mic on_result on_end on_error update_send_state
Step-IsHeard {v} (composes s) h = record {
  sound = Step-IsSound s h.sound;
  wave = h.wave;
  mark = h.mark;
  runs = h.runs;
}
Step-IsHeard {v} (clicks_mic e) h = ground arith
Step-IsHeard {v} (results ss e) h =
    ground (arith, Step-IsSound (Steps.dictates (transcript ss)) h.sound)
Step-IsHeard {v} (ends e) h = ground arith
Step-IsHeard {v} (fails not_allowed e) h = ground arith
Step-IsHeard {v} (fails network e) h = ground arith
Step-IsHeard {v} (fails other e) h = ground arith

Reach-IsHeard : {v w : Voice} → IsHeard v → Reach v w → IsHeard w
Reach-IsHeard h here = h
Reach-IsHeard h (next r s) = Step-IsHeard s (Reach-IsHeard h r)

-- With or without a recognizer and a kept lock, whatever the visitor types, sends and speaks and however the
-- recognizer's events fall between the network's: the composer stays sound, the wave and the mark
-- are shown just while the widget listens, and it listens only while the recognizer runs.
pub reachable-IsHeard :
    (kept supported enabled : Bool) {v : Voice}
    → Reach (mounted kept supported enabled) v
    → IsHeard v
reachable-IsHeard kept supported enabled r =
    Reach-IsHeard (mounted-IsHeard kept supported enabled) r

unfoldable pub on_results : List (List Text) → Voice → Voice
unfolding on_result
on_results [] v = v
on_results (ss ∷ rest) v = on_results rest (on_result ss v)

-- The last of some results.
abbrev pub last_of : List Text → List (List Text) → List Text
last_of ss [] = ss
last_of ss (ts ∷ rest) = last_of ts rest

-- The composer after a dictation of a text.
abbrev pub dictated : Text → Chat → Chat
dictated t c = record c {
  value = t;
  send_disabled = is_empty (trim t);
  placeholder = if is_empty t then configured else hearing;
}

results_lem :
    (ss : List Text) (rest : List (List Text)) (v : Voice)
    → (on_results (ss ∷ rest) v) ≡ record v {
      chat = update_send_state (record v.chat { value = transcript (last_of ss rest) });
    }
unfolding on_results on_result update_send_state
results_lem ss [] v = refl
results_lem ss (ts ∷ rest) v = results_lem ts rest (on_result ss v)

end_lem :
    (t : Text) (c : Chat) (v : Voice)
    → c.is_loading ≡ false
    → (on_end (record v {
      chat = update_send_state (record c { placeholder = hearing; value = t });
    })).chat
      ≡ dictated t c
unfolding on_end update_send_state
end_lem t c v e = ground arith

click_lem :
    (v : Voice)
    → v.listening ≡ false
    → v.running ≡ false
    → v.chat.is_loading ≡ false
    → click_mic v ≡ begin_listening v
unfolding click_mic
click_lem v e f g = ground arith

-- A dictation from a widget that neither loads nor listens, its recognizer at rest: after a click on
-- the microphone, at least one result and the end, the input holds the transcript of the last result
-- and can be sent just when that is not blank; the placeholder still says that the widget listens,
-- unless the transcript is empty.
pub dictation :
    (ss : List Text) (rest : List (List Text)) (v : Voice)
    → v.listening ≡ false
    → v.running ≡ false
    → v.chat.is_loading ≡ false
    → (on_end (on_results (ss ∷ rest) (click_mic v))).chat
      ≡ dictated (transcript (last_of ss rest)) v.chat
dictation ss rest v e f g =
    ap (λ x. (on_end (on_results (ss ∷ rest) x)).chat) (click_lem v e f g)
    ∙ ap (λ x. (on_end x).chat) (results_lem ss rest (begin_listening v))
    ∙ end_lem (transcript (last_of ss rest)) v.chat (begin_listening v) g
