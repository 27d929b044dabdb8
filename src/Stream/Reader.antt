-- ===== src/Stream/Reader.antt =====
-- static/widget/widget.js, `streamChat`: the events of the response, the end of the response, and
-- the handler of a failed or aborted one. `JSON.parse` is a parameter.
use website_ai_assistant.Prelude.{
  Bool, true, false, not, ◌&&◌, ◌||◌, List, [], ◌∷◌, ◌++◌, Option, none, some, if◌then◌else◌,
  is_empty,
}
use website_ai_assistant.Text.{Text, text, eq_text}
use website_ai_assistant.Notice.{Notice, timed_out, stream_broken, said_or}
use website_ai_assistant.Sse.{SseEvent, feed, parse_frames}
use website_ai_assistant.Stream.{Payload, Stream, ensure_paint, answer_result}

-- What `JSON.parse` does: it throws, or gives `null`, or another value.
pub data Parsed : Type 0 where
  malformed null_value : Parsed
  value : Payload → Parsed

-- Why the promise was rejected: the request was aborted, or an error with its `userMessage`,
-- if it has one.
pub data Failure : Type 0 where
  aborted : Failure
  failed : Option Notice → Failure

pub data Settled : Type 0 where
  pending resolved : Settled
  rejected : Failure → Settled

-- The ids of the conversation, in the widget and in `sessionStorage`.
pub record Conversation : Type 0 where
  pub id : Text
  pub token : Text
  pub stored_id : Text
  pub stored_token : Text

-- `sessionStorage` is taken to accept what is stored; where it throws, the code goes on without.
unfoldable pub save_conversation : Conversation → Conversation
save_conversation c = record c {
  stored_id = if is_empty c.id then c.stored_id else c.id;
  stored_token = if is_empty c.token then c.stored_token else c.token;
}

-- `stopped`: a callback threw, so neither the rest of the chunk nor another read is handled.
pub record Reader : Type 0 where
  pub stream : Stream
  pub conversation : Conversation
  pub settled : Settled
  pub stopped : Bool
  pub buffer : Text

-- The first call of `resolve` or `reject` counts.
abbrev settle_first : Settled → Settled → Settled
settle_first pending o = o
settle_first s o = s

unfoldable pub settle : Reader → Settled → Reader
settle r o = record r { settled = settle_first r.settled o }

-- A `TypeError` in the callback: the promise chain of the read calls `reject`.
abbrev throw : Reader → Reader
throw r = record (settle r (rejected (failed none))) { stopped = true }

unfoldable pub on_meta : Reader → Payload → Reader
unfolding save_conversation
on_meta r d = record r {
  conversation = save_conversation (record r.conversation {
    id = if is_empty d.conversation_id then r.conversation.id else d.conversation_id;
    token = if is_empty d.conversation_token then r.conversation.token else d.conversation_token;
  });
}

unfoldable pub on_token : Reader → Payload → Reader
unfolding ensure_paint
on_token r d = record r {
  stream = ensure_paint (record r.stream {
    streamed = r.stream.streamed ++ d.token;
    first_token = true;
    has_els = r.stream.has_els || not r.stream.first_token;
  });
}

unfoldable pub on_done : Reader → Option Payload → Reader
unfolding ensure_paint
on_done r d = record r {
  stream = ensure_paint (record r.stream { finish_meta = d; closed = true });
}

unfoldable pub on_error : Reader → Payload → Reader
unfolding settle
on_error r d = settle r (rejected (failed (some (said_or d.message stream_broken))))

unfoldable pub dispatch : Text → Parsed → Reader → Reader
unfolding on_meta on_token on_done on_error settle
dispatch name malformed r = r
dispatch name null_value r =
    if eq_text name (text "done")
    then on_done r none
    else if eq_text name (text "meta") || eq_text name (text "token") || eq_text name (text "error")
    then throw r
    else r
dispatch name (value d) r =
    if eq_text name (text "meta")
    then on_meta r d
    else if eq_text name (text "token")
    then on_token r d
    else if eq_text name (text "done")
    then on_done r (some d)
    else if eq_text name (text "error")
    then on_error r d
    else r

module _ (parse_json : Text → Parsed) where
  unfoldable pub deliver : Reader → SseEvent → Reader
  unfolding dispatch
  deliver r e = if r.stopped then r else dispatch e.name (parse_json e.payload) r

  unfoldable pub deliver_all : Reader → List SseEvent → Reader
  unfolding deliver
  deliver_all r [] = r
  deliver_all r (e ∷ es) = deliver_all (deliver r e) es

  -- The callback of `reader.read()` on a chunk that is not the last.
  unfoldable pub on_chunk : Reader → Text → Reader
  unfolding deliver_all feed parse_frames
  on_chunk r chunk =
      let (raws, rest) = feed r.buffer chunk in
      if r.stopped then r else deliver_all (record r { buffer = rest }) (parse_frames raws)

-- `chunk.done`.
unfoldable pub on_end : Reader → Reader
unfolding settle
on_end r = if r.stopped then r else settle r resolved

-- How `streamChat` goes on once the promise has settled.
pub data Ending : Type 0 where
  waiting typing call_backend nothing : Ending
  direct : Payload → Text → Ending
  kept_partial : Ending
  throws : Option Notice → Ending

abbrev direct_answer : Payload → Text
direct_answer d = if is_empty d.answer then d.message else d.answer

-- No text came: show the final message of the server, or ask again without streaming.
unfoldable pub end_empty : Option Payload → Ending
end_empty none = call_backend
end_empty (some d) =
    if d.quota_locked || not (is_empty d.answer) then direct d (direct_answer d) else call_backend

abbrev pub ellipsis : Text
ellipsis = text " …"

unfoldable pub after : Settled → Stream → Stream × Ending
unfolding ensure_paint end_empty answer_result text
after pending s = (s, waiting)
after resolved s =
    if s.has_els && not (is_empty s.streamed)
    then (ensure_paint (record s { closed = true }), typing)
    else if is_empty s.streamed
    then (s, end_empty s.finish_meta)
    else (s, nothing)
after (rejected aborted) s =
    let t = record s { raf = false } in
    if not (is_empty s.streamed) && s.has_els
    then (answer_result t (s.streamed ++ ellipsis), kept_partial)
    else (t, throws (some timed_out))
after (rejected (failed message)) s = (record s { raf = false }, throws message)
