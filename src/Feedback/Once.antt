-- ===== src/Feedback/Once.antt =====
-- A toolbar sends one vote, the first, whatever else is clicked.
use website_ai_assistant.Prelude.{
  Bool, true, false, List, [], ◌∷◌, ◌++◌, some, append-nil, ◌≡◌, refl, ap, ◌∙◌, arith, is_empty,
  if◌then◌else◌,
}
use website_ai_assistant.Text.{Text, trim}
use website_ai_assistant.Feedback.{
  vote, Button, copy, helpful, not_helpful, Toolbar, Vote, Desk, vote_body, send_feedback,
  handle_feedback, end_copied,
}

-- What can happen to a toolbar: a click, with the bubble's text, the end of a copy's timer, or the
-- widget gets other ids of the conversation.
pub data Act : Type 0 where
  clicks : Button → Text → Act
  settles : Act
  joins : (id token : Text) → Act

unfoldable pub act : Act → Toolbar × Desk → Toolbar × Desk
unfolding handle_feedback end_copied
act (clicks b s) (t, d) = handle_feedback b s t d
act settles (t, d) = (end_copied t, d)
act (joins id token) (t, d) = (t, record d { conversation_id = id; conversation_token = token })

unfoldable pub act_all : List Act → Toolbar × Desk → Toolbar × Desk
unfolding act
act_all [] w = w
act_all (a ∷ as_) w = act_all as_ (act a w)

-- The first vote, with the ids of the conversation at its time; toolbar and widget go on as they
-- would without a vote.
unfoldable pub first_vote : List Act → Toolbar → Desk → List Vote
first_vote [] t d = []
first_vote (clicks copy s ∷ as_) t d =
    first_vote as_ (record t { copied = true }) (record d { clipboard = some (trim s) })
first_vote (clicks helpful s ∷ as_) t d = vote_body true t d ∷ []
first_vote (clicks not_helpful s ∷ as_) t d = vote_body false t d ∷ []
first_vote (settles ∷ as_) t d = first_vote as_ (record t { copied = false }) d
first_vote (joins id token ∷ as_) t d =
    first_vote as_ t (record d { conversation_id = id; conversation_token = token })

vote_sent : (b : Button) (h : Bool) (t : Toolbar) (d : Desk) → t.sent ≡ true → vote b h t d ≡ (t, d)
vote_sent b h t d e = ground arith

vote_unsent :
    (b : Button) (h : Bool) (t : Toolbar) (d : Desk)
    → t.sent ≡ false
    → vote b h t d
      ≡ (record t { active = some b; disabled = true; sent = true }, send_feedback h t d)
vote_unsent b h t d e = ground arith

-- Once a vote is sent no further one is.
after_vote :
    (as_ : List Act) (t : Toolbar) (d : Desk)
    → t.sent ≡ true
    → (act_all as_ (t, d)).1.votes ≡ d.votes
unfolding act_all act handle_feedback end_copied
after_vote [] t d e = refl
after_vote (clicks copy s ∷ as_) t d e = after_vote as_ _ _ e
after_vote (clicks helpful s ∷ as_) t d e =
    ap (λ p. (act_all as_ p).1.votes) (vote_sent helpful true t d e) ∙ after_vote as_ t d e
after_vote (clicks not_helpful s ∷ as_) t d e =
    ap (λ p. (act_all as_ p).1.votes) (vote_sent not_helpful false t d e) ∙ after_vote as_ t d e
after_vote (settles ∷ as_) t d e = after_vote as_ _ _ e
after_vote (joins id token ∷ as_) t d e = after_vote as_ _ _ e

abbrev pub if_told : Desk → List Vote → List Vote
if_told d vs = if is_empty d.feedback_endpoint then [] else vs

send_feedback-votes :
    (h : Bool) (t : Toolbar) (d : Desk)
    → (send_feedback h t d).votes ≡ d.votes ++ if_told d (vote_body h t d ∷ [])
unfolding send_feedback
send_feedback-votes h t d = ground (arith, append-nil d.votes)

voted :
    (b : Button) (h : Bool) (as_ : List Act) (t : Toolbar) (d : Desk)
    → t.sent ≡ false
    → (act_all as_ (vote b h t d)).1.votes ≡ d.votes ++ if_told d (vote_body h t d ∷ [])
voted b h as_ t d e =
    ap (λ p. (act_all as_ p).1.votes) (vote_unsent b h t d e)
    ∙ after_vote as_ _ (send_feedback h t d) refl
    ∙ send_feedback-votes h t d

-- Whatever is clicked on the toolbar of an answer, however often and in whichever order, and even if
-- the conversation gets other ids in between: where the site has a feedback endpoint, the requests
-- sent are just the first vote with the ids of its time, if there was a vote, and otherwise none.
pub act_all-votes :
    (as_ : List Act) (t : Toolbar) (d : Desk)
    → t.sent ≡ false
    → (act_all as_ (t, d)).1.votes ≡ d.votes ++ if_told d (first_vote as_ t d)
unfolding act_all act handle_feedback end_copied first_vote
act_all-votes [] t d e = ground (arith, append-nil d.votes)
act_all-votes (clicks copy s ∷ as_) t d e = act_all-votes as_ _ _ e
act_all-votes (clicks helpful s ∷ as_) t d e = voted helpful true as_ t d e
act_all-votes (clicks not_helpful s ∷ as_) t d e = voted not_helpful false as_ t d e
act_all-votes (settles ∷ as_) t d e = act_all-votes as_ _ _ e
act_all-votes (joins id token ∷ as_) t d e = act_all-votes as_ _ _ e
