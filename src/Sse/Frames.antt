-- ===== src/Sse/Frames.antt =====
-- The frames do not depend on how the response is cut into chunks.
use website_ai_assistant.Prelude.{
  ℕ, Bool, true, false, ◌&&◌, List, [], ◌∷◌, ◌++◌, append-nil, append_assoc, ◌≡◌, refl, sym, ap,
  ◌∙◌, ◌==◌, Bool-cases, inl, inr,
}
use website_ai_assistant.Text.{Text}
use website_ai_assistant.Sse.{Split, push_head, push_frame, split_frames, feed, feed_all}

-- Further frames behind those of a split.
abbrev pub then_split : List Text → Split → Split
then_split fs (gs, r) = (fs ++ gs, r)

abbrev ends_here : ℕ → ℕ → Bool
ends_here c d = c == b'\n' && d == b'\n'

split_frames-push_head :
    (c d : ℕ) (s : Text)
    → ends_here c d ≡ false
    → split_frames (c ∷ d ∷ s) ≡ push_head c (split_frames (d ∷ s))
unfolding split_frames
split_frames-push_head c d s e = rw e

split_frames-push_frame :
    (c d : ℕ) (s : Text)
    → ends_here c d ≡ true
    → split_frames (c ∷ d ∷ s) ≡ push_frame [] (split_frames s)
unfolding split_frames
split_frames-push_frame c d s e = rw e

push_head-rest :
    (c : ℕ) {s : Text} (p : Split)
    → (p.0 ≡ [] → p.1 ≡ s)
    → (push_head c p).0 ≡ []
    → (push_head c p).1 ≡ c ∷ s
push_head-rest c ([], r) h e = ap (◌∷◌ c) (h refl)
push_head-rest c (f ∷ fs, r) h e = cc

-- With no complete frame the rest is the whole input.
split_frames-rest : (s : Text) → (split_frames s).0 ≡ [] → (split_frames s).1 ≡ s
split_frames-rest [] = λ h. unfold split_frames in refl
split_frames-rest (c ∷ []) = λ h. unfold split_frames in refl
split_frames-rest (c ∷ d ∷ s) = elim (Bool-cases (ends_here c d)) [
  | inl e ↦ rw (split_frames-push_frame c d s e) (λ h. cc)
  | inr e ↦
      rw (split_frames-push_head c d s e)
        (push_head-rest c (split_frames (d ∷ s)) (split_frames-rest (d ∷ s)))
]

push_head-append :
    (c d : ℕ) (s y : Text) (p : Split)
    → ends_here c d ≡ false
    → (p.0 ≡ [] → p.1 ≡ d ∷ s)
    → split_frames (d ∷ s ++ y) ≡ then_split p.0 (split_frames (p.1 ++ y))
    → push_head c (split_frames (d ∷ s ++ y))
      ≡ then_split (push_head c p).0 (split_frames ((push_head c p).1 ++ y))
push_head-append c d s y ([], r) e h ih = rw (h refl) (sym (split_frames-push_head c d (s ++ y) e))
push_head-append c d s y (f ∷ fs, r) e h ih = rw ih

-- More input only adds frames behind those that are complete.
split_frames-append :
    (x y : Text)
    → split_frames (x ++ y) ≡ then_split (split_frames x).0 (split_frames ((split_frames x).1 ++ y))
split_frames-append [] y = unfold split_frames in refl
split_frames-append (c ∷ []) y = unfold split_frames in refl
split_frames-append (c ∷ d ∷ s) y = elim (Bool-cases (ends_here c d)) [
  | inl e ↦
      rw (split_frames-push_frame c d s e, split_frames-push_frame c d (s ++ y) e)
        (ap (push_frame []) (split_frames-append s y))
  | inr e ↦
      rw (split_frames-push_head c d s e, split_frames-push_head c d (s ++ y) e)
        (push_head-append c d s y (split_frames (d ∷ s)) e (split_frames-rest (d ∷ s))
          (split_frames-append (d ∷ s) y))
]

push_head_idem :
    (c d : ℕ) (s : Text) (p : Split)
    → ends_here c d ≡ false
    → (p.0 ≡ [] → p.1 ≡ d ∷ s)
    → split_frames p.1 ≡ ([], p.1)
    → split_frames (push_head c p).1 ≡ ([], (push_head c p).1)
push_head_idem c d s ([], r) e h ih =
    rw (h refl) (split_frames-push_head c d s e ∙ ap (push_head c) (rw (h refl) at ih))
push_head_idem c d s (f ∷ fs, r) e h ih = ih

-- The rest of a split has no complete frame.
split_frames_idem : (s : Text) → split_frames (split_frames s).1 ≡ ([], (split_frames s).1)
split_frames_idem [] = unfold split_frames in refl
split_frames_idem (c ∷ []) = unfold split_frames in refl
split_frames_idem (c ∷ d ∷ s) = elim (Bool-cases (ends_here c d)) [
  | inl e ↦ rw (split_frames-push_frame c d s e) (split_frames_idem s)
  | inr e ↦ rw (split_frames-push_head c d s e) (
      push_head_idem c d s (split_frames (d ∷ s)) e (split_frames-rest (d ∷ s))
        (split_frames_idem (d ∷ s)))
]

-- What the chunks hold together.
abbrev pub joined : List Text → Text
joined [] = []
joined (x ∷ xs) = x ++ joined xs

feed_all_step :
    (buffer x : Text) (xs : List Text)
    → feed_all buffer (x ∷ xs)
      ≡ then_split (split_frames (buffer ++ x)).0 (feed_all (split_frames (buffer ++ x)).1 xs)
unfolding feed_all feed
feed_all_step buffer x xs = refl

-- Reading a response chunk by chunk, from a buffer with no complete frame, gives the frames and
-- the rest of the whole response, wherever it is cut.
pub feed_all-joined :
    (buffer : Text) (chunks : List Text)
    → split_frames buffer ≡ ([], buffer)
    → feed_all buffer chunks ≡ split_frames (buffer ++ joined chunks)
feed_all-joined buffer [] h = unfold feed_all in rw (append-nil, h)
feed_all-joined buffer (x ∷ xs) h =
    feed_all_step buffer x xs
    ∙ ap (then_split (split_frames (buffer ++ x)).0)
        (feed_all-joined (split_frames (buffer ++ x)).1 xs (split_frames_idem (buffer ++ x)))
    ∙ sym (split_frames-append (buffer ++ x) (joined xs))
    ∙ ap split_frames (append_assoc buffer x (joined xs))
