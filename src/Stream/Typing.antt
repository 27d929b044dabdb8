-- ===== src/Stream/Typing.antt =====
-- The typewriter: its invariant, and that it paints the whole answer and finishes once.
use website_ai_assistant.Prelude.{
  ℕ, zero, suc, ◌+◌, ◌*◌, ◌⊎◌, ◌≤◌, ◌<◌, true, false, ◌||◌, [], ◌∷◌, ◌++◌, ltb, length, take,
  is_empty, arith, ◌≡◌, refl, sym, ap, ◌∙◌, Bool-cases, inl, inr,
}
use mathlib.Core.Path.{subst, ap₂}
use website_ai_assistant.Text.{Text}
use website_ai_assistant.Stream.{
  Stream, initial, answer_result, finish_up, advance, paint_step, frame, frames,
}

-- What is left to paint, or the end of the response, waits on a frame that is requested.
pub record IsLive (s : Stream) : Type 0 where
  pub shown_le : s.shown ≤ length s.streamed
  pub painted_is : s.finished ≡ false → s.painted ≡ take s.shown s.streamed
  pub row_exists : is_empty s.streamed ≡ false → s.has_els ≡ true
  pub row_once : s.has_els ≡ s.first_token
  pub wakes :
      s.has_els ≡ true
      → s.finished ≡ false
      → (ltb s.shown (length s.streamed) || s.closed) ≡ true
      → s.raf ≡ true
  pub unfinished : s.finished ≡ false → s.results ≡ []
  pub finished_once : s.finished ≡ true → length s.results ≡ 1

pub initial-IsLive : IsLive initial
initial-IsLive = ground arith

pub take-append : (n : ℕ) (xs ys : Text) → n ≤ length xs → take n (xs ++ ys) ≡ take n xs
take-append zero xs ys h = refl
take-append (suc n) [] ys h = absurd (omega arith)
take-append (suc n) (x ∷ xs) ys h = ap (◌∷◌ x) (take-append n xs ys (omega arith))

pub paint_step-IsLive : (s : Stream) → IsLive s → IsLive (paint_step s)
unfolding paint_step finish_up advance answer_result
paint_step-IsLive s l = ground arith

pub frame-IsLive : (s : Stream) → IsLive s → IsLive (frame s)
unfolding frame
frame-IsLive s l = ground (arith, paint_step-IsLive s l)

pub frames-IsLive : (n : ℕ) (s : Stream) → IsLive s → IsLive (frames n s)
unfolding frames
frames-IsLive zero s l = l
frames-IsLive (suc n) s l = frames-IsLive n (frame s) (frame-IsLive s l)

frame_idle : (s : Stream) → s.raf ≡ false → frame s ≡ s
unfolding frame
frame_idle s h = ground arith

frames_idle : (n : ℕ) (s : Stream) → s.raf ≡ false → frames n s ≡ s
unfolding frames
frames_idle zero s h = refl
frames_idle (suc n) s h = ap (frames n) (frame_idle s h) ∙ frames_idle n s h

-- A painted answer whose typing is over: the bubble shows all of it, and it was handed on once.
pub record IsTyped (s t : Stream) : Type 0 where
  pub over : t.finished ≡ true
  pub painted : t.painted ≡ s.streamed
  pub handed : t.results ≡ (s.streamed, s.finish_meta) ∷ []

-- A stream that only the typewriter still works on.
pub record IsClosing (s : Stream) : Type 0 where
  pub live : IsLive s
  pub row : s.has_els ≡ true
  pub closed : s.closed ≡ true
  pub unfinished : s.finished ≡ false

record Advances (s t : Stream) : Type 0 where
  closing : IsClosing t
  same_text : t.streamed ≡ s.streamed
  same_meta : t.finish_meta ≡ s.finish_meta
  nearer : (s.shown + 2 ≤ t.shown) ⊎ (length s.streamed ≤ t.shown)

frame-Advances : (s : Stream) → IsClosing s → s.shown < length s.streamed → Advances s (frame s)
frame-Advances s c h = record {
  closing = record {
    live = frame-IsLive s c.live;
    row = unfold frame paint_step advance in ground arith;
    closed = unfold frame paint_step advance in ground arith;
    unfinished = unfold frame paint_step advance in ground arith;
  };
  same_text = unfold frame paint_step advance in ground arith;
  same_meta = unfold frame paint_step advance in ground arith;
  nearer = unfold frame paint_step advance in ground arith;
}

frame-IsTyped :
    (s : Stream)
    → IsClosing s
    → length s.streamed ≤ s.shown
    → IsTyped s (frame s) × ((frame s).raf ≡ false)
unfolding frame paint_step finish_up answer_result
frame-IsTyped s c h = ground arith

IsTyped-Advances : {s t u : Stream} → Advances s t → IsTyped t u → IsTyped s u
IsTyped-Advances a u = record {
  over = u.over;
  painted = u.painted ∙ a.same_text;
  handed = u.handed ∙ ap₂ (λ x y. (x, y) ∷ []) a.same_text a.same_meta;
}

frame-fuel :
    {k m i j : ℕ} (n : ℕ)
    → i < k
    → k + 1 < i + 2 * suc n
    → (i + 2 ≤ j) ⊎ (k ≤ j)
    → m ≡ k
    → m + 1 < j + 2 * n
frame-fuel n p h near e = omega arith

-- Once the response is over, the typewriter ends: each frame paints at least two more characters,
-- one more frame finishes, and then the bubble shows the whole answer, handed on exactly once.
pub frames-IsTyped :
    (n : ℕ) (s : Stream)
    → IsClosing s
    → length s.streamed + 1 < s.shown + 2 * n
    → IsTyped s (frames n s)
unfolding frames
frames-IsTyped zero s c h = absurd (ground (arith, c.live.shown_le))
frames-IsTyped (suc n) s c h = elim (Bool-cases (ltb s.shown (length s.streamed))) [
  | inl more ↦
      let a = frame-Advances s c (ground arith) in
      IsTyped-Advances a (
        frames-IsTyped n (frame s) a.closing
          (frame-fuel n (ground arith) h a.nearer (ap length a.same_text)))
  | inr all ↦
      let (t, quiet) = frame-IsTyped s c (ground arith) in
      subst (IsTyped s) (sym (frames_idle n (frame s) quiet)) t
]
