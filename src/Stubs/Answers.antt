-- ===== src/Stubs/Answers.antt =====
-- The loop of the tests' painters on the frames that hexe sends.
use hexe.Prelude.{
  ℕ, zero, suc, ◌<◌, ◌≡◌, refl, ap, ◌∙◌, Option, none, some, List, [], ◌∷◌, ◌++◌, append_assoc,
  arith, ltb, if-false, length, take, drop, take-length-append, drop-length-append,
}
use hexe.Wire.{Bytes, frame_bytes}
use hexe.Wire.Frames.{framed}
use hexe.Stubs.{Handler, Ended, stopped, read_frame, on_handled, write_answer, serve}

-- A stdin that holds the frames of these bodies, and then less than a whole one.
pub data Frames : List Bytes → Bytes → Type 0 where
  cut : (tail : Bytes) → read_frame tail ≡ none → Frames [] tail
  whole :
      (body bytes : Bytes) (bodies : List Bytes) (rest : Bytes)
      → frame_bytes body ≡ some bytes
      → Frames bodies rest
      → Frames (body ∷ bodies) (bytes ++ rest)

-- Each whole frame is read as its body, with nothing of what follows it.
pub read_frame-frame_bytes :
    (body bytes rest : Bytes)
    → frame_bytes body ≡ some bytes
    → read_frame (bytes ++ rest) ≡ some (body, rest)
unfolding read_frame
read_frame-frame_bytes body bytes rest h =
    let (hdr, is) = framed body bytes h in
    let all : bytes ++ rest ≡ hdr ++ (body ++ rest) =
      ap (λ t. t ++ rest) is.joined ∙ append_assoc hdr body rest in
    let head : take 4 (hdr ++ (body ++ rest)) ≡ hdr =
      rw (← is.four) (take-length-append hdr (body ++ rest)) in
    let later : drop 4 (hdr ++ (body ++ rest)) ≡ body ++ rest =
      rw (← is.four) (drop-length-append hdr (body ++ rest)) in
    rw
      (
        all,
        head,
        later,
        is.count,
        is.four,
        take-length-append body rest,
        drop-length-append body rest,
      )
      (if-false (ltb (length body) (length body)) _ _ (ground arith))

module _ {S : Type 0} (handle : Handler S) where
  -- What the painter does with each request in turn.
  abbrev pub answered : List Bytes → S → List Bytes → Ended S
  answered [] s out = stopped s out
  answered (body ∷ bodies) s out = on_handled (answered bodies) s out (handle s body)

  on_handled-same :
      (j k : S → List Bytes → Ended S) (s : S) (out : List Bytes) (r : Option (S × Option Bytes))
      → ((t : S) (more : List Bytes) → j t more ≡ k t more)
      → on_handled j s out r ≡ on_handled k s out r
  unfolding on_handled write_answer
  on_handled-same j k s out none e = refl
  on_handled-same j k s out (some (t, none)) e = e t out
  on_handled-same j k s out (some (t, some body)) e = written (frame_bytes body)
    where
      written : (o : Option Bytes) → write_answer j t out o ≡ write_answer k t out o
      written none = refl
      written (some bytes) = e t (out ++ bytes ∷ [])

  -- The loop ends, with enough fuel, and has taken each frame for one request, in order.
  pub serve-answered :
      (bodies : List Bytes) (stdin : Bytes) (fuel : ℕ) (s : S) (out : List Bytes)
      → Frames bodies stdin
      → length bodies < fuel
      → serve handle fuel stdin s out ≡ answered bodies s out
  unfolding serve
  serve-answered bodies stdin zero s out f h = absurd (omega arith)
  serve-answered _ _ (suc fuel) s out (cut tail short) h = rw short refl
  serve-answered _ _ (suc fuel) s out (whole body bytes bodies rest fits f) h =
      rw (read_frame-frame_bytes body bytes rest fits) (
        on_handled-same (serve handle fuel rest) (answered bodies) s out (handle s body)
          (λ t more. serve-answered bodies rest fuel t more f (omega (arith, h))))
