-- ===== src/Stubs.antt =====
-- The painters of the tests (scripts/smoke_decor.py, scripts/smoke_region_painter.py): the loop that
-- reads frames from a buffered stdin, which delivers all that is asked for unless it ends.
pub mod Panels
pub mod Bar
pub mod Answers
use hexe.Prelude.{
  ℕ, zero, suc, Bool, true, false, Option, none, some, List, [], ◌∷◌, ◌++◌, ltb, if◌then◌else◌,
  length, take, drop,
}
use hexe.Wire.{Bytes, unpack, frame_bytes}

-- `head = read(4) ... body = read(need)`: the body and what is left of stdin, or nothing where
-- either read is short.
unfoldable pub read_frame : Bytes → Option (Bytes × Bytes)
unfolding unpack
read_frame stdin =
    let head = take 4 stdin in
    let rest = drop 4 stdin in
    let need = unpack head in
    if ltb (length head) 4
    then none
    else if ltb (length (take need rest)) need
    then none
    else some (take need rest, drop need rest)

-- How the program ends; `running` means that the fuel ran out.
pub data Ended (S : Type 0) : Type 0 where
  stopped : S → List Bytes → Ended S
  crashed : S → List Bytes → Ended S
  running : Ended S

-- What a request makes of the painter's state, and the answer's body where there is one; nothing
-- where the program dies of an exception.
abbrev pub Handler : Type 0 → Type 0
Handler S = S → Bytes → Option (S × Option Bytes)

module _ {S : Type 0} where
  -- `struct.pack` raises where the answer is too long.
  unfoldable pub write_answer : (S → List Bytes → Ended S) → S → List Bytes → Option Bytes → Ended S
  write_answer k s out none = crashed s out
  write_answer k s out (some frame) = k s (out ++ frame ∷ [])

  unfoldable pub on_handled :
      (S → List Bytes → Ended S) → S → List Bytes → Option (S × Option Bytes) → Ended S
  unfolding write_answer frame_bytes
  on_handled k s out none = crashed s out
  on_handled k s out (some (t, none)) = k t out
  on_handled k s out (some (t, some body)) = write_answer k t out (frame_bytes body)

  on_read : (Bytes → Bytes → Ended S) → S → List Bytes → Option (Bytes × Bytes) → Ended S
  on_read k s out none = stopped s out
  on_read k s out (some (body, rest)) = k body rest

  -- `while True`, with the frames written so far.
  unfoldable pub serve : Handler S → ℕ → Bytes → S → List Bytes → Ended S
  unfolding read_frame on_handled on_read
  serve handle zero stdin s out = running
  serve handle (suc fuel) stdin s out =
      on_read (λ body rest. on_handled (serve handle fuel rest) s out (handle s body)) s out
        (read_frame stdin)
