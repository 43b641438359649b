-- ===== src/Stretch/Demo.antt =====
-- scripts/demo_stretch.py: `supported`, which asks the terminal, and `main`, which draws the shapes.
use hexe.Prelude.{
  ℕ, ◌≡◌, refl, sym, ap, ◌∙◌, Bool, true, false, List, [], ◌∷◌, ◌++◌, append_assoc, append-nil,
  Text, codes, ends_with, if◌then◌else◌, if-false,
}
use hexe.Film.{contains}
use hexe.Stretch.{Part, content, fill, stretch, fixed}

abbrev Bytes : Type 0
Bytes = List ℕ

-- The loop of `supported`: the reads until nothing comes within the timeout.
unfoldable pub reply_of : Bytes → List Bytes → Bytes
unfolding ends_with
reply_of reply [] = reply
reply_of reply (r ∷ rs) =
    let more = reply_of (reply ++ r) rs in
    if ends_with (reply ++ r) (0x1b ∷ b'\\' ∷ []) then reply ++ r else more

-- `supported()`, on a terminal or not, with what it answers.
unfoldable pub supported : Bool → List Bytes → Bool
unfolding reply_of contains
supported false reads = false
supported true reads = contains (codes "1332;have;1") (reply_of [] reads)

-- `SHAPES`
abbrev pub shapes : List (Text × List Part)
shapes =
    (codes "content, then fill", content (codes "---[ ls ]") ∷ fill (codes "-") ∷ [])
    ∷ (codes "fill, then content", fill (codes "-") ∷ content (codes "[ 18:50:59 ]---") ∷ [])
    ∷ (
      codes "content, fill, content",
      content (codes "---[ ls ]") ∷ fill (codes "-") ∷ content (codes "[ 18:50:59 ]---") ∷ [],
    )
    ∷ (
      codes "content, fill, content, fill, content",
      content (codes "[ left ]")
          ∷ fill (codes "-")
          ∷ content (codes "[ middle ]")
          ∷ fill (codes "=")
          ∷ content (codes "[ right ]")
          ∷ [],
    )
    ∷ (
      codes "a box-drawing pattern",
      content (codes "┤ build ├") ∷ fill (codes "─╌") ∷ content (codes "┤ ok ├") ∷ [],
    )
    ∷ (
      codes "right-aligned with a space fill",
      fill (codes " ") ∷ content (codes "right edge") ∷ [],
    )
    ∷ []

-- `stretch(*parts) if live else fixed(*parts, width=width)`
unfoldable pub shape_line : Bool → ℕ → List Part → Text
unfolding stretch fixed
shape_line live width parts = if live then stretch parts else fixed parts width

unfoldable pub shape_lines : Bool → ℕ → List (Text × List Part) → List Text
unfolding shape_line
shape_lines live width [] = []
shape_lines live width ((label, parts) ∷ more) =
    [] ∷ label ∷ shape_line live width parts ∷ shape_lines live width more

heading : Bool → Text
heading live =
    codes "OSC 1332 "
    ++ (if live
        then codes "supported: lines follow the pane width"
        else codes "not supported: fixed width")

-- `main`: the lines that it prints, by the terminal's answer and its width.
unfoldable pub main : Bool → List Bytes → ℕ → List Text
unfolding supported shape_lines heading
main tty reads width =
    let live = supported tty reads in heading live ∷ shape_lines live width shapes

-- No part of the answer before the last read ends like a whole one.
abbrev pub IsUnended : Bytes → List Bytes → Type 0
IsUnended reply [] = Unit
IsUnended reply (r ∷ []) = Unit
IsUnended reply (r ∷ s ∷ rs) =
    (ends_with (reply ++ r) (0x1b ∷ b'\\' ∷ []) ≡ false) × IsUnended (reply ++ r) (s ∷ rs)

abbrev pub concat : List Bytes → Bytes
concat [] = []
concat (r ∷ rs) = r ++ concat rs

reply_of-concat :
    (reply : Bytes) (rs : List Bytes) → IsUnended reply rs → reply_of reply rs ≡ reply ++ concat rs
unfolding reply_of
reply_of-concat reply [] h = sym (append-nil reply)
reply_of-concat reply (r ∷ []) h =
    same (ends_with (reply ++ r) (0x1b ∷ b'\\' ∷ [])) ∙ ap (λ s. reply ++ s) (sym (append-nil r))
  where
    same : (b : Bool) → (if b then reply ++ r else reply ++ r) ≡ reply ++ r
    same true = refl
    same false = refl
reply_of-concat reply (r ∷ s ∷ rs) (open_, h) =
    if-false (ends_with (reply ++ r) (0x1b ∷ b'\\' ∷ [])) _ _ open_
    ∙ reply_of-concat (reply ++ r) (s ∷ rs) h
    ∙ append_assoc reply r (concat (s ∷ rs))

-- The answer is read whole, however the reads divide it.
pub supported-concat :
    (rs : List Bytes)
    → IsUnended [] rs
    → supported true rs ≡ contains (codes "1332;have;1") (concat rs)
unfolding supported
supported-concat rs h = ap (contains (codes "1332;have;1")) (reply_of-concat [] rs h)
