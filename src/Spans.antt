-- ===== src/Spans.antt =====
-- scripts/smoke_stretch.py: how the test tells on the screen that a stretch line spans its width.
pub mod Fixed
pub mod Evenly
use hexe.Prelude.{
  ℕ, zero, suc, ◌+◌, ◌-◌, Bool, true, false, not, ◌&&◌, ◌||◌, Option, none, some, List, [], ◌∷◌,
  ◌++◌, Text, codes, rstrip, ends_with, find_at, and_then, ◌==◌, ltb, leb, if◌then◌else◌, length,
  take, drop,
}

-- A row with both markers, and where they are.
pub record Span : Type 0 where
  pub row : Text
  pub i : ℕ
  pub j : ℕ

in_order : Text → Option ℕ → Option ℕ → Option Span
in_order row (some i) (some j) = if ltb i j then some (record { row = row; i = i; j = j }) else none
in_order row _ _ = none

span_or : Option Span → Option Span → Option Span
span_or none other = other
span_or (some s) other = some s

-- `find(marker_a, marker_b)`, over the lines of the screen.
unfoldable pub find : Text → Text → List Text → Option Span
unfolding in_order span_or find_at
find a b [] = none
find a b (row ∷ rows) = span_or (in_order row (find_at a row) (find_at b row)) (find a b rows)

-- What `spans_width` asks of the span that it has found.
unfoldable pub reaches : ℕ → Text → Span → Option Span
unfolding ends_with
reaches cols b got =
    let row = rstrip got.row in
    if not (ends_with row b) || ltb (length row) (cols - 1) then none else some got

-- `spans_width(marker_a, marker_b)()`, on a terminal with this many columns.
unfoldable pub spans_width : ℕ → Text → Text → List Text → Option Span
unfolding find reaches
spans_width cols a b lines = and_then (find a b lines) (reaches cols b)

-- `row[i:j]`
abbrev pub slice : ℕ → ℕ → Text → Text
slice i j row = take (j - i) (drop i row)

-- `set(s) == {c}`
unfoldable pub only : ℕ → Text → Bool
only c [] = false
only c (d ∷ []) = d == c
only c (d ∷ e ∷ s) = d == c && only c (e ∷ s)

-- `len(gap) if gap and set(gap) == {"-"} else None`
unfoldable pub fill_of : Text → Option ℕ
unfolding only
fill_of gap = if only b'-' gap then some (length gap) else none

-- The check of `full_width`: the width of the fill.
unfoldable pub full_width : ℕ → List Text → Option ℕ
unfolding spans_width fill_of
full_width cols lines =
    and_then (spans_width cols (codes "STL") (codes "STR") lines)
      (λ got. fill_of (slice (got.i + 3) got.j got.row))

-- `abs(a - b) <= 1`
abbrev pub is_near : ℕ → ℕ → Bool
is_near a b = leb (a - b) 1 && leb (b - a) 1

unfoldable pub evenly : Text → Text → Option Bool
unfolding only
evenly left right =
    if not (only b'-' left) || not (only b'=' right)
    then none
    else some (is_near (length left) (length right))

-- The check of `two_fills`, whether the two fills share the width evenly.
unfoldable pub two_fills : ℕ → List Text → Option Bool
unfolding spans_width evenly find_at
two_fills cols lines = and_then (spans_width cols (codes "TLA") (codes "TRC") lines) (λ got.
    and_then (find_at (codes "TMB") got.row)
      (λ mid. evenly (slice (got.i + 3) mid got.row) (slice (mid + 3) got.j got.row)))

-- How a wait ends; `waiting` means that no further round was given.
pub data Waited (A : Type 0) : Type 0 where
  got : A → Waited A
  failed : Waited A
  waiting : Waited A

-- `wait_for(pred, timeout, what)`: each round with its clock, and what the check gives, nothing
-- where that counts as false.
unfoldable pub wait_for : {A : Type 0} → ℕ → List (ℕ × Option A) → Waited A
wait_for end [] = waiting
wait_for end ((now, none) ∷ rounds) = if ltb now end then wait_for end rounds else failed
wait_for end ((now, some a) ∷ rounds) = if ltb now end then got a else failed
