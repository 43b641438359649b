-- ===== src/Decor.antt =====
-- scripts/smoke_decor.py: the class `Screen`, which reconstructs what a frontend drew. The screen
-- has a row and a column at least. The text of a run of bytes is decoded in Decor/Decode.
pub mod Decode
pub mod Feed
pub mod Sizes
pub mod Streams
pub mod Ends
use hexe.Prelude.{
  ℕ, zero, suc, ◌+◌, ◌-◌, ◌<◌, min, max, Bool, true, false, not, ◌&&◌, ◌||◌, List, [], ◌∷◌, ◌++◌,
  Text, get_elem?, set, replicate, length, ltb, leb, ◌==◌, if◌then◌else◌, some, none, Option, join,
}
use hexe.Film.{Bytes}

-- `pending` holds the start of an escape sequence that the data has not ended yet.
pub record Screen : Type 0 where
  pub rows : ℕ
  pub cols : ℕ
  pub grid : List Text
  pub cy : ℕ
  pub cx : ℕ
  pub pending : Bytes

unfoldable pub new_screen : ℕ → ℕ → Screen
new_screen rows cols = record {
  rows = rows;
  cols = cols;
  grid = replicate rows (replicate cols b' ');
  cy = 0;
  cx = 0;
  pending = [];
}

-- The cells of a row from number `i` on: those from `xs` up to `xe` become blank.
unfoldable pub clear_cells : ℕ → ℕ → ℕ → Text → Text
clear_cells xs xe i [] = []
clear_cells xs xe i (c ∷ row) =
    (if leb xs i && leb i xe then b' ' else c) ∷ clear_cells xs xe (suc i) row

-- `_clear_region`, for the rows from number `y` on.
unfoldable pub clear_rows : ℕ → ℕ → ℕ → ℕ → ℕ → ℕ → List Text → List Text
unfolding clear_cells
clear_rows y0 x0 y1 x1 cols y [] = []
clear_rows y0 x0 y1 x1 cols y (row ∷ grid) =
    (if leb y0 y && leb y y1
      then clear_cells (if y == y0 then x0 else 0) (if y == y1 then x1 else cols - 1) 0 row
      else row)
    ∷ clear_rows y0 x0 y1 x1 cols (suc y) grid

unfoldable pub clear_region : ℕ → ℕ → ℕ → ℕ → Screen → Screen
unfolding clear_rows
clear_region y0 x0 y1 x1 s = record s { grid = clear_rows y0 x0 y1 x1 s.cols 0 s.grid }

-- `self.cy = min(self.cy + 1, self.rows - 1)`
abbrev pub line_down : Screen → Screen
line_down s = record s { cy = min (s.cy + 1) (s.rows - 1) }

abbrev pub write_row : ℕ → ℕ → Option Text → List Text → ℕ → List Text
write_row y x none grid ch = grid
write_row y x (some row) grid ch = set grid y (set row x ch)

-- One character, and the cursor's move behind it.
unfoldable pub put : ℕ → Screen → Screen
put ch s =
    let grid =
      if ltb s.cy s.rows && ltb s.cx s.cols
      then write_row s.cy s.cx (get_elem? s.grid s.cy) s.grid ch
      else s.grid in
    if leb s.cols (s.cx + 1)
    then record s { grid = grid; cx = 0; cy = min (s.cy + 1) (s.rows - 1) }
    else record s { grid = grid; cx = s.cx + 1 }

unfoldable pub put_all : Text → Screen → Screen
unfolding put
put_all [] s = s
put_all (c ∷ text) s = put_all text (put c s)

unfoldable pub text : Screen → Text
text s = join (10 ∷ []) s.grid
