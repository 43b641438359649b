-- ===== src/Decor/Sizes.antt =====
-- The size of the screen and the place of its cursor, under each operation on the grid.
use mathlib.Core.Option.{some-injective}
use hexe.Prelude.{
  sym, ℕ, zero, suc, ◌+◌, ◌-◌, ◌<◌, ◌≡◌, refl, ap, ◌∙◌, min, Bool, true, false, ◌&&◌, ◌||◌, Option,
  none, some, List, [], ◌∷◌, Text, arith, length, length-set, set, get_elem?, ltb, leb, ◌==◌,
  if◌then◌else◌, Bool-cases, inl, inr,
}
use hexe.Decor.{Screen, clear_cells, clear_rows, clear_region, write_row, put, put_all}
use hexe.Decor.Feed.{is_private, first_or, numbers, move, erase_display, erase_line, csi}

abbrev pub Rows : ℕ → List Text → Type 0
Rows cols [] = Unit
Rows cols (row ∷ grid) = (length row ≡ cols) × Rows cols grid

-- A screen of a size, with its cursor on it.
pub record IsScreen (rows cols : ℕ) (s : Screen) : Type 0 where
  pub rows_are : s.rows ≡ rows
  pub cols_are : s.cols ≡ cols
  pub height : length s.grid ≡ rows
  pub widths : Rows cols s.grid
  pub row_on : s.cy < rows
  pub col_on : s.cx < cols

length-clear_cells : (xs xe i : ℕ) (row : Text) → length (clear_cells xs xe i row) ≡ length row
unfolding clear_cells
length-clear_cells xs xe i [] = refl
length-clear_cells xs xe i (c ∷ row) = ap suc (length-clear_cells xs xe (suc i) row)

length-clear_rows :
    (y0 x0 y1 x1 cols y : ℕ) (grid : List Text)
    → length (clear_rows y0 x0 y1 x1 cols y grid) ≡ length grid
unfolding clear_rows
length-clear_rows y0 x0 y1 x1 cols y [] = refl
length-clear_rows y0 x0 y1 x1 cols y (row ∷ grid) =
    ap suc (length-clear_rows y0 x0 y1 x1 cols (suc y) grid)

clear_rows-Rows :
    (y0 x0 y1 x1 cols y n : ℕ) (grid : List Text)
    → Rows n grid
    → Rows n (clear_rows y0 x0 y1 x1 cols y grid)
unfolding clear_rows
clear_rows-Rows y0 x0 y1 x1 cols y n [] h = tt
clear_rows-Rows y0 x0 y1 x1 cols y n (row ∷ grid) h = (
  elim (Bool-cases (leb y0 y && leb y y1)) [
    | inl is ↦ rw is (length-clear_cells _ _ 0 row ∙ h.0)
    | inr isnt ↦ rw isnt h.0
  ],
  clear_rows-Rows y0 x0 y1 x1 cols (suc y) n grid h.1,
)

set-Rows :
    (n y : ℕ) (row : Text) (grid : List Text)
    → length row ≡ n
    → Rows n grid
    → Rows n (set grid y row)
set-Rows n y row [] e h = tt
set-Rows n zero row (r ∷ grid) e h = (e, h.1)
set-Rows n (suc y) row (r ∷ grid) e h = (h.0, set-Rows n y row grid e h.1)

get_elem?-Rows :
    (n y : ℕ) (grid : List Text) (row : Text)
    → Rows n grid
    → get_elem? grid y ≡ some row
    → length row ≡ n
get_elem?-Rows n y [] row h e = cc
get_elem?-Rows n zero (r ∷ grid) row h e = sym (ap length (some-injective r row e)) ∙ h.0
get_elem?-Rows n (suc y) (r ∷ grid) row h e = get_elem?-Rows n y grid row h.1 e

write_row-Rows :
    (n y x ch : ℕ) (grid : List Text) (o : Option Text)
    → get_elem? grid y ≡ o
    → Rows n grid
    → Rows n (write_row y x o grid ch)
write_row-Rows n y x ch grid none e h = h
write_row-Rows n y x ch grid (some row) e h =
    set-Rows n y (set row x ch) grid (length-set row x ch ∙ get_elem?-Rows n y grid row h e) h

length-write_row :
    (y x ch : ℕ) (grid : List Text) (o : Option Text)
    → length (write_row y x o grid ch) ≡ length grid
length-write_row y x ch grid none = refl
length-write_row y x ch grid (some row) = length-set grid y (set row x ch)

module _ (rows cols : ℕ) where
  clear_region-IsScreen :
      (y0 x0 y1 x1 : ℕ) (s : Screen)
      → IsScreen rows cols s
      → IsScreen rows cols (clear_region y0 x0 y1 x1 s)
  unfolding clear_region
  clear_region-IsScreen y0 x0 y1 x1 s h = record {
    rows_are = h.rows_are;
    cols_are = h.cols_are;
    height = length-clear_rows y0 x0 y1 x1 s.cols 0 s.grid ∙ h.height;
    widths = clear_rows-Rows y0 x0 y1 x1 s.cols 0 cols s.grid h.widths;
    row_on = h.row_on;
    col_on = h.col_on;
  }

  -- The cursor may be moved to a place on the screen.
  pub moved-IsScreen :
      (s : Screen) (y x : ℕ)
      → IsScreen rows cols s
      → y < rows
      → x < cols
      → IsScreen rows cols (record s { cy = y; cx = x })
  moved-IsScreen s y x h hy hx = record {
    rows_are = h.rows_are;
    cols_are = h.cols_are;
    height = h.height;
    widths = h.widths;
    row_on = hy;
    col_on = hx;
  }

  if-IsScreen :
      (b : Bool) (s t : Screen)
      → IsScreen rows cols s
      → IsScreen rows cols t
      → IsScreen rows cols (if b then s else t)
  if-IsScreen true s t h k = h
  if-IsScreen false s t h k = k

  -- The grid may be written to.
  written-IsScreen :
      (s : Screen) (ch : ℕ)
      → IsScreen rows cols s
      → IsScreen rows cols
          (record s { grid = write_row s.cy s.cx (get_elem? s.grid s.cy) s.grid ch })
  written-IsScreen s ch h = record {
    rows_are = h.rows_are;
    cols_are = h.cols_are;
    height = length-write_row s.cy s.cx ch s.grid (get_elem? s.grid s.cy) ∙ h.height;
    widths = write_row-Rows cols s.cy s.cx ch s.grid (get_elem? s.grid s.cy) refl h.widths;
    row_on = h.row_on;
    col_on = h.col_on;
  }

  pub line_down-on : (s : Screen) → IsScreen rows cols s → min (s.cy + 1) (s.rows - 1) < rows
  line_down-on s h = omega (arith, h.rows_are, h.row_on)

  advanced-IsScreen :
      (s : Screen)
      → IsScreen rows cols s
      → IsScreen rows cols (
          if leb s.cols (s.cx + 1)
          then record s { cx = 0; cy = min (s.cy + 1) (s.rows - 1) }
          else record s { cx = s.cx + 1 })
  advanced-IsScreen s h = elim (Bool-cases (leb s.cols (s.cx + 1))) [
    | inl is ↦ rw is (moved-IsScreen s _ 0 h (line_down-on s h) (omega (arith, h.col_on)))
    | inr isnt ↦ rw isnt (moved-IsScreen s s.cy (s.cx + 1) h h.row_on (ground (arith, h.cols_are)))
  ]

  put-IsScreen : (ch : ℕ) (s : Screen) → IsScreen rows cols s → IsScreen rows cols (put ch s)
  unfolding put
  put-IsScreen ch s h = elim (Bool-cases (ltb s.cy s.rows && ltb s.cx s.cols)) [
    | inl is ↦ rw is (
        advanced-IsScreen
          (record s { grid = write_row s.cy s.cx (get_elem? s.grid s.cy) s.grid ch })
          (written-IsScreen s ch h))
    | inr isnt ↦ rw isnt (advanced-IsScreen s h)
  ]

  pub put_all-IsScreen :
      (text : Text) (s : Screen) → IsScreen rows cols s → IsScreen rows cols (put_all text s)
  unfolding put_all
  put_all-IsScreen [] s h = h
  put_all-IsScreen (c ∷ text) s h = put_all-IsScreen text (put c s) (put-IsScreen c s h)

  move-IsScreen :
      (f : ℕ) (nums : List ℕ) (s : Screen)
      → IsScreen rows cols s
      → IsScreen rows cols (move f nums s)
  unfolding move
  move-IsScreen f nums s h =
      if-IsScreen (f == b'H' || f == b'f') _ _
        (moved-IsScreen s _ _ h (omega (arith, h.rows_are, h.row_on))
          (omega (arith, h.cols_are, h.col_on)))
        (if-IsScreen (f == b'A') _ _ (moved-IsScreen s _ s.cx h (omega (arith, h.row_on)) h.col_on)
          (if-IsScreen (f == b'B') _ _
            (moved-IsScreen s _ s.cx h (omega (arith, h.rows_are, h.row_on)) h.col_on)
            (if-IsScreen (f == b'C') _ _
              (moved-IsScreen s s.cy _ h h.row_on (omega (arith, h.cols_are, h.col_on)))
              (if-IsScreen (f == b'D') _ _
                (moved-IsScreen s s.cy _ h h.row_on (omega (arith, h.col_on)))
                (if-IsScreen (f == b'G') _ _
                  (moved-IsScreen s s.cy _ h h.row_on (omega (arith, h.cols_are, h.col_on))) h)))))

  pub csi-IsScreen :
      (params : Text) (f : ℕ) (s : Screen)
      → IsScreen rows cols s
      → IsScreen rows cols (csi params f s)
  unfolding csi erase_display erase_line
  csi-IsScreen params f s h = if-IsScreen (is_private params) _ _ h (
      if-IsScreen (f == b'J') _ _ (display (first_or 0 (numbers params))) (
        if-IsScreen (f == b'K') _ _ (line (first_or 0 (numbers params)))
          (move-IsScreen f (numbers params) s h)))
    where
      display : (mode : ℕ) → IsScreen rows cols (erase_display mode s)
      display mode = if-IsScreen (mode == 2 || mode == 3) _ _ (clear_region-IsScreen _ _ _ _ s h) (
          if-IsScreen (mode == 0) _ _ (clear_region-IsScreen _ _ _ _ s h)
            (if-IsScreen (mode == 1) _ _ (clear_region-IsScreen _ _ _ _ s h) h))

      line : (mode : ℕ) → IsScreen rows cols (erase_line mode s)
      line mode = if-IsScreen (mode == 0) _ _ (clear_region-IsScreen _ _ _ _ s h) (
          if-IsScreen (mode == 1) _ _ (clear_region-IsScreen _ _ _ _ s h)
            (if-IsScreen (mode == 2) _ _ (clear_region-IsScreen _ _ _ _ s h) h))
