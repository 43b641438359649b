-- ===== src/Frame.antt =====
-- scripts/demo/frame.py: the screen that a recording is replayed into.
pub mod Feed
pub mod Grid
pub mod Cursor
pub mod Total
pub mod Address
pub mod Replay
pub mod Writes
use hexe.Prelude.{
  ℕ, zero, suc, ◌+◌, ◌-◌, ◌*◌, ◌/◌, Bool, true, false, ◌&&◌, ◌||◌, Option, none, some, List, [],
  ◌∷◌, ◌++◌, Text, codes, ltb, leb, ◌==◌, if◌then◌else◌, length, get_elem?, set, drop, replicate,
  starts_with, all_digits, value_from, join, map,
}
use hexe.Prelude.{ℤ, pos, negsuc, pos_part, sub_ℕ, ◌+ℤ◌, ◌-ℤ◌, ltb_ℤ, min_ℤ, max_ℤ}
use mathlib.Core.List.{reverse}

abbrev pub Row : Type 0
Row = List ℕ

-- The cursor's coordinates are Python integers: a sequence can leave them at -1.
pub record Screen : Type 0 where
  pub cols : ℕ
  pub rows : ℕ
  pub cells : List Row
  pub x : ℤ
  pub y : ℤ

abbrev pub blank_row : ℕ → Row
blank_row cols = replicate cols b' '

-- `Screen(cols, rows)`
unfoldable pub new_screen : ℕ → ℕ → Screen
new_screen cols rows = record {
  cols = cols;
  rows = rows;
  cells = replicate rows (blank_row cols);
  x = pos 0;
  y = pos 0;
}

-- Where a list of n elements is indexed by i: a negative index counts from the end, and none is
-- `IndexError`.
unfoldable pub index_of : ℕ → ℤ → Option ℕ
index_of n (pos k) = if ltb k n then some k else none
index_of n (negsuc k) = if ltb k n then some (n - suc k) else none

-- `xs[i]`
unfoldable pub at {ℓ} : {A : Type ℓ} → List A → ℤ → Option A
unfolding index_of
at xs i = elim (index_of (length xs) i) [ none ↦ none | some k ↦ get_elem? xs k ]

-- `xs[i] = v`
unfoldable pub assign {ℓ} : {A : Type ℓ} → List A → ℤ → A → Option (List A)
unfolding index_of
assign xs i v = elim (index_of (length xs) i) [ none ↦ none | some k ↦ some (set xs k v) ]

infixl 5 ◌>>=◌
abbrev pub ◌>>=◌ {ℓ κ} : {A : Type ℓ} {B : Type κ} → Option A → (A → Option B) → Option B
none >>= f = none
some a >>= f = f a

-- `cells.pop(0)`, of which none is `IndexError`, and a blank row at the end.
abbrev scroll : ℕ → List Row → Option (List Row)
scroll cols [] = none
scroll cols (r ∷ rs) = some (rs ++ blank_row cols ∷ [])

unfoldable pub newline : Screen → Option Screen
newline s = elim (ltb_ℤ (s.y +ℤ pos 1) (pos s.rows)) [
  | true ↦ some (record s { y = s.y +ℤ pos 1 })
  | false ↦ do cells ← scroll s.cols s.cells; some (record s { cells = cells })
]

-- `self.cells[self.y][self.x] = ch; self.x += 1`
unfoldable pub write : ℕ → Screen → Option Screen
unfolding at assign
write ch s = do
  row ← at s.cells s.y
  row' ← assign row s.x ch
  cells ← assign s.cells s.y row'
  some (record s { cells = cells; x = s.x +ℤ pos 1 })

unfoldable pub put : ℕ → Screen → Option Screen
unfolding newline write
put ch s = elim (ltb_ℤ s.x (pos s.cols)) [
  | true ↦ write ch s
  | false ↦ do t ← newline (record s { x = pos 0 }); write ch t
]

-- `for i in range(start, …)`, n rounds: each assigns one element.
unfoldable pub fill_span {ℓ} : {A : Type ℓ} → ℕ → ℤ → A → List A → Option (List A)
unfolding assign
fill_span zero i v xs = some xs
fill_span (suc n) i v xs = do xs' ← assign xs i v; fill_span n (i +ℤ pos 1) v xs'

-- How many rounds `range(a, b)` makes.
abbrev pub rounds : ℤ → ℤ → ℕ
rounds a b = pos_part (b -ℤ a)

-- The span of a mode: from the cursor on, up to the cursor, or everything.
abbrev span_start : ℕ → ℤ → ℤ
span_start zero at_cursor = at_cursor
span_start (suc m) at_cursor = pos 0

abbrev span_end : ℕ → ℤ → ℕ → ℤ
span_end (suc zero) at_cursor size = at_cursor +ℤ pos 1
span_end _ at_cursor size = pos size

unfoldable pub erase_span {ℓ} : {A : Type ℓ} → ℕ → ℤ → ℕ → A → List A → Option (List A)
unfolding fill_span
erase_span mode at_cursor size v xs =
    fill_span (rounds (span_start mode at_cursor) (span_end mode at_cursor size))
      (span_start mode at_cursor) v xs

unfoldable pub erase_line : ℕ → Screen → Option Screen
unfolding erase_span at assign
erase_line mode s = do
  row ← at s.cells s.y
  row' ← erase_span mode s.x s.cols b' ' row
  cells ← assign s.cells s.y row'
  some (record s { cells = cells })

unfoldable pub erase_display : ℕ → Screen → Option Screen
unfolding erase_span
erase_display mode s = do
  cells ← erase_span mode s.y s.rows (blank_row s.cols) s.cells
  some (record s { cells = cells })
