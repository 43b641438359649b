-- ===== src/Frame/Cursor.antt =====
-- The cursor moves and the erasures, and the screen's shape.
use hexe.Prelude.{
  ℕ, zero, suc, ◌+◌, ◌<◌, ◌≤◌, ◌≡◌, ◌≢◌, refl, ◌∙◌, ◌⊎◌, inl, inr, Bool, true, false, none, some,
  List, arith, ltb, if◌then◌else◌, length, set, length-set, Bool-cases, ltb→lt, ltb→le, ℤ, pos,
  negsuc, sub_ℕ, ◌+ℤ◌, ◌-ℤ◌, min_ℤ, max_ℤ,
}
use hexe.Frame.{
  Row, Screen, blank_row, index_of, assign, fill_span, rounds, span_start, span_end, erase_span,
  erase_line, erase_display,
}
use hexe.Frame.Feed.{move_cursor, count_of, first_or_one, second_or_one, last_index, tab_stop}
use hexe.Frame.Grid.{
  Inside, Near, AllWide, IsGrid, IsGrid-move, Gives, at-Inside, assign-Inside, AllWide-get,
  AllWide-set, length-blank_row,
}

pub if_both {ℓ κ} :
    {A : Type ℓ} (P : A → Type κ) (b : Bool) {x y : A} → P x → P y → P (if b then x else y)
if_both P true h k = h
if_both P false h k = k

module _ (n : ℕ) where
  pub Inside-Near : (z : ℤ) → Inside n z → Near n z
  Inside-Near (pos k) h = omega arith
  Inside-Near (negsuc k) h = h.0

  pub Inside-at : (m : ℕ) → 0 < n → Inside n (min_ℤ (last_index n) (sub_ℕ m 1))
  Inside-at m h = ground arith

  pub Inside-back : (k : ℕ) (z : ℤ) → Inside n z → Inside n (max_ℤ (pos 0) (z -ℤ pos k))
  Inside-back k (pos m) h = ground arith
  Inside-back k (negsuc m) h = ground arith

  pub Near-back : (k : ℕ) (z : ℤ) → Near n z → Near n (max_ℤ (pos 0) (z -ℤ pos k))
  Near-back k (pos m) h = ground arith
  Near-back k (negsuc m) h = ground arith

  pub Inside-forward :
      (k : ℕ) (z : ℤ) → 0 < n → Near n z → Inside n (min_ℤ (last_index n) (z +ℤ pos k))
  Inside-forward k (pos m) p h = ground arith
  Inside-forward k (negsuc m) p h = ground arith

  pub Inside-tab : (z : ℤ) → 0 < n → Near n z → Inside n (min_ℤ (last_index n) (tab_stop z))
  Inside-tab (pos m) p h = ground arith
  Inside-tab (negsuc m) p h = ground arith

pub move_cursor-IsGrid :
    (final : ℕ) (nums : List ℕ) (s : Screen) → IsGrid s → IsGrid (move_cursor final nums s)
unfolding move_cursor
move_cursor-IsGrid final nums s g =
    let c = g.some_col in
    let r = g.some_row in
    let k = count_of nums in
    if_both IsGrid _
      (IsGrid-move s g _ _ (Inside-Near s.cols _ (Inside-at s.cols (second_or_one nums) c))
        (Inside-at s.rows (first_or_one nums) r))
      (if_both IsGrid _ (IsGrid-move s g s.x _ g.x_near (Inside-back s.rows k s.y g.y_inside)) (
        if_both IsGrid _
          (IsGrid-move s g s.x _ g.x_near
            (Inside-forward s.rows k s.y r (Inside-Near s.rows s.y g.y_inside)))
          (if_both IsGrid _
            (IsGrid-move s g _ s.y (Inside-Near s.cols _ (Inside-forward s.cols k s.x c g.x_near))
              g.y_inside)
            (if_both IsGrid _ (IsGrid-move s g _ s.y (Near-back s.cols k s.x g.x_near) g.y_inside) (
              if_both IsGrid _
                (IsGrid-move s g _ s.y (Inside-Near s.cols _ (Inside-at s.cols k c)) g.y_inside)
                (if_both IsGrid _ (IsGrid-move s g s.x _ g.x_near (Inside-at s.rows k r)) g))))))

pub move_cursor-size :
    (final : ℕ) (nums : List ℕ) (s : Screen)
    → ((move_cursor final nums s).cols ≡ s.cols) × ((move_cursor final nums s).rows ≡ s.rows)
unfolding move_cursor
move_cursor-size final nums s =
    let P = λ (t : Screen). (t.cols ≡ s.cols) × (t.rows ≡ s.rows) in
    let same : P s = (refl, refl) in ground arith

-- The span of a loop that stays within a list of n elements.
abbrev Fits : ℕ → ℤ → ℕ → Type 0
Fits rounds (pos k) n = k + rounds ≤ n
Fits rounds (negsuc k) n = (k ≡ 0) × (0 < n) × (rounds ≤ n + 1)

Fits-next : (m : ℕ) (i : ℤ) (n : ℕ) → Fits (suc m) i n → Inside n i × Fits m (i +ℤ pos 1) n
Fits-next m (pos k) n h = ground arith
Fits-next m (negsuc k) n h = ground arith

-- What a loop of assignments keeps: whatever one assignment keeps.
module _ {ℓ κ} {A : Type ℓ} (v : A) (Q : List A → Type κ)
    (keep : (xs : List A) (k : ℕ) → Q xs → Q (set xs k v)) where
  fill_span-some :
      (m : ℕ) (i : ℤ) (xs : List A)
      → Fits m i (length xs)
      → Q xs
      → (ys : List A) × (fill_span m i v xs ≡ some ys) × (length ys ≡ length xs) × Q ys
  unfolding fill_span
  fill_span-some zero i xs h q = (xs, refl, refl, q)
  fill_span-some (suc m) i xs h q =
      let (inside, later) = Fits-next m i (length xs) h in
      let (k, e) = assign-Inside xs i v inside in
      let (ys, e', len, q') =
        fill_span-some m (i +ℤ pos 1) (set xs k v) (rw (length-set xs k v) later) (keep xs k q) in
      (ys, rw e e', len ∙ length-set xs k v, q')

pos-next : (k : ℕ) → pos k +ℤ pos 1 ≡ pos (k + 1)
pos-next k = ground arith

module _ {ℓ} {A : Type ℓ} (v : A) where
  assign-none : (xs : List A) (k : ℕ) → length xs ≤ k → assign xs (pos k) v ≡ none
  unfolding assign index_of
  assign-none xs k h = ground arith

  -- A loop that runs past the end raises `IndexError`.
  fill_span-none :
      (m k : ℕ) (xs : List A) → k ≤ length xs → length xs < k + m → fill_span m (pos k) v xs ≡ none
  unfolding fill_span
  fill_span-none zero k xs h l = absurd (omega arith)
  fill_span-none (suc m) k xs h l = elim (Bool-cases (ltb k (length xs))) [
    | inl lt ↦
        let (j, e) = assign-Inside xs (pos k) v (ltb→lt _ _ lt) in
        rw e (
          rw (pos-next k) (
            fill_span-none m (k + 1) (set xs j v) (omega (arith, length-set xs j v, ltb→lt _ _ lt))
              (omega (arith, length-set xs j v))))
    | inr ge ↦ rw (assign-none xs k (ltb→le _ _ ge))
  ]

-- A span of a mode fits, but for the span up to a cursor that stands behind the last element.
span-Fits :
    (mode : ℕ) (z : ℤ) (n : ℕ)
    → 0 < n
    → Near n z
    → (mode ≢ 1) ⊎ Inside n z
    → Fits (rounds (span_start mode z) (span_end mode z n)) (span_start mode z) n
span-Fits zero (pos k) n p h o = ground arith
span-Fits zero (negsuc k) n p h o = ground arith
span-Fits (suc zero) (pos k) n p h (inl ne) = absurd (ne refl)
span-Fits (suc zero) (pos k) n p h (inr i) = ground arith
span-Fits (suc zero) (negsuc k) n p h o = ground arith
span-Fits (suc (suc m)) z n p h o = ground arith

keep_length : (n : ℕ) (v : ℕ) (xs : Row) (k : ℕ) → length xs ≡ n → length (set xs k v) ≡ n
keep_length n v xs k e = length-set xs k v ∙ e

-- Every erasure of a line works, but for that up to a cursor that stands behind the last column.
pub erase_line-Gives :
    (mode : ℕ) (s : Screen)
    → IsGrid s
    → (mode ≢ 1) ⊎ Inside s.cols s.x
    → Gives s (erase_line mode s)
unfolding erase_line erase_span
erase_line-Gives mode s g o =
    let (k, row, e, got) = at-Inside s.cells s.y (rw g.height g.y_inside) in
    let wide = AllWide-get s.cols s.cells k g.wide got in
    let (row', e', len, _) =
      fill_span-some b' ' (λ xs. length xs ≡ s.cols) (keep_length s.cols b' ')
        (rounds (span_start mode s.x) (span_end mode s.x s.cols)) (span_start mode s.x) row
        (rw wide (span-Fits mode s.x s.cols g.some_col g.x_near o)) wide in
    let (j, e'') = assign-Inside s.cells s.y row' (rw g.height g.y_inside) in
    record {
      screen = record s { cells = set s.cells j row' };
      is = rw (e, erase_line) (rw e' (rw e''));
      grid = record {
        height = length-set s.cells j row' ∙ g.height;
        wide = AllWide-set s.cols s.cells j row' g.wide (len ∙ wide);
        some_row = g.some_row;
        some_col = g.some_col;
        x_near = g.x_near;
        y_inside = g.y_inside;
      };
      cols = refl;
      rows = refl;
    }

pub erase_display-Gives : (mode : ℕ) (s : Screen) → IsGrid s → Gives s (erase_display mode s)
unfolding erase_display erase_span
erase_display-Gives mode s g =
    let (cells, e, len, wide) =
      fill_span-some (blank_row s.cols) (AllWide s.cols)
        (λ rs k w. AllWide-set s.cols rs k (blank_row s.cols) w (length-blank_row s.cols))
        (rounds (span_start mode s.y) (span_end mode s.y s.rows)) (span_start mode s.y) s.cells
        (rw g.height (
          span-Fits mode s.y s.rows g.some_row (Inside-Near s.rows s.y g.y_inside)
            (inr g.y_inside)))
        g.wide in
    record {
      screen = record s { cells = cells };
      is = rw (e, erase_display);
      grid = record {
        height = len ∙ g.height;
        wide = wide;
        some_row = g.some_row;
        some_col = g.some_col;
        x_near = g.x_near;
        y_inside = g.y_inside;
      };
      cols = refl;
      rows = refl;
    }

-- Where a row is full up to its last column, erasing up to the cursor raises `IndexError`.
pub erase_line_raises : (s : Screen) → IsGrid s → s.x ≡ pos s.cols → erase_line 1 s ≡ none
unfolding erase_line erase_span
erase_line_raises s g full =
    let (k, row, e, got) = at-Inside s.cells s.y (rw g.height g.y_inside) in
    let wide = AllWide-get s.cols s.cells k g.wide got in
    let past : fill_span (rounds (pos 0) (s.x +ℤ pos 1)) (pos 0) b' ' row ≡ none =
      rw full (fill_span-none b' ' _ 0 row (omega arith) (ground (arith, wide))) in
    rw (e, erase_line) (rw past)
