-- ===== src/Frame/Grid.antt =====
-- The shape of the screen: its cells are rows × cols, and every index that is used is in range.
use hexe.Prelude.{
  ℕ, zero, suc, ◌-◌, ◌<◌, ◌≤◌, ◌≡◌, refl, ◌∙◌, inl, inr, true, Option, some, List, [], ◌∷◌, ◌++◌,
  arith, length, get_elem?, set, replicate, length-set, length-append, length-replicate, Bool-cases,
  lt→ltb, ℤ, pos, negsuc, ◌+ℤ◌, ltb_ℤ,
}
use hexe.Frame.{
  Row, Screen, blank_row, new_screen, index_of, at, assign, scroll, newline, write, put, ◌>>=◌,
}

-- An index that a list of n elements takes, or the one at its end: -1 counts from the end.
abbrev pub Inside : ℕ → ℤ → Type 0
Inside n (pos k) = k < n
Inside n (negsuc k) = (k ≡ 0) × (0 < n)

abbrev pub Near : ℕ → ℤ → Type 0
Near n (pos k) = k ≤ n
Near n (negsuc k) = k ≡ 0

abbrev pub AllWide : ℕ → List Row → Type 0
AllWide n [] = Unit
AllWide n (r ∷ rs) = (length r ≡ n) × AllWide n rs

pub record IsGrid (s : Screen) : Type 0 where
  pub height : length s.cells ≡ s.rows
  pub wide : AllWide s.cols s.cells
  pub some_row : 0 < s.rows
  pub some_col : 0 < s.cols
  pub x_near : Near s.cols s.x
  pub y_inside : Inside s.rows s.y

-- The operation returns a grid of the same size.
pub record Gives (s : Screen) (o : Option Screen) : Type 0 where
  pub screen : Screen
  pub is : o ≡ some screen
  pub grid : IsGrid screen
  pub cols : screen.cols ≡ s.cols
  pub rows : screen.rows ≡ s.rows

pub index_of-Inside : (n : ℕ) (i : ℤ) → Inside n i → (k : ℕ) × (index_of n i ≡ some k) × (k < n)
unfolding index_of
index_of-Inside n (pos k) h = (k, rw (lt→ltb _ _ h), h)
index_of-Inside n (negsuc k) h = (n - suc k, rw (lt→ltb k n (omega arith)), omega arith)

-- Only the cursor has moved.
pub IsGrid-move :
    (s : Screen)
    → IsGrid s
    → (x y : ℤ) → Near s.cols x
    → Inside s.rows y
    → IsGrid (record s { x = x; y = y })
IsGrid-move s g x y near inside = record {
  height = g.height;
  wide = g.wide;
  some_row = g.some_row;
  some_col = g.some_col;
  x_near = near;
  y_inside = inside;
}

module _ {ℓ} {A : Type ℓ} where
  pub get_elem?-some : (xs : List A) (k : ℕ) → k < length xs → (a : A) × (get_elem? xs k ≡ some a)
  get_elem?-some [] k h = absurd (omega arith)
  get_elem?-some (x ∷ xs) zero h = (x, refl)
  get_elem?-some (x ∷ xs) (suc k) h = get_elem?-some xs k (omega arith)

  pub at-Inside :
      (xs : List A) (i : ℤ)
      → Inside (length xs) i
      → (k : ℕ) × (a : A) × (at xs i ≡ some a) × (get_elem? xs k ≡ some a)
  unfolding at
  at-Inside xs i h =
      let (k, e, lt) = index_of-Inside (length xs) i h in
      let (a, g) = get_elem?-some xs k lt in (k, a, rw (e, at) g, g)

  pub assign-Inside :
      (xs : List A) (i : ℤ) (v : A)
      → Inside (length xs) i
      → (k : ℕ) × (assign xs i v ≡ some (set xs k v))
  unfolding assign
  assign-Inside xs i v h = let (k, e, _) = index_of-Inside (length xs) i h in (k, rw (e, assign))

pub AllWide-get :
    (n : ℕ) (rs : List Row) (k : ℕ) {r : Row}
    → AllWide n rs
    → get_elem? rs k ≡ some r
    → length r ≡ n
AllWide-get n [] k w e = cc
AllWide-get n (r ∷ rs) zero w e = ground arith
AllWide-get n (r ∷ rs) (suc k) w e = AllWide-get n rs k w.1 e

pub AllWide-set :
    (n : ℕ) (rs : List Row) (k : ℕ) (r : Row) → AllWide n rs → length r ≡ n → AllWide n (set rs k r)
AllWide-set n [] k r w e = tt
AllWide-set n (q ∷ rs) zero r w e = (e, w.1)
AllWide-set n (q ∷ rs) (suc k) r w e = (w.0, AllWide-set n rs k r w.1 e)

pub AllWide-append : (n : ℕ) (rs qs : List Row) → AllWide n rs → AllWide n qs → AllWide n (rs ++ qs)
AllWide-append n [] qs w v = v
AllWide-append n (r ∷ rs) qs w v = (w.0, AllWide-append n rs qs w.1 v)

pub length-blank_row : (n : ℕ) → length (blank_row n) ≡ n
length-blank_row n = length-replicate {A = ℕ} n 32

AllWide-replicate : (n k : ℕ) → AllWide n (replicate k (blank_row n))
AllWide-replicate n zero = tt
AllWide-replicate n (suc k) = (length-blank_row n, AllWide-replicate n k)

-- A new screen of at least one cell is a grid.
pub new_screen-IsGrid : (cols rows : ℕ) → 0 < cols → 0 < rows → IsGrid (new_screen cols rows)
unfolding new_screen
new_screen-IsGrid cols rows c r = record {
  height = length-replicate rows (blank_row cols);
  wide = AllWide-replicate cols rows;
  some_row = r;
  some_col = c;
  x_near = omega arith;
  y_inside = r;
}

scroll-some :
    (cols : ℕ) (rs : List Row)
    → 0 < length rs
    → AllWide cols rs
    → (qs : List Row) × (scroll cols rs ≡ some qs) × (length qs ≡ length rs) × AllWide cols qs
scroll-some cols [] h w = absurd (omega arith)
scroll-some cols (r ∷ rs) h w = (
  rs ++ blank_row cols ∷ [],
  refl,
  omega (arith, length-append rs (blank_row cols ∷ [])),
  AllWide-append cols rs (blank_row cols ∷ []) w.1 (length-blank_row cols, tt),
)

Inside-next :
    (n : ℕ) (y : ℤ) → Inside n y → ltb_ℤ (y +ℤ pos 1) (pos n) ≡ true → Inside n (y +ℤ pos 1)
Inside-next n (pos k) h lt = ground arith
Inside-next n (negsuc k) h lt = ground arith

pub newline-Gives : (s : Screen) → IsGrid s → Gives s (newline s)
unfolding newline
newline-Gives s g = elim (Bool-cases (ltb_ℤ (s.y +ℤ pos 1) (pos s.rows))) [
  | inl lt ↦ record {
    screen = record s { y = s.y +ℤ pos 1 };
    is = rw (lt, newline);
    grid = IsGrid-move s g s.x (s.y +ℤ pos 1) g.x_near (Inside-next s.rows s.y g.y_inside lt);
    cols = refl;
    rows = refl;
  }
  | inr ge ↦
      let (qs, e, len, wide) =
        scroll-some s.cols s.cells (omega (arith, g.height, g.some_row)) g.wide in
      record {
        screen = record s { cells = qs };
        is = rw (ge, newline) (rw e);
        grid = record {
          height = len ∙ g.height;
          wide = wide;
          some_row = g.some_row;
          some_col = g.some_col;
          x_near = g.x_near;
          y_inside = g.y_inside;
        };
        cols = refl;
        rows = refl;
      }
]

Near-next : (n : ℕ) (x : ℤ) → Inside n x → Near n (x +ℤ pos 1)
Near-next n (pos k) h = ground arith
Near-next n (negsuc k) h = ground arith

-- Writing at an index within the row.
pub write-Gives : (ch : ℕ) (s : Screen) → IsGrid s → Inside s.cols s.x → Gives s (write ch s)
unfolding write
write-Gives ch s g inside =
    let (k, row, e, got) = at-Inside s.cells s.y (rw g.height g.y_inside) in
    let wide = AllWide-get s.cols s.cells k g.wide got in
    let (i, e') = assign-Inside row s.x ch (rw wide inside) in
    let (j, e'') = assign-Inside s.cells s.y (set row i ch) (rw g.height g.y_inside) in
    record {
      screen = record s { cells = set s.cells j (set row i ch); x = s.x +ℤ pos 1 };
      is = rw (e, write) (rw e' (rw e''));
      grid = record {
        height = length-set s.cells j (set row i ch) ∙ g.height;
        wide = AllWide-set s.cols s.cells j (set row i ch) g.wide (length-set row i ch ∙ wide);
        some_row = g.some_row;
        some_col = g.some_col;
        x_near = Near-next s.cols s.x inside;
        y_inside = g.y_inside;
      };
      cols = refl;
      rows = refl;
    }

Inside-lt : (n : ℕ) (x : ℤ) → 0 < n → Near n x → ltb_ℤ x (pos n) ≡ true → Inside n x
Inside-lt n (pos k) z h lt = ground arith
Inside-lt n (negsuc k) z h lt = (h, z)

newline-x : (s t : Screen) → newline s ≡ some t → t.x ≡ s.x
unfolding newline
newline-x s t e = ground arith

-- Two operations in a row.
pub Gives-bind :
    (s : Screen) {t : Screen} {o : Option Screen} (f : Screen → Option Screen) (n : Gives t o)
    → t.cols ≡ s.cols
    → t.rows ≡ s.rows
    → Gives n.screen (f n.screen)
    → Gives s (o >>= f)
Gives-bind s f n c r w = record {
  screen = w.screen;
  is = rw n.is w.is;
  grid = w.grid;
  cols = w.cols ∙ n.cols ∙ c;
  rows = w.rows ∙ n.rows ∙ r;
}

-- A printed character is written somewhere on the screen: at the cursor, or at the start of the
-- next row where the row is full.
pub put-Gives : (ch : ℕ) (s : Screen) → IsGrid s → Gives s (put ch s)
unfolding put
put-Gives ch s g = elim (Bool-cases (ltb_ℤ s.x (pos s.cols))) [
  | inl lt ↦ rw (lt, put) (write-Gives ch s g (Inside-lt s.cols s.x g.some_col g.x_near lt))
  | inr full ↦
      let t : Screen = record s { x = pos 0 } in
      let n = newline-Gives t (IsGrid-move s g (pos 0) s.y (omega arith) g.y_inside) in
      let start : Inside n.screen.cols n.screen.x =
        rw (newline-x t n.screen n.is, n.cols) g.some_col in
      rw (full, put) (Gives-bind s (write ch) n refl refl (write-Gives ch n.screen n.grid start))
]
