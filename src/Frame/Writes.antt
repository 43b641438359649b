-- ===== src/Frame/Writes.antt =====
-- Printed text, and the cursor addresses that `csi` reads.
use hexe.Prelude.{
  ℕ, zero, suc, ◌+◌, ◌<◌, ◌≤◌, ◌≡◌, refl, sym, ap, ap₂, subst, ◌∙◌, true, false, some, List, [],
  ◌∷◌, Text, arith, ◌==◌, length, get_elem?, set, lt→ltb, pos, ◌+ℤ◌, ltb_ℤ, length-set,
}
use hexe.Frame.{Row, Screen, index_of, at, assign, write, put}
use hexe.Frame.Feed.{plain, step, fed, feed}

-- The characters that are drawn.
abbrev pub Printable : Text → Type 0
Printable [] = Unit
Printable (c ∷ s) = (32 ≤ c) × Printable s

module _ {ℓ} {A : Type ℓ} where
  set-set : (xs : List A) (j : ℕ) (a b : A) → set (set xs j a) j b ≡ set xs j b
  set-set [] j a b = refl
  set-set (x ∷ xs) zero a b = refl
  set-set (x ∷ xs) (suc j) a b = ap (◌∷◌ x) (set-set xs j a b)

  set-get : (xs : List A) (j : ℕ) (a : A) → get_elem? xs j ≡ some a → set xs j a ≡ xs
  set-get [] j a e = refl
  set-get (x ∷ xs) zero a e = ground arith
  set-get (x ∷ xs) (suc j) a e = ap (◌∷◌ x) (set-get xs j a e)

  get-set :
      (xs : List A) (j : ℕ) (a b : A) → get_elem? xs j ≡ some a → get_elem? (set xs j b) j ≡ some b
  get-set [] j a b e = cc
  get-set (x ∷ xs) zero a b e = refl
  get-set (x ∷ xs) (suc j) a b e = get-set xs j a b e

  get-lt : (xs : List A) (j : ℕ) (a : A) → get_elem? xs j ≡ some a → j < length xs
  get-lt [] j a e = cc
  get-lt (x ∷ xs) zero a e = omega arith
  get-lt (x ∷ xs) (suc j) a e = omega (arith, get-lt xs j a e)

  -- A text written over a row from column i on; what does not fit is dropped.
  abbrev pub overwrite : List A → ℕ → List A → List A
  overwrite [] i w = []
  overwrite (x ∷ row) zero [] = x ∷ row
  overwrite (x ∷ row) zero (c ∷ w) = c ∷ overwrite row zero w
  overwrite (x ∷ row) (suc i) w = x ∷ overwrite row i w

  overwrite-nil : (row : List A) (i : ℕ) → overwrite row i [] ≡ row
  overwrite-nil [] i = refl
  overwrite-nil (x ∷ row) zero = refl
  overwrite-nil (x ∷ row) (suc i) = ap (◌∷◌ x) (overwrite-nil row i)

  overwrite-cons :
      (row : List A) (i : ℕ) (c : A) (w : List A)
      → i < length row
      → overwrite (set row i c) (suc i) w ≡ overwrite row i (c ∷ w)
  overwrite-cons [] i c w h = absurd (omega arith)
  overwrite-cons (x ∷ row) zero c w h = refl
  overwrite-cons (x ∷ row) (suc i) c w h = ap (◌∷◌ x) (overwrite-cons row i c w (omega arith))

  at-pos : (xs : List A) (j : ℕ) (a : A) → get_elem? xs j ≡ some a → at xs (pos j) ≡ some a
  unfolding at index_of
  at-pos xs j a e = rw (lt→ltb _ _ (get-lt xs j a e), at) e

  assign-pos :
      (xs : List A) (j : ℕ) (v : A) → j < length xs → assign xs (pos j) v ≡ some (set xs j v)
  unfolding assign index_of
  assign-pos xs j v h = rw (lt→ltb _ _ h, assign)

-- The cursor stands in row j, which is `row`, at column i.
pub record Stands (s : Screen) (i j : ℕ) (row : Row) : Type 0 where
  pub got : get_elem? s.cells j ≡ some row
  pub at_x : s.x ≡ pos i
  pub at_y : s.y ≡ pos j
  pub wide : length row ≡ s.cols

abbrev written : Screen → ℕ → ℕ → Row → Screen
written s i j row = record s { cells = set s.cells j row; x = pos i }

put-within :
    (c : ℕ) (s : Screen) (i j : ℕ) (row : Row)
    → Stands s i j row
    → i < s.cols
    → put c s ≡ some (written s (suc i) j (set row i c))
unfolding put
put-within c s i j row st h =
    let fits : ltb_ℤ s.x (pos s.cols) ≡ true =
      subst (λ x. ltb_ℤ x (pos s.cols) ≡ true) (sym st.at_x) (ground arith) in
    let read : at s.cells s.y ≡ some row =
      subst (λ y. at s.cells y ≡ some row) (sym st.at_y) (at-pos s.cells j row st.got) in
    let column : assign row s.x c ≡ some (set row i c) =
      subst (λ x. assign row x c ≡ some (set row i c)) (sym st.at_x)
        (assign-pos row i c (rw st.wide h)) in
    let line : assign s.cells s.y (set row i c) ≡ some (set s.cells j (set row i c)) =
      subst (λ y. assign s.cells y (set row i c) ≡ some (set s.cells j (set row i c))) (sym st.at_y)
        (assign-pos s.cells j (set row i c) (get-lt s.cells j row st.got)) in
    let moved : s.x +ℤ pos 1 ≡ pos (suc i) =
      subst (λ x. x +ℤ pos 1 ≡ pos (suc i)) (sym st.at_x) (ground arith) in
    rw (fits, put)
      (rw (read, write)
        (rw column (
          rw line
            (ap (λ x. some (record s { cells = set s.cells j (set row i c); x = x })) moved))))

Stands-written :
    (c : ℕ) (s : Screen) (i j : ℕ) (row : Row)
    → Stands s i j row
    → Stands (written s (suc i) j (set row i c)) (suc i) j (set row i c)
Stands-written c s i j row st = record {
  got = get-set s.cells j row (set row i c) st.got;
  at_x = refl;
  at_y = st.at_y;
  wide = length-set row i c ∙ st.wide;
}

plain-printable : (c : ℕ) (s : Screen) → 32 ≤ c → plain c s ≡ put c s
unfolding plain
plain-printable c s h = ground arith

step-printable :
    (c : ℕ) (t : Text) (s u : Screen) → 32 ≤ c → put c s ≡ some u → step c t s ≡ some (u, t)
unfolding step
step-printable c t s u h e =
    let no_esc : (c == 27) ≡ false = ground arith in rw no_esc (rw (plain-printable c s h) (rw e))

-- Printable text that fits in the rest of the row is written over it from the cursor on, the
-- cursor moves behind it, and no other row changes.
feed-Printable :
    (w : Text) (s : Screen) (i j : ℕ) (row : Row)
    → Printable w
    → Stands s i j row
    → i + length w ≤ s.cols
    → feed (length w) w s ≡ fed (written s (i + length w) j (overwrite row i w))
unfolding feed
feed-Printable [] s i j row p st h = ap fed (
    ap₂ (λ cells x. record s { cells = cells; x = x })
      (sym (rw (overwrite-nil row i) (set-get s.cells j row st.got))) (st.at_x ∙ ground arith))
feed-Printable (c ∷ w) s i j row p st h =
    let u = written s (suc i) j (set row i c) in
    let stepped = step-printable c w s u p.0 (put-within c s i j row st (omega arith)) in
    let later =
      feed-Printable w u (suc i) j (set row i c) p.1 (Stands-written c s i j row st)
        (omega arith) in
    rw (stepped, feed)
      (later
        ∙ ap fed (
            ap₂ (λ cells x. record s { cells = cells; x = x })
              (set-set s.cells j (set row i c) _
                ∙ ap (set s.cells j) (overwrite-cons row i c w (omega (arith, st.wide))))
              (ground arith)))
