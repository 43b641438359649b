-- ===== src/Frame/Total.antt =====
-- Replaying a text that erases no line, from one step to the whole.
use hexe.Prelude.{
  ℕ, zero, suc, ◌≤◌, ◌≡◌, ◌≢◌, subst, refl, ◌∙◌, inl, inr, false, ◌&&◌, Option, none, some, List,
  [], ◌∷◌, ◌++◌, Text, arith, leb, ◌==◌, length, Bool-cases, ℤ, pos,
}
use hexe.Frame.{Screen, ◌>>=◌}
use hexe.Frame.Feed.{
  csi, apply_csi, move_cursor, mode_of, numbers, split_params, is_param, is_final, Match, match_csi,
  skip_osc, skip_dcs, plain, Step, on_match, escape, step, fed, feed,
}
use hexe.Frame.Grid.{Near, IsGrid, IsGrid-move, Gives, newline-Gives, put-Gives}
use hexe.Frame.Cursor.{
  if_both, move_cursor-IsGrid, move_cursor-size, erase_display-Gives, Near-back, Inside-Near,
  Inside-tab,
}

-- No `K` occurs in the text, so no sequence in it erases a line.
abbrev pub ErasesNoLine : Text → Type 0
ErasesNoLine [] = Unit
ErasesNoLine (c ∷ s) = (c ≢ b'K') × ErasesNoLine s

Gives-same : (s : Screen) → IsGrid s → Gives s (some s)
Gives-same s g = record { screen = s; is = refl; grid = g; cols = refl; rows = refl }

apply_csi-Gives :
    (final : ℕ) (nums : List ℕ) (s : Screen)
    → final ≢ b'K'
    → IsGrid s
    → Gives s (apply_csi final nums s)
unfolding apply_csi
apply_csi-Gives final nums s ne g =
    let other : (final == b'K') ≡ false = ground arith in
    rw other (
      if_both (Gives s) (final == b'J') (erase_display-Gives (mode_of nums) s g) (record {
        screen = move_cursor final nums s;
        is = refl;
        grid = move_cursor-IsGrid final nums s g;
        cols = (move_cursor-size final nums s).0;
        rows = (move_cursor-size final nums s).1;
      }))

csi-Gives :
    (params : Text) (final : ℕ) (s : Screen)
    → final ≢ b'K'
    → IsGrid s
    → Gives s (csi params final s)
unfolding csi
csi-Gives params final s ne g =
    if_both (Gives s) _ (Gives-same s g)
      (apply_csi-Gives final (numbers (split_params params)) s ne g)

plain-Gives : (c : ℕ) (s : Screen) → IsGrid s → Gives s (plain c s)
unfolding plain
plain-Gives c s g = if_both (Gives s) (c == 13) (at_column (pos 0) (omega arith)) (
    if_both (Gives s) (c == 10) (newline-Gives s g) (
      if_both (Gives s) (c == 8) (at_column _ (Near-back s.cols 1 s.x g.x_near)) (
        if_both (Gives s) (c == 9)
          (at_column _ (Inside-Near s.cols _ (Inside-tab s.cols s.x g.some_col g.x_near)))
          (if_both (Gives s) (leb 32 c) (put-Gives c s g) (Gives-same s g)))))
  where
    at_column : (x : ℤ) → Near s.cols x → Gives s (some (record s { x = x }))
    at_column x near = record {
      screen = record s { x = x };
      is = refl;
      grid = IsGrid-move s g x s.y near g.y_inside;
      cols = refl;
      rows = refl;
    }

-- What is left of a text is shorter and erases no line either.
abbrev Shorter : Text → Text → Type 0
Shorter s t = ErasesNoLine t × (length t ≤ length s)

match_here :
    (seen s : Text) (c : ℕ) (m : Match)
    → ErasesNoLine (c ∷ s)
    → some (record { params = seen; final = c; rest = s }) ≡ some m
    → (m.final ≢ b'K') × Shorter (c ∷ s) m.rest
match_here seen s c m h e =
    let here : Match = record { params = seen; final = c; rest = s } in
    let same : here ≡ m = cc in
    subst (λ (n : Match). (n.final ≢ b'K') × Shorter (c ∷ s) n.rest) same (h.0, (h.1, omega arith))

none_here : (m : Match) → none ≡ some m → ⊥
none_here m e = cc

match_csi-Shorter :
    (seen s : Text) (m : Match)
    → ErasesNoLine s
    → match_csi seen s ≡ some m
    → (m.final ≢ b'K') × Shorter s m.rest
unfolding match_csi
match_csi-Shorter seen [] m h e = cc
match_csi-Shorter seen (c ∷ s) m h e = elim (Bool-cases (is_param c)) [
  | inl p ↦
      let (ne, sh) = match_csi-Shorter (seen ++ c ∷ []) s m h.1 (rw p at e) in
      (ne, (sh.0, omega (arith, sh.1)))
  | inr q ↦ elim (Bool-cases (is_final c)) [
    | inl f ↦ match_here seen s c m h (rw f at (rw q at e))
    | inr r ↦ absurd (none_here m (rw r at (rw q at e)))
  ]
]

skip_osc-Shorter : (s : Text) → ErasesNoLine s → Shorter s (skip_osc s)
unfolding skip_osc
skip_osc-Shorter [] h = (tt, omega arith)
skip_osc-Shorter (c ∷ []) h = (tt, omega arith)
skip_osc-Shorter (c ∷ d ∷ s) h =
    let (free, le) = skip_osc-Shorter (d ∷ s) h.1 in
    if_both (Shorter (c ∷ d ∷ s)) (c == 7) (h.1, omega arith)
      (if_both (Shorter (c ∷ d ∷ s)) (c == 27 && d == b'\\') (h.1.1, omega arith)
        (free, omega arith))

skip_dcs-Shorter : (s : Text) → ErasesNoLine s → Shorter s (skip_dcs s)
unfolding skip_dcs
skip_dcs-Shorter [] h = (tt, omega arith)
skip_dcs-Shorter (c ∷ []) h = (tt, omega arith)
skip_dcs-Shorter (c ∷ d ∷ s) h =
    let (free, le) = skip_dcs-Shorter (d ∷ s) h.1 in
    if_both (Shorter (c ∷ d ∷ s)) (c == 27 && d == b'\\') (h.1.1, omega arith) (free, omega arith)

-- One round: a grid of the same size, and a text that is left.
record Steps (s : Text) (scr : Screen) (o : Step) : Type 0 where
  screen : Screen
  text : Text
  is : o ≡ some (screen, text)
  grid : IsGrid screen
  cols : screen.cols ≡ scr.cols
  rows : screen.rows ≡ scr.rows
  shorter : Shorter s text

Steps-same : (s t : Text) (scr : Screen) → IsGrid scr → Shorter s t → Steps s scr (some (scr, t))
Steps-same s t scr g sh = record {
  screen = scr;
  text = t;
  is = refl;
  grid = g;
  cols = refl;
  rows = refl;
  shorter = sh;
}

Steps-cons : (s : Text) (c : ℕ) (scr : Screen) {o : Step} → Steps s scr o → Steps (c ∷ s) scr o
Steps-cons s c scr st = record {
  screen = st.screen;
  text = st.text;
  is = st.is;
  grid = st.grid;
  cols = st.cols;
  rows = st.rows;
  shorter = (st.shorter.0, omega (arith, st.shorter.1));
}

Steps-Gives :
    (s t : Text) (scr : Screen) {o : Option Screen}
    → Gives scr o
    → Shorter s t
    → Steps s scr (o >>= λ u. some (u, t))
Steps-Gives s t scr g sh = record {
  screen = g.screen;
  text = t;
  is = rw g.is;
  grid = g.grid;
  cols = g.cols;
  rows = g.rows;
  shorter = sh;
}

on_match-Steps :
    (s : Text) (scr : Screen) (m : Option Match)
    → ErasesNoLine s
    → match_csi [] s ≡ m
    → IsGrid scr
    → Steps s scr (on_match s scr m)
on_match-Steps s scr none h e g = Steps-same s s scr g (h, omega arith)
on_match-Steps s scr (some m) h e g =
    let (ne, sh) = match_csi-Shorter [] s m h e in
    Steps-Gives s m.rest scr (csi-Gives m.params m.final scr ne g) sh

escape-Steps : (s : Text) (scr : Screen) → ErasesNoLine s → IsGrid scr → Steps s scr (escape s scr)
unfolding escape
escape-Steps [] scr h g = Steps-same [] [] scr g (tt, omega arith)
escape-Steps (c ∷ s) scr h g =
    if_both (Steps (c ∷ s) scr) (c == b'[')
      (Steps-cons s c scr (on_match-Steps s scr (match_csi [] s) h.1 refl g))
      (if_both (Steps (c ∷ s) scr) (c == b']')
        (Steps-cons s c scr (Steps-same s _ scr g (skip_osc-Shorter s h.1)))
        (if_both (Steps (c ∷ s) scr) (c == b'P')
          (Steps-cons s c scr (Steps-same s _ scr g (skip_dcs-Shorter s h.1)))
          (Steps-same (c ∷ s) s scr g (h.1, omega arith))))

step-Steps :
    (c : ℕ) (s : Text) (scr : Screen) → ErasesNoLine s → IsGrid scr → Steps s scr (step c s scr)
unfolding step
step-Steps c s scr h g =
    if_both (Steps s scr) (c == 27) (escape-Steps s scr h g)
      (Steps-Gives s s scr (plain-Gives c scr g) (h, omega arith))

pub feed-IsGrid :
    (f : ℕ) (text : Text) (scr : Screen)
    → ErasesNoLine text
    → length text ≤ f
    → IsGrid scr
    → (t : Screen) × (feed f text scr ≡ fed t)
      × IsGrid t
      × (t.cols ≡ scr.cols)
      × (t.rows ≡ scr.rows)
unfolding feed
feed-IsGrid f [] scr h l g = (scr, unfold feed in refl, g, refl, refl)
feed-IsGrid zero (c ∷ s) scr h l g = absurd (omega arith)
feed-IsGrid (suc f) (c ∷ s) scr h l g =
    let st = step-Steps c s scr h.1 g in
    let (t, e, grid, cols, rows) =
      feed-IsGrid f st.text st.screen st.shorter.0 (omega (arith, st.shorter.1)) st.grid in
    (t, rw (st.is, feed) e, grid, cols ∙ st.cols, rows ∙ st.rows)
