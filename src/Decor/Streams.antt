-- ===== src/Decor/Streams.antt =====
-- The loop of `feed`: what each of its steps does to the size of the screen.
use hexe.Prelude.{
  ℕ, zero, suc, Bool, true, false, ◌||◌, Option, none, some, List, [], ◌∷◌, ◌++◌, arith, length,
  ltb, ◌==◌, if◌then◌else◌,
}
use hexe.Film.{Bytes}
use hexe.Decor.{Screen}
use hexe.Decor.Feed.{
  Csi, Step, go, waits, on_csi, skipped, escape, match_csi, match_osc, match_st, step, after_step,
  run, feed,
}
use hexe.Decor.Sizes.{IsScreen, moved-IsScreen, put_all-IsScreen, csi-IsScreen, line_down-on}

-- A step that goes on leaves a screen.
abbrev StepsTo : ℕ → ℕ → Step → Type 0
StepsTo rows cols (go s rest) = IsScreen rows cols s
StepsTo rows cols waits = Unit

module _ (rows cols : ℕ) where
  if-StepsTo :
      (b : Bool) (p q : Step)
      → StepsTo rows cols p
      → StepsTo rows cols q
      → StepsTo rows cols (if b then p else q)
  if-StepsTo true p q h k = h
  if-StepsTo false p q h k = k

  on_csi-StepsTo :
      (s : Screen) (o : Option Csi) → IsScreen rows cols s → StepsTo rows cols (on_csi s o)
  on_csi-StepsTo s none h = tt
  on_csi-StepsTo s (some m) h = csi-IsScreen rows cols m.params m.final s h

  skipped-StepsTo :
      (s : Screen) (o : Option Bytes) → IsScreen rows cols s → StepsTo rows cols (skipped s o)
  skipped-StepsTo s none h = tt
  skipped-StepsTo s (some rest) h = h

  escape-StepsTo :
      (rest : Bytes) (s : Screen) → IsScreen rows cols s → StepsTo rows cols (escape rest s)
  unfolding escape
  escape-StepsTo [] s h = tt
  escape-StepsTo (c ∷ rest) s h =
      if-StepsTo (c == b'[') _ _ (on_csi-StepsTo s (match_csi [] rest) h) (
        if-StepsTo (c == b']') _ _ (skipped-StepsTo s (match_osc rest) h) (
          if-StepsTo (c == b'P' || c == b'^' || c == b'_') _ _ (skipped-StepsTo s (match_st rest) h)
            h))

  step-StepsTo :
      (c : ℕ) (rest : Bytes) (s : Screen) → IsScreen rows cols s → StepsTo rows cols (step c rest s)
  unfolding step
  step-StepsTo c rest s h = if-StepsTo (c == 0x1B) _ _ (escape-StepsTo rest s h) (
      if-StepsTo (c == 0x0D) _ _
        (moved-IsScreen rows cols s s.cy 0 h h.row_on (omega (arith, h.col_on)))
        (if-StepsTo (c == 0x0A) _ _
          (moved-IsScreen rows cols s _ s.cx h (line_down-on rows cols s h) h.col_on)
          (if-StepsTo (c == 0x08) _ _
            (moved-IsScreen rows cols s s.cy _ h h.row_on (omega (arith, h.col_on)))
            (if-StepsTo (ltb c 0x20) _ _ h (put_all-IsScreen rows cols _ s h)))))

  pending-IsScreen :
      (s : Screen) (buf : Bytes)
      → IsScreen rows cols s
      → IsScreen rows cols (record s { pending = buf })
  pending-IsScreen s buf h = record {
    rows_are = h.rows_are;
    cols_are = h.cols_are;
    height = h.height;
    widths = h.widths;
    row_on = h.row_on;
    col_on = h.col_on;
  }

  after_step-IsScreen :
      (k : Bytes → Screen → Screen) (buf : Bytes) (s : Screen) (p : Step)
      → ((rest : Bytes) (t : Screen) → IsScreen rows cols t → IsScreen rows cols (k rest t))
      → IsScreen rows cols s
      → StepsTo rows cols p
      → IsScreen rows cols (after_step k buf s p)
  after_step-IsScreen k buf s (go t rest) g h i = g rest t i
  after_step-IsScreen k buf s waits g h i = pending-IsScreen s buf h

  run-IsScreen :
      (fuel : ℕ) (buf : Bytes) (s : Screen)
      → IsScreen rows cols s
      → IsScreen rows cols (run fuel buf s)
  unfolding run
  run-IsScreen zero buf s h = h
  run-IsScreen (suc f) [] s h = h
  run-IsScreen (suc f) (c ∷ rest) s h =
      after_step-IsScreen (run f) (c ∷ rest) s (step c rest s) (run-IsScreen f) h
        (step-StepsTo c rest s h)

-- The screen is fed whatever arrives, chunk by chunk.
abbrev pub feed_all : List Bytes → Screen → Screen
feed_all [] s = s
feed_all (chunk ∷ chunks) s = feed_all chunks (feed chunk s)

-- Whatever data comes, in whatever chunks, a screen with its cursor on it keeps its size, and
-- its cursor stays on it.
pub feed-IsScreen :
    (rows cols : ℕ) (chunks : List Bytes) (s : Screen)
    → IsScreen rows cols s
    → IsScreen rows cols (feed_all chunks s)
unfolding feed
feed-IsScreen rows cols [] s h = h
feed-IsScreen rows cols (chunk ∷ chunks) s h = feed-IsScreen rows cols chunks _ (
    run-IsScreen rows cols (length (s.pending ++ chunk)) (s.pending ++ chunk) _
      (pending-IsScreen rows cols s [] h))
