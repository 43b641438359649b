-- ===== src/Frame/Replay.antt =====
-- scripts/demo/frame.py: `render`, a recording replayed up to a moment.
use hexe.Prelude.{
  ℕ, ◌<◌, ◌≡◌, refl, ◌∙◌, inl, inr, Bool, true, false, not, ◌||◌, List, [], ◌∷◌, ◌++◌, Text, codes,
  arith, ltb, if◌then◌else◌, length, text_eq, Bool-cases,
}
use hexe.Frame.{Screen, new_screen}
use hexe.Frame.Feed.{Fed, fed, index_error, stuck, feed}
use hexe.Frame.Grid.{IsGrid, new_screen-IsGrid}
use hexe.Frame.Total.{ErasesNoLine, feed-IsGrid}

-- One event of a cast. Its time is in milliseconds: the recorder rounds to three places.
pub record Event : Type 0 where
  pub at : ℕ
  pub kind : Text
  pub text : Text

-- `if kind != "o" or at > until: continue`
unfoldable pub is_skipped : ℕ → Event → Bool
is_skipped until e = not (text_eq e.kind (codes "o")) || ltb until e.at

abbrev then_feed : (Screen → Fed) → Fed → Fed
then_feed k (fed s) = k s
then_feed k index_error = index_error
then_feed k stuck = stuck

unfoldable pub replay : ℕ → List Event → Screen → Fed
replay until [] s = fed s
replay until (e ∷ es) s =
    let shown = then_feed (λ t. replay until es t) (feed (length e.text) e.text s) in
    let skipped = replay until es s in if is_skipped until e then skipped else shown

-- The screen of the cast at a moment.
unfoldable pub render : ℕ → ℕ → ℕ → List Event → Fed
unfolding replay
render cols rows until es = replay until es (new_screen cols rows)

-- No event that is shown erases a line.
abbrev pub Plain : ℕ → List Event → Type 0
Plain until [] = Unit
Plain until (e ∷ es) = (is_skipped until e ≡ false → ErasesNoLine e.text) × Plain until es

replay-IsGrid :
    (until : ℕ) (es : List Event) (s : Screen)
    → Plain until es
    → IsGrid s
    → (t : Screen) × (replay until es s ≡ fed t) × IsGrid t × (t.cols ≡ s.cols) × (t.rows ≡ s.rows)
unfolding replay
replay-IsGrid until [] s p g = (s, refl, g, refl, refl)
replay-IsGrid until (e ∷ es) s p g = elim (Bool-cases (is_skipped until e)) [
  | inl skip ↦ rw skip (replay-IsGrid until es s p.1 g)
  | inr show ↦
      let (t, fed_t, grid, cols, rows) =
        feed-IsGrid (length e.text) e.text s (p.0 show) (omega arith) g in
      let (u, later, grid', cols', rows') = replay-IsGrid until es t p.1 grid in
      (u, rw show (rw fed_t later), grid', cols' ∙ cols, rows' ∙ rows)
]

-- Every moment of a recording that erases no line has a frame, of the recording's size.
render-IsGrid :
    (cols rows until : ℕ) (es : List Event)
    → 0 < cols
    → 0 < rows
    → Plain until es
    → (t : Screen) × (render cols rows until es ≡ fed t)
      × IsGrid t
      × (t.cols ≡ cols)
      × (t.rows ≡ rows)
unfolding render new_screen
render-IsGrid cols rows until es c r p =
    replay-IsGrid until es (new_screen cols rows) p (new_screen-IsGrid cols rows c r)

abbrev pub AllAfter : ℕ → List Event → Type 0
AllAfter until [] = Unit
AllAfter until (e ∷ es) = (until < e.at) × AllAfter until es

skipped-after : (until : ℕ) (e : Event) → until < e.at → is_skipped until e ≡ true
unfolding is_skipped
skipped-after until e h = ground arith

replay-after :
    (until : ℕ) (es : List Event) (s : Screen) → AllAfter until es → replay until es s ≡ fed s
unfolding replay
replay-after until [] s h = refl
replay-after until (e ∷ es) s h = rw (skipped-after until e h.0) (replay-after until es s h.1)

then_feed-cong :
    (j k : Screen → Fed) → ((t : Screen) → j t ≡ k t) → (r : Fed) → then_feed j r ≡ then_feed k r
then_feed-cong j k h (fed t) = h t
then_feed-cong j k h index_error = refl
then_feed-cong j k h stuck = refl

replay-append :
    (until : ℕ) (es later : List Event) (s : Screen)
    → AllAfter until later
    → replay until (es ++ later) s ≡ replay until es s
unfolding replay
replay-append until [] later s h = replay-after until later s h
replay-append until (e ∷ es) later s h = elim (Bool-cases (is_skipped until e)) [
  | inl skip ↦ rw skip (replay-append until es later s h)
  | inr show ↦
      rw show
        (then_feed-cong _ _ (λ t. replay-append until es later t h) (feed (length e.text) e.text s))
]

-- The frame at a moment does not depend on what was recorded after it.
render-append :
    (cols rows until : ℕ) (es later : List Event)
    → AllAfter until later
    → render cols rows until (es ++ later) ≡ render cols rows until es
unfolding render
render-append cols rows until es later h = replay-append until es later (new_screen cols rows) h
