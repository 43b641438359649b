-- ===== src/Showcase/Strip/Plays.antt =====
-- What a strip shows when it is played back, and why it ends.
use mathlib.Core.Option.{some-injective}
use hexe.Prelude.{
  if-true, if-false, ℕ, zero, suc, ◌+◌, ◌≤◌, ◌<◌, ◌≡◌, refl, sym, ap, ◌∙◌, inl, inr, true, Option,
  none, some, List, [], ◌∷◌, ◌++◌, ltb, ◌==◌, if◌then◌else◌, Bool-cases, arith, length,
  length-append, ==_iff, subst,
}
use hexe.Showcase.{Output, Request, Host}
use hexe.Showcase.Strip.{
  same_output, hold_of, max_frames, closes, no_empty, next_frame, draw_strip, view_at, filmstrip,
}

-- From a moment on, each frame is what the view draws when the frame's turn comes.
abbrev pub Plays : (ℕ → Option Output) → ℕ → List Output → Type 0
Plays view ahead [] = Unit
Plays view ahead (f ∷ fs) = (view ahead ≡ some f) × Plays view (ahead + hold_of f) fs

-- When the last frame's turn is over.
abbrev pub over_at : ℕ → List Output → ℕ
over_at ahead [] = ahead
over_at ahead (f ∷ fs) = over_at (ahead + hold_of f) fs

over_at-append :
    (ahead : ℕ) (fs gs : List Output) → over_at ahead (fs ++ gs) ≡ over_at (over_at ahead fs) gs
over_at-append ahead [] gs = refl
over_at-append ahead (f ∷ fs) gs = over_at-append (ahead + hold_of f) fs gs

Plays-append :
    (view : ℕ → Option Output) (ahead : ℕ) (fs : List Output) (f : Output)
    → Plays view ahead fs
    → view (over_at ahead fs) ≡ some f
    → Plays view ahead (fs ++ f ∷ [])
Plays-append view ahead [] f p h = (h, tt)
Plays-append view ahead (g ∷ gs) f p h = (p.0, Plays-append view (ahead + hold_of g) gs f p.1 h)

abbrev last_holds : List Output → ℕ
last_holds [] = 0
last_holds (f ∷ []) = hold_of f
last_holds (f ∷ g ∷ fs) = last_holds (g ∷ fs)

last_holds-append : (fs : List Output) (f : Output) → last_holds (fs ++ f ∷ []) ≡ hold_of f
last_holds-append [] f = refl
last_holds-append (g ∷ []) f = refl
last_holds-append (g ∷ h ∷ gs) f = last_holds-append (h ∷ gs) f

-- Why a strip may end: it lasts as long as was asked, it has as many frames as it may, its last
-- frame stays, or the view draws the first frame again when the strip is over.
pub data Ends (view : ℕ → Option Output) (horizon : ℕ) (frames : List Output) : Type 0 where
  lasts : horizon ≤ over_at 0 frames → Ends view horizon frames
  is_full : length frames ≡ max_frames → Ends view horizon frames
  stays : last_holds frames ≡ 0 → Ends view horizon frames
  repeats :
      (first out : Output) (more : List Output)
      → frames ≡ first ∷ more
      → view (over_at 0 frames) ≡ some out
      → same_output out first ≡ true
      → Ends view horizon frames

-- What a strip that was drawn is.
pub record IsStrip (view : ℕ → Option Output) (horizon : ℕ) (frames : List Output) : Type 0 where
  pub plays : Plays view 0 frames
  pub few : length frames ≤ max_frames
  pub ends : Ends view horizon frames

closes-repeats :
    (view : ℕ → Option Output) (horizon : ℕ) (frames : List Output) (out : Output)
    → view (over_at 0 frames) ≡ some out
    → closes out frames ≡ true
    → Ends view horizon frames
closes-repeats view horizon [] out e h = cc
closes-repeats view horizon (f ∷ fs) out e h = repeats f out fs refl e h

IsStrip-some :
    (view : ℕ → Option Output) (horizon : ℕ) (frames got : List Output)
    → IsStrip view horizon frames
    → some frames ≡ some got
    → IsStrip view horizon got
IsStrip-some view horizon frames got h e =
    subst (IsStrip view horizon) (some-injective frames got e) h

module _ (view : ℕ → Option Output) (horizon : ℕ) where
  -- The rest of the loop keeps what has been drawn.
  abbrev Draws : ℕ → List Output → (ℕ → List Output → Option (List Output)) → Type 0
  Draws left got rest =
      (ahead : ℕ) (frames : List Output)
      → Plays view 0 frames
      → over_at 0 frames ≡ ahead
      → length frames + left ≡ max_frames
      → rest ahead frames ≡ some got
      → IsStrip view horizon got

  next_frame_lem :
      (left ahead : ℕ) (frames got : List Output) (rest : ℕ → List Output → Option (List Output))
      (o : Option Output)
      → Draws left got rest
      → Plays view 0 frames
      → over_at 0 frames ≡ ahead
      → length frames + suc left ≡ max_frames
      → view ahead ≡ o
      → next_frame rest ahead frames o ≡ some got
      → IsStrip view horizon got
  next_frame_lem left ahead frames got rest none k p at n is d = cc
  next_frame_lem left ahead frames got rest (some out) k p at n is d =
      let grown = frames ++ out ∷ [] in
      let here : view (over_at 0 frames) ≡ some out = ap view at ∙ is in
      let onward = rest (ahead + hold_of out) grown in
      let after = if hold_of out == 0 then some grown else onward in
      let played = Plays-append view 0 frames out p here in
      let size = length-append frames (out ∷ []) in
      elim (Bool-cases (closes out frames)) [
        | inl c ↦
            IsStrip-some view horizon frames got
              (record {
                plays = p;
                few = omega (arith, n);
                ends = closes-repeats view horizon frames out here c;
              })
              (sym (if-true (closes out frames) (some frames) after c) ∙ d)
        | inr c ↦ elim (Bool-cases (hold_of out == 0)) [
          | inl z ↦
              IsStrip-some view horizon grown got
                (record {
                  plays = played;
                  few = omega (arith, n, size);
                  ends = stays (last_holds-append frames out ∙ (==_iff (hold_of out) 0).0 z);
                })
                (sym (
                    if-false (closes out frames) (some frames) after c
                    ∙ if-true (hold_of out == 0) (some grown) onward z)
                  ∙ d)
          | inr z ↦
              k (ahead + hold_of out) grown played
                (over_at-append 0 frames (out ∷ []) ∙ ap (λ j. j + hold_of out) at)
                (omega (arith, n, size))
                (sym (
                    if-false (closes out frames) (some frames) after c
                    ∙ if-false (hold_of out == 0) (some grown) onward z)
                  ∙ d)
        ]
      ]

  draw_strip-Draws : (left : ℕ) (got : List Output) → Draws left got (draw_strip view horizon left)
  unfolding draw_strip
  draw_strip-Draws zero got ahead frames p at n e =
      IsStrip-some view horizon frames got
        (record { plays = p; few = omega (arith, n); ends = is_full (omega (arith, n)) }) e
  draw_strip-Draws (suc left) got ahead frames p at n e =
      let more = next_frame (draw_strip view horizon left) ahead frames (view ahead) in
      elim (Bool-cases (ltb ahead horizon)) [
        | inr late ↦
            IsStrip-some view horizon frames got
              (record {
                plays = p;
                few = omega (arith, n);
                ends = lasts (ground (arith, at, late));
              })
              (sym (if-false (ltb ahead horizon) more (some frames) late) ∙ e)
        | inl early ↦
            next_frame_lem left ahead frames got _ (view ahead) (draw_strip-Draws left got) p at n
              refl (sym (if-true (ltb ahead horizon) more (some frames) early) ∙ e)
      ]

no_empty-some :
    (o : Option (List Output)) (got : List Output)
    → no_empty o ≡ some got
    → (o ≡ some got) × (0 < length got)
no_empty-some none got e = cc
no_empty-some (some []) got e = cc
no_empty-some (some (f ∷ fs)) got e =
    (e, subst (λ q. 0 < length q) (some-injective (f ∷ fs) got e) (omega arith))

-- A strip that is answered has a frame, and sixty-four at most; played back, each frame is what
-- the view draws at its turn; and it lasts as long as was asked, or is full, or ends on a frame
-- that stays, or is over where the view draws its first frame again.
pub filmstrip-IsStrip :
    (host : Host) (req : Request) (horizon : ℕ) (frames : List Output)
    → filmstrip host req horizon ≡ some frames
    → (0 < length frames) × IsStrip (view_at host req) horizon frames
unfolding filmstrip
filmstrip-IsStrip host req horizon frames e =
    let (drawn, some_frame) = no_empty-some _ frames e in
    (
      some_frame,
      draw_strip-Draws (view_at host req) horizon max_frames frames 0 [] tt refl refl drawn,
    )
