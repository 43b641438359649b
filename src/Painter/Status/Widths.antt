-- ===== src/Painter/Status/Widths.antt =====
-- The widths of the bar's parts, and where the layout puts them.
use hexe.Prelude.{
  ℕ, zero, suc, ◌+◌, ◌-◌, ◌≤◌, ◌<◌, max, ◌≡◌, refl, sym, ◌⊎◌, List, [], ◌∷◌, ◌++◌, append_assoc,
  arith, length, length-append, length-replicate,
}
use hexe.Painter.{Run, Request, values_of, context_of, run_width, pad, drawn}
use hexe.Painter.Status.{
  Host, centre_start, place, placed, view_status, width_of, left_runs, centre_of, right_runs,
}

pub run_width-append : (rs qs : List Run) → run_width (rs ++ qs) ≡ run_width rs + run_width qs
unfolding run_width
run_width-append [] qs = omega arith
run_width-append (r ∷ rs) qs = omega (arith, run_width-append rs qs)

pub run_width-drawn : (rs : List Run) → run_width rs ≡ length (drawn rs)
unfolding run_width drawn
run_width-drawn [] = refl
run_width-drawn (r ∷ rs) = omega (arith, run_width-drawn rs, length-append r.text (drawn rs))

pub drawn-append : (rs qs : List Run) → drawn (rs ++ qs) ≡ drawn rs ++ drawn qs
unfolding drawn
drawn-append [] qs = refl
drawn-append (r ∷ rs) qs = rw (drawn-append rs qs) (sym (append_assoc r.text (drawn rs) (drawn qs)))

pub run_width-pad : (n : ℕ) → run_width (pad n) ≡ n
unfolding run_width pad
run_width-pad zero = refl
run_width-pad (suc n) = omega (arith, length-replicate {A = ℕ} (suc n) 32)

-- The centre starts behind the left part and a blank.
pub lt-centre_start : (width lw cw rw : ℕ) → lw < centre_start width lw cw rw
unfolding centre_start
lt-centre_start width lw cw rw = ground arith

-- Either all fits, or the centre stands directly behind the left part and its blank.
centre_start_cases :
    (width lw cw rw : ℕ)
    → ((lw + 1 + cw + rw ≤ width) × (centre_start width lw cw rw + cw + rw ≤ width))
      ⊎ ((width < lw + 1 + cw + rw) × (centre_start width lw cw rw ≡ lw + 1))
unfolding centre_start
centre_start_cases width lw cw rw = ground arith

placed_width :
    (width : ℕ) (left centre right : List Run)
    → let at = place width left centre right in
      run_width at.runs
      ≡ centre_start width (run_width left) (run_width centre) (run_width right)
        + run_width centre
        + (width
            - (centre_start width (run_width left) (run_width centre) (run_width right)
                + run_width centre)
            - run_width right)
        + run_width right
unfolding place
placed_width width left centre right =
    let lw = run_width left in
    let cw = run_width centre in
    let rw = run_width right in
    let start = centre_start width lw cw rw in
    let gap = width - (start + cw) - rw in
    let tail = pad gap ++ right in
    omega (
      arith,
      run_width-append left (pad (start - lw) ++ (centre ++ tail)),
      run_width-append (pad (start - lw)) (centre ++ tail),
      run_width-append centre tail,
      run_width-append (pad gap) right,
      run_width-pad (start - lw),
      run_width-pad gap,
      lt-centre_start width lw cw rw,
    )

place_width :
    (width : ℕ) (left centre right : List Run)
    → run_width (place width left centre right).runs
      ≡ max width (run_width left + 1 + run_width centre + run_width right)
place_width width left centre right =
    let lw = run_width left in
    let cw = run_width centre in
    let rw = run_width right in
    omega (
      arith,
      placed_width width left centre right,
      lt-centre_start width lw cw rw,
      centre_start_cases width lw cw rw,
    )

-- The parts of the bar that is drawn for a request.
abbrev pub parts_width : Host → Request → ℕ
parts_width host req =
    run_width (left_runs host (values_of req))
    + 1
    + run_width (centre_of (values_of req)).runs
    + run_width (right_runs host (context_of req) (values_of req))

-- The bar fills the width asked for exactly, unless its left part, a blank, its tabs and its
-- right part need more: then it is exactly as long as those. The width it reports is the width
-- asked for.
pub view_status-width :
    (host : Host) (req : Request)
    → (run_width (view_status host req).runs ≡ max (width_of req) (parts_width host req))
      × ((view_status host req).width ≡ width_of req)
unfolding view_status placed
view_status-width host req =
    let full =
      place_width (width_of req) (left_runs host (values_of req)) (centre_of (values_of req)).runs
        (right_runs host (context_of req) (values_of req)) in
    (full, omega (arith, full))
