-- ===== src/Painter/Status/Recording.antt =====
-- The recording mark in the right part, and the offset kept for it.
use hexe.Prelude.{ℕ, ◌≡◌, refl, sym, true, List, [], ◌∷◌, ◌++◌, append_assoc, Text, codes}
use hexe.Painter.{
  Run, Request, run, run_width, drawn, sep_run, flag, values_of, context_of, text_or_empty,
}
use hexe.Painter.Style
use hexe.Painter.Status.{
  Host, right_runs, add_segment, next_offset, recorded_runs, progress_runs, add_if, dir_text,
  close_right,
}
use hexe.Painter.Status.Widths.{drawn-append}
use hexe.Painter.Status.Shows.{Shows, Shows-append}
use hexe.Painter.Status.Tabs.{shown_last}

-- A segment is put behind what is there.
add_segment-runs : (rs : List Run) (r : Run) → (more : List Run) × (add_segment rs r ≡ rs ++ more)
unfolding add_segment
add_segment-runs [] r = (r ∷ [], refl)
add_segment-runs (q ∷ qs) r = (sep_run ∷ r ∷ [], refl)

Shows-runs :
    {x : ℕ} {name : Text} (rs qs more : List Run)
    → qs ≡ rs ++ more
    → Shows (drawn rs) x name
    → Shows (drawn qs) x name
Shows-runs rs qs more e s = rw (e, drawn-append) (Shows-append (drawn more) s)

Shows-add_if :
    {x : ℕ} {name : Text} (t style : Text) (rs : List Run)
    → Shows (drawn rs) x name
    → Shows (drawn (add_if t style rs)) x name
Shows-add_if [] style rs s = s
Shows-add_if (c ∷ t) style rs s =
    let (more, e) = add_segment-runs rs (run (c ∷ t) style) in Shows-runs rs _ more e s

Shows-close_right :
    {x : ℕ} {name : Text} (rs : List Run)
    → Shows (drawn rs) x name
    → Shows (drawn (close_right rs)) x name
Shows-close_right [] s = s
Shows-close_right (q ∷ qs) s = Shows-runs (q ∷ qs) _ _ refl s

-- The new segment stands at the offset that was computed before it was added.
Shows-add_segment :
    (rs : List Run) (name style : Text)
    → Shows (drawn (add_segment rs (run name style))) (next_offset rs) name
unfolding add_segment next_offset run_width
Shows-add_segment [] name style = shown_last [] name style
Shows-add_segment (q ∷ qs) name style =
    rw (sym (append_assoc (q ∷ qs) (sep_run ∷ []) (run name style ∷ [])))
      (shown_last ((q ∷ qs) ++ sep_run ∷ []) name style)

pub Shows-rec :
    (host : Host) (req : Request)
    → flag (values_of req).recording ≡ true
    → Shows
        (drawn (right_runs host (context_of req) (values_of req)))
        (next_offset (progress_runs (values_of req)))
        (codes "REC")
unfolding right_runs recorded_runs
Shows-rec host req h = Shows-close_right _ (
    Shows-add_if (dir_text (context_of req)) Style.dir _ (
      Shows-add_if (text_or_empty host.battery) Style.battery _
        (rw h (Shows-add_segment (progress_runs (values_of req)) (codes "REC") Style.rec))))
