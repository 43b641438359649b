-- ===== src/Painter/Status.antt =====
-- contrib/painter.py: `view_status`, the bar.
pub mod Widths
pub mod Shows
pub mod Tabs
pub mod Recording
pub mod Places
use hexe.Prelude.{
  ℕ, zero, suc, ◌+◌, ◌-◌, ◌/◌, max, min, Bool, true, false, Option, none, some, List, [], ◌∷◌, ◌++◌,
  Text, codes, text_eq, show, length, map, ltb, ◌==◌, if◌then◌else◌,
}
use hexe.Painter.{
  Run, Region, Action, Output, Values, Context, Request, run, run_width, pad, sep, sep_run,
  text_or_empty, list_or_empty, number_or, flag, context_of, values_of,
}
use hexe.Painter.Style
use hexe.Painter.Segments.{fish_truncate}

-- What `view_status` asks of its host: the clock's text and the battery's.
pub record Host : Type 0 where
  pub clock : Text
  pub battery : Option Text

unfoldable pub left_runs : Host → Values → List Run
left_runs host vals = run (b' ' ∷ host.clock) Style.time ∷ (elim (text_or_empty vals.session) [
  | [] ↦ []
  | c ∷ s ↦ sep_run ∷ run (c ∷ s) Style.session ∷ []
])

-- A tab's number, its column within the centre, and its width.
pub record Span : Type 0 where
  pub index : ℕ
  pub offset : ℕ
  pub width : ℕ

pub record Centre : Type 0 where
  pub runs : List Run
  pub spans : List Span

-- One round of the loop over the tabs.
unfoldable pub add_tab : ℕ → ℕ → Text → Centre → Centre
add_tab active zero name c = record {
  runs = c.runs ++ run name (if 0 == active then Style.tab_active else Style.tab_inactive) ∷ [];
  spans = c.spans ++ record { index = 0; offset = run_width c.runs; width = length name } ∷ [];
}
add_tab active (suc i) name c =
    let runs = c.runs ++ sep_run ∷ [] in
    record {
      runs =
          runs ++ run name (if suc i == active then Style.tab_active else Style.tab_inactive) ∷ [];
      spans =
          c.spans ++ record { index = suc i; offset = run_width runs; width = length name } ∷ [];
    }

unfoldable pub add_tabs : ℕ → ℕ → List Text → Centre → Centre
add_tabs active i [] c = c
add_tabs active i (name ∷ names) c = add_tabs active (suc i) names (add_tab active i name c)

unfoldable pub centre_of : Values → Centre
unfolding add_tabs
centre_of vals =
    add_tabs (number_or 0 vals.active_tab) 0 (list_or_empty vals.tabs)
      (record { runs = []; spans = [] })

abbrev progress_text : Text → Option ℕ → Text
progress_text state none = codes "progress ..."
progress_text state (some pct) =
    if text_eq state (codes "indeterminate")
    then codes "progress ..."
    else if text_eq state (codes "error")
    then codes "progress " ++ show pct ++ codes "% !"
    else if text_eq state (codes "paused")
    then codes "progress " ++ show pct ++ codes "% (paused)"
    else codes "progress " ++ show pct ++ codes "%"

-- `vals.get("progress_state") or "inactive"`
abbrev state_of : Values → Text
state_of vals = elim (text_or_empty vals.progress_state) [ [] ↦ codes "inactive" | c ∷ s ↦ c ∷ s ]

unfoldable pub progress_runs : Values → List Run
progress_runs vals =
    let state = state_of vals in
    if text_eq state (codes "inactive")
    then []
    else run (progress_text state vals.progress_pct)
        (if text_eq state (codes "error") then codes "bold fg:1" else Style.progress)
      ∷ []

-- `if right: right.append(SEP)`, and the segment behind it.
unfoldable pub add_segment : List Run → Run → List Run
add_segment [] r = r ∷ []
add_segment (q ∷ qs) r = (q ∷ qs) ++ sep_run ∷ r ∷ []

-- The column of the next segment within the right part.
unfoldable pub next_offset : List Run → ℕ
next_offset [] = 0
next_offset (q ∷ qs) = run_width ((q ∷ qs) ++ sep_run ∷ [])

unfoldable pub recorded_runs : Values → List Run
unfolding add_segment
recorded_runs vals =
    if flag vals.recording
    then add_segment (progress_runs vals) (run (codes "REC") Style.rec)
    else progress_runs vals

unfoldable pub rec_offset : Values → Option ℕ
unfolding next_offset
rec_offset vals = if flag vals.recording then some (next_offset (progress_runs vals)) else none

-- A segment whose text may be empty or absent: then nothing is drawn.
abbrev add_if : Text → Text → List Run → List Run
add_if [] style rs = rs
add_if (c ∷ s) style rs = add_segment rs (run (c ∷ s) style)

abbrev dir_text : Context → Text
dir_text ctx = elim (text_or_empty ctx.cwd) [
  | [] ↦ []
  | c ∷ s ↦ fish_truncate (c ∷ s) (text_or_empty ctx.home)
]

abbrev close_right : List Run → List Run
close_right [] = []
close_right (q ∷ qs) = (q ∷ qs) ++ run (b' ' ∷ []) [] ∷ []

unfoldable pub right_runs : Host → Context → Values → List Run
unfolding add_segment
right_runs host ctx vals = close_right (
    add_if (dir_text ctx) Style.dir
      (add_if (text_or_empty host.battery) Style.battery (recorded_runs vals)))

-- The tabs are centred where that leaves room for the right part, and else moved left. The
-- differences are of columns: Python's go below 0 where these stop at 0, and `max` with
-- `lw + 1` takes both to the same column.
unfoldable pub centre_start : ℕ → ℕ → ℕ → ℕ → ℕ
centre_start width lw cw rw =
    let first = max (lw + 1) ((width - cw) / 2) in
    if ltb width (first + cw + rw) then max (lw + 1) (width - rw - cw) else first

pub record Placed : Type 0 where
  pub centre_at : ℕ
  pub right_at : ℕ
  pub runs : List Run

unfoldable pub place : ℕ → List Run → List Run → List Run → Placed
unfolding centre_start
place width left centre right =
    let lw = run_width left in
    let cw = run_width centre in
    let rw = run_width right in
    let start = centre_start width lw cw rw in
    let used = start + cw in
    record {
      centre_at = start;
      right_at = max used (width - rw);
      runs = left ++ (pad (start - lw) ++ (centre ++ (pad (width - used - rw) ++ right)));
    }

unfoldable pub tab_region : ℕ → Span → Region
tab_region start s = record {
  id = codes "tab." ++ show (s.index + 1);
  x = start + s.offset;
  y = 0;
  width = s.width;
  height = 1;
  actions = record { button = codes "left"; does = codes "tab.select." ++ show (s.index + 1) } ∷ [];
  hover_style = none;
}

abbrev pub rec_region : ℕ → Region
rec_region x = record {
  id = codes "recording";
  x = x;
  y = 0;
  width = 3;
  height = 1;
  actions =
      record { button = codes "left"; does = codes "record.switch" }
      ∷ record { button = codes "right"; does = codes "record.stop" }
      ∷ [];
  hover_style = some (codes "bold fg:15");
}

unfoldable pub rec_regions : ℕ → Option ℕ → List Region
rec_regions right_at none = []
rec_regions right_at (some off) = rec_region (right_at + off) ∷ []

abbrev pub width_of : Request → ℕ
width_of req = number_or 80 req.width

-- Where everything goes, for a request.
unfoldable pub placed : Host → Request → Placed
placed host req =
    place (width_of req) (left_runs host (values_of req)) (centre_of (values_of req)).runs
      (right_runs host (context_of req) (values_of req))

unfoldable pub view_status : Host → Request → Output
unfolding tab_region rec_regions
view_status host req =
    let at = placed host req in
    record {
      runs = at.runs;
      width = min (run_width at.runs) (width_of req);
      next_frame_ms = some 1000;
      regions =
          map (tab_region at.centre_at) (centre_of (values_of req)).spans
          ++ rec_regions at.right_at (rec_offset (values_of req));
    }
