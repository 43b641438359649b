-- ===== src/Showcase/Status.antt =====
-- contrib/painter_showcase.py: `view_status`, and the `emit` that it draws with.
pub mod Emits
pub mod Bars
use hexe.Prelude.{
  ℕ, zero, suc, ◌+◌, ◌-◌, ◌/◌, min, Bool, true, false, Option, none, some, List, [], ◌∷◌, ◌++◌,
  Text, codes, length, drop, replicate, show, text_eq, starts_with, get_elem?, ltb, ◌==◌, ◌&&◌, not,
  if◌then◌else◌,
}
use hexe.Painter.{Run, Field, missing, null, given, run, text_or_empty, list_or_empty, number_or}
use hexe.Showcase.{
  Region, Output, runs, Values, Context, Request, Host, given_or, context_of, values_of,
  at_least_one, frame,
}

-- What a click on an emitted text does.
pub record Target : Type 0 where
  pub id : Text
  pub action : Text

pub record Bar : Type 0 where
  pub runs : List Run
  pub regions : List Region
  pub col : ℕ

abbrev pub region_at : ℕ → Text → Target → Region
region_at col text t = record {
  id = t.id;
  x = col;
  y = 0;
  width = length text;
  height = 1;
  left = t.action;
  hover_style = codes "bg:240 fg:15";
}

abbrev pub regions_at : ℕ → Text → Option Target → List Region
regions_at col text none = []
regions_at col text (some t) = region_at col text t ∷ []

-- `emit`: an empty text draws nothing.
unfoldable pub emit : Text → Text → Option Target → Bar → Bar
emit [] style region b = b
emit (c ∷ s) style region b = record {
  runs = b.runs ++ run (c ∷ s) style ∷ [];
  regions = b.regions ++ regions_at b.col (c ∷ s) region;
  col = b.col + length (c ∷ s);
}

-- `i == values.get("active_tab", 0)`
abbrev is_active : ℕ → Field ℕ → Bool
is_active i missing = i == 0
is_active i null = false
is_active i (given n) = i == n

abbrev pub between_blanks : Text → Text
between_blanks s = b' ' ∷ (s ++ b' ' ∷ [])

abbrev tab_style : Bool → Text
tab_style true = codes "bg:239 fg:255 bold"
tab_style false = codes "fg:245"

abbrev pub tab_target : ℕ → Target
tab_target i = record { id = codes "tab." ++ show i; action = codes "tab.select." ++ show i }

-- The loop over the tabs.
unfoldable pub emit_tabs : Field ℕ → ℕ → List Text → Bar → Bar
emit_tabs active i [] b = b
emit_tabs active i (tab ∷ tabs) b =
    emit_tabs active (suc i) tabs
      (emit (between_blanks tab) (tab_style (is_active i active)) (some (tab_target i)) b)

-- `BRAILLE` and `PULSE`
abbrev pub braille : Text
braille =
    0x280B ∷ 0x2819 ∷ 0x2839 ∷ 0x2838 ∷ 0x283C ∷ 0x2834 ∷ 0x2826 ∷ 0x2827 ∷ 0x2807 ∷ 0x280F ∷ []

abbrev pulse : List ℕ
pulse = 236 ∷ 238 ∷ 240 ∷ 242 ∷ 244 ∷ 246 ∷ 244 ∷ 242 ∷ 240 ∷ 238 ∷ []

-- `table[frame(now, len(table))]`
abbrev pub cycled : Host → ℕ → List ℕ → ℕ
cycled host now table = given_or 0 (get_elem? table (frame host now (length table)))

abbrev pub block : ℕ
block = 0x2588

-- The home directory in front of a path becomes a tilde.
unfoldable pub shown_dir : Text → Text → Text
shown_dir cwd home =
    if not (text_eq home []) && starts_with cwd home then b'~' ∷ drop (length home) cwd else cwd

-- `int(pct / 100 * bars)`, of ten bars.
abbrev progress_bar : ℕ → Text
progress_bar pct =
    codes " [" ++ (replicate (pct / 10) block ++ (replicate (10 - pct / 10) 0x2591 ++ codes "] "))

abbrev progress_text : Values → Text
progress_text vals =
    if text_eq (text_or_empty vals.progress_state) (codes "in_progress")
    then progress_bar (number_or 0 vals.progress_pct)
    else []

abbrev pub session_text : Values → Text
session_text vals = elim (text_or_empty vals.session) [ [] ↦ codes "hexe" | c ∷ s ↦ c ∷ s ]

abbrev pub empty_bar : Bar
empty_bar = record { runs = []; regions = []; col = 0 }

abbrev pub now_of : Request → ℕ
now_of req = given_or 0 req.now_ms

-- The session, the tabs, the spinner, the directory and the progress.
unfoldable pub segments : Host → Request → Bar
unfolding emit_tabs
segments host req =
    let vals = values_of req in
    let ctx = context_of req in
    emit (progress_text vals) (codes "fg:114") none (
      emit (shown_dir (text_or_empty ctx.cwd) (text_or_empty ctx.home)) (codes "fg:110") none (
        emit (between_blanks (cycled host (now_of req) braille ∷ []))
          (codes "fg:" ++ show (cycled host (now_of req) pulse)) none
          (emit_tabs vals.active_tab 0 (list_or_empty vals.tabs) (
            emit (between_blanks (session_text vals)) (codes "bg:141 fg:16 bold") none empty_bar))))

-- The blanks in front of the clock, and the clock; `" " * n` is empty where n is not positive.
unfoldable pub finish : Host → ℕ → Bar → Bar
finish host width b =
    emit (host.clock ++ b' ' ∷ []) (codes "fg:250 bg:236") none
      (emit (replicate (width - b.col - length host.clock - 1) b' ') [] none b)

abbrev pub width_of : Request → ℕ
width_of req = at_least_one 80 req.width

unfoldable pub bar : Host → Request → Bar
unfolding segments finish
bar host req = finish host (width_of req) (segments host req)

unfoldable pub view_status : Host → Request → Output
unfolding bar
view_status host req =
    runs (bar host req).runs (min (bar host req).col (width_of req)) (some host.frame_ms)
      (some (bar host req).regions)
