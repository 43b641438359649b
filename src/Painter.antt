-- ===== src/Painter.antt =====
-- contrib/painter.py: the data that the painter answers with, and the requests it answers.
pub mod Style
pub mod Segments
pub mod Status
pub mod Badges
pub mod Serve
use hexe.Prelude.{
  ℕ, zero, suc, ◌+◌, ◌≡◌, Bool, true, false, Option, none, some, List, [], ◌∷◌, ◌++◌, Text, codes,
  length, replicate, arith,
}
use hexe.Painter.Style

-- One piece of styled text, `{"text": …, "style": …}`.
pub record Run : Type 0 where
  pub text : Text
  pub style : Text

-- What the mouse does at a region: the button and the action.
pub record Action : Type 0 where
  pub button : Text
  pub does : Text

pub record Region : Type 0 where
  pub id : Text
  pub x : ℕ
  pub y : ℕ
  pub width : ℕ
  pub height : ℕ
  pub actions : List Action
  pub hover_style : Option Text

pub record Output : Type 0 where
  pub runs : List Run
  pub width : ℕ
  pub next_frame_ms : Option ℕ
  pub regions : List Region

-- A field of a JSON object. Where the code takes absent and null alike the model has an `Option`.
pub data Field (A : Type 0) : Type 0 where
  missing : Field A
  null : Field A
  given : A → Field A

-- `context.values`, and `context` itself.
pub record Values : Type 0 where
  pub session : Option Text
  pub tabs : Option (List Text)
  pub active_tab : Option ℕ
  pub progress_state : Option Text
  pub progress_pct : Option ℕ
  pub recording : Option Bool
  pub title : Option Text
  pub active : Field Bool
  pub pane_uuid : Option Text
  pub observers : Option ℕ
  pub share_blocked : Option Bool

pub record Context : Type 0 where
  pub values : Option Values
  pub cwd : Option Text
  pub home : Option Text
  pub title : Option Text

pub record Request : Type 0 where
  pub select : Option (List Text)
  pub width : Option ℕ
  pub context : Option Context

-- `d.get(k) or ""`, and the same for a list, a number and a flag.
abbrev pub text_or_empty : Option Text → Text
text_or_empty none = []
text_or_empty (some s) = s

abbrev pub list_or_empty : Option (List Text) → List Text
list_or_empty none = []
list_or_empty (some l) = l

abbrev pub number_or : ℕ → Option ℕ → ℕ
number_or d none = d
number_or d (some zero) = d
number_or d (some (suc n)) = suc n

abbrev pub flag : Option Bool → Bool
flag none = false
flag (some b) = b

abbrev pub no_values : Values
no_values = record {
  session = none;
  tabs = none;
  active_tab = none;
  progress_state = none;
  progress_pct = none;
  recording = none;
  title = none;
  active = missing;
  pane_uuid = none;
  observers = none;
  share_blocked = none;
}

-- `req.get("context", {}) or {}`
abbrev pub context_of : Request → Context
context_of r = elim r.context [
  | none ↦ record { values = none; cwd = none; home = none; title = none }
  | some c ↦ c
]

-- `ctx.get("values", {}) or {}`
abbrev pub values_of : Request → Values
values_of r = elim (context_of r).values [ none ↦ no_values | some v ↦ v ]

abbrev pub run : Text → Text → Run
run t s = record { text = t; style = s }

-- The sum of the lengths of the runs' texts.
unfoldable pub run_width : List Run → ℕ
run_width [] = 0
run_width (r ∷ rs) = length r.text + run_width rs

-- `pad(n)`: one unstyled run of n spaces, and none where n is 0.
unfoldable pub pad : ℕ → List Run
pad zero = []
pad (suc n) = run (replicate (suc n) b' ') [] ∷ []

-- The text that a list of runs puts on the screen.
unfoldable pub drawn : List Run → Text
drawn [] = []
drawn (r ∷ rs) = r.text ++ drawn rs

abbrev pub sep : Text
sep = codes " | "

abbrev pub sep_run : Run
sep_run = run sep Style.sep
