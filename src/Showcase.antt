-- ===== src/Showcase.antt =====
-- contrib/painter_showcase.py: the requests that the showcase painter answers, and what it
-- answers with. Where the code asks with a default and no `or`, a null in the request raises an
-- exception that nothing catches; such requests are not modelled, and the field is an `Option`.
pub mod Status
pub mod Sprite
pub mod Views
pub mod Strip
pub mod Serve
use hexe.Prelude.{ℕ, ◌/◌, ◌%◌, max, Bool, Option, none, some, List, [], ◌∷◌, Text}
use hexe.Painter.{Run, Field, missing}

pub record Region : Type 0 where
  pub id : Text
  pub x : ℕ
  pub y : ℕ
  pub width : ℕ
  pub height : ℕ
  pub left : Text
  pub hover_style : Text

-- The two modes of an answer: styled text, and a rectangle of ANSI.
pub data Output : Type 0 where
  runs : List Run → ℕ → Option ℕ → Option (List Region) → Output
  surface : Text → ℕ → ℕ → ℕ → Output

pub record Values : Type 0 where
  pub session : Option Text
  pub tabs : Option (List Text)
  pub active_tab : Field ℕ
  pub progress_state : Option Text
  pub progress_pct : Option ℕ
  pub title : Option Text
  pub pod_name : Option Text
  pub sprite_shiny : Option Bool

pub record Context : Type 0 where
  pub values : Option Values
  pub cwd : Option Text
  pub home : Option Text

pub record Request : Type 0 where
  pub select : Option (List Text)
  pub width : Option ℕ
  pub height : Option ℕ
  pub now_ms : Option ℕ
  pub frames_ms : Option ℕ
  pub context : Option Context

-- `FRAME_MS`, positive, and the clock's text.
pub record Host : Type 0 where
  pub frame_ms : ℕ
  pub clock : Text

-- `d.get(k, default)`
abbrev pub given_or : ℕ → Option ℕ → ℕ
given_or d none = d
given_or d (some n) = n

abbrev pub context_of : Request → Context
context_of req = elim req.context [
  | none ↦ record { values = none; cwd = none; home = none }
  | some c ↦ c
]

abbrev pub values_of : Request → Values
values_of req = elim (context_of req).values [
  | none ↦ record {
    session = none;
    tabs = none;
    active_tab = missing;
    progress_state = none;
    progress_pct = none;
    title = none;
    pod_name = none;
    sprite_shiny = none;
  }
  | some v ↦ v
]

-- `max(int(req.get(…, d)), 1)`
abbrev pub at_least_one : ℕ → Option ℕ → ℕ
at_least_one d n = max (given_or d n) 1

abbrev pub frame : Host → ℕ → ℕ → ℕ
frame host now count = now / host.frame_ms % count
