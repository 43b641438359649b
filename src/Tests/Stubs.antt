-- ===== src/Tests/Stubs.antt =====
-- The painters of the tests.
use hexe.Prelude.{ℕ, ◌+◌, ◌≡◌, refl, some, none, List, [], ◌∷◌, ◌++◌, Text, codes, length, arith}
use hexe.Wire.{Bytes, frame_bytes}
use hexe.Stubs.{Ended, stopped}
use hexe.Stubs.Answers.{Frames, cut, whole}
use hexe.Stubs.Panels
use hexe.Stubs.Panels.{Output, surface, run, Entry}
use hexe.Stubs.Panels.Served
use hexe.Stubs.Bar
use hexe.Stubs.Bar.{State, Record, shown, load}
use hexe.Stubs.Bar.Counts

-- Two frames, and one that hexe has not ended.
abbrev stdin : Bytes
stdin = 0 ∷ 0 ∷ 0 ∷ 1 ∷ 7 ∷ 0 ∷ 0 ∷ 0 ∷ 2 ∷ 8 ∷ 9 ∷ 0 ∷ 0 ∷ 0 ∷ 5 ∷ 1 ∷ []

abbrev bodies : List Bytes
bodies = (7 ∷ []) ∷ (8 ∷ 9 ∷ []) ∷ []

frames : Frames bodies stdin
unfolding frame_bytes hexe.Stubs.read_frame
frames =
    whole (7 ∷ []) (0 ∷ 0 ∷ 0 ∷ 1 ∷ 7 ∷ []) ((8 ∷ 9 ∷ []) ∷ []) _ refl (
      whole (8 ∷ 9 ∷ []) (0 ∷ 0 ∷ 0 ∷ 2 ∷ 8 ∷ 9 ∷ []) [] _ refl (cut (0 ∷ 0 ∷ 0 ∷ 5 ∷ 1 ∷ []) refl))

-- The middle of the left edge.
abbrev asking : Panels.Request
asking = record {
  values = some (record { edge = some (codes "left"); slot = some (codes "center") });
  width = some 6;
  height = some 2;
}

abbrev dump : Output → Bytes
dump (surface ansi w h button) = ansi
dump (run runs width) = []

abbrev panels : Panels.Site
panels = record { clicked = codes "/tmp/c"; loads = λ body. some asking; dumps = dump }

abbrev noted : Entry
noted = record {
  edge = some (codes "left");
  slot = some (codes "center");
  width = some 6;
  height = some 2;
}

abbrev answer : Bytes
answer = 0 ∷ 0 ∷ 0 ∷ 4 ∷ codes "M\r\nM"

served : Served.Served panels bodies (noted ∷ noted ∷ []) (answer ∷ answer ∷ [])
unfolding frame_bytes hexe.Stubs.Panels.answer hexe.Prelude.text_eq
served =
    Served.one (7 ∷ []) answer asking _ _ _ refl refl
      (Served.one (8 ∷ 9 ∷ []) answer asking _ _ _ refl refl Served.none_left)

serve_stdio-Served_example :
    Panels.serve_stdio panels 3 stdin [] ≡ stopped (noted ∷ noted ∷ []) (answer ∷ answer ∷ [])
serve_stdio-Served_example =
    Served.serve_stdio-Served panels bodies stdin 3 (noted ∷ noted ∷ []) (answer ∷ answer ∷ []) []
      frames (omega arith) served

-- A bar whose second request meets a wedged painter.
abbrev bar : Bar.Site Text
bar = record {
  loads = λ body. some (record { width = some (length body); values = some body });
  dumps = λ out. out.text;
}

abbrev start : State Text
start = record { file = none; modes = none ∷ some (codes "wedge\n") ∷ [] }

abbrev shown_frame : Bytes
shown_frame = 0 ∷ 0 ∷ 0 ∷ 9 ∷ codes " RGNOK49 "

abbrev requests : List (Bar.Request Text)
requests =
    record { width = some 1; values = some (7 ∷ []) }
    ∷ record { width = some 2; values = some (8 ∷ 9 ∷ []) }
    ∷ []

serve_stdio-Requests_example :
    (Bar.serve_stdio bar 3 stdin start
      ≡ stopped (record { file = Counts.noted_all none requests; modes = [] }) (shown_frame ∷ []))
    × ((load (Counts.noted_all none requests)).requests ≡ 2)
unfolding frame_bytes hexe.Stubs.Bar.load Bar.modes_later hexe.Prelude.text_eq Bar.mode_now
serve_stdio-Requests_example =
    Counts.serve_stdio-Requests bar shown_frame bodies stdin 3 requests start refl frames
      (omega arith)
      (Counts.one (7 ∷ []) _ _ _ refl (Counts.one (8 ∷ 9 ∷ []) _ _ _ refl Counts.none_left))
