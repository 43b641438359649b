-- ===== src/Stubs/Bar.antt =====
-- scripts/smoke_region_painter.py: the painter of the bar, with its state in a file.
pub mod Counts
use hexe.Prelude.{
  ℕ, zero, suc, ◌+◌, Bool, true, false, Option, none, some, List, [], ◌∷◌, ◌++◌, Text, codes,
  text_eq, if◌then◌else◌, length, strip,
}
use hexe.Wire.{Bytes}
use hexe.Stubs.{Handler, Ended, serve}

-- `req["context"]["values"]` is JSON that the painter only stores.
pub record Request (V : Type 0) : Type 0 where
  pub width : Option ℕ
  pub values : Option V

-- What the file holds; the context is `{}` at first.
pub record Record (V : Type 0) : Type 0 where
  pub requests : ℕ
  pub widths : List (Option ℕ)
  pub ctx : Option V

-- The state file, nothing where it is missing or no JSON, and what the mode file holds at the
-- requests to come, nothing where it is missing, as it is once the list has ended.
pub record State (V : Type 0) : Type 0 where
  pub file : Option (Record V)
  pub modes : List (Option Text)

or_answer : Text → Text
or_answer [] = codes "answer"
or_answer (c ∷ s) = c ∷ s

-- `painter_mode()`, of the file's text.
unfoldable pub painter_mode : Option Text → Text
unfolding or_answer strip
painter_mode none = codes "answer"
painter_mode (some text) = or_answer (strip text)

-- What the mode file holds now, and later.
unfoldable pub mode_now : List (Option Text) → Text
unfolding painter_mode
mode_now [] = painter_mode none
mode_now (m ∷ ms) = painter_mode m

unfoldable pub modes_later : List (Option Text) → List (Option Text)
modes_later [] = []
modes_later (m ∷ ms) = ms

-- `{"mode": "run", "runs": [...], "width": ...}`
pub record Output : Type 0 where
  pub text : Text
  pub style : Text
  pub width : ℕ

abbrev pub marker : Text
marker = codes "RGNOK49"

abbrev pub shown : Output
shown = record {
  text = b' ' ∷ marker ++ b' ' ∷ [];
  style = codes "fg:15 bg:237 bold";
  width = length marker + 2;
}

-- JSON: `loads` gives nothing where `json.loads` raises.
pub record Site (V : Type 0) : Type 0 where
  pub loads : Bytes → Option (Request V)
  pub dumps : Output → Bytes

module _ {V : Type 0} where
  -- `_State._load`, and the same in the loop.
  unfoldable pub load : Option (Record V) → Record V
  load none = record { requests = 0; widths = []; ctx = none }
  load (some r) = r

  kept : Option V → Option V → Option V
  kept ctx none = ctx
  kept ctx (some v) = some v

  -- The request written down.
  unfoldable pub noted : Record V → Request V → Record V
  unfolding kept
  noted cur req = record {
    requests = cur.requests + 1;
    widths = cur.widths ++ req.width ∷ [];
    ctx = kept cur.ctx req.values;
  }

  on_request : Site V → State V → Option (Request V) → Option (State V × Option Bytes)
  unfolding load noted mode_now modes_later
  on_request site s none = none
  on_request site s (some req) =
      let t : State V = record {
        file = some (noted (load s.file) req);
        modes = modes_later s.modes;
      } in
      some (t, if text_eq (mode_now s.modes) (codes "wedge") then none else some (site.dumps shown))

  -- One request: it is written down whatever the mode, and a wedged painter does not answer it.
  unfoldable pub handle : Site V → Handler (State V)
  unfolding on_request
  handle site s body = on_request site s (site.loads body)

  unfoldable pub serve_stdio : Site V → ℕ → Bytes → State V → Ended (State V)
  unfolding handle serve
  serve_stdio site fuel stdin s = serve (handle site) fuel stdin s []
