-- ===== src/Stretch.antt =====
-- scripts/demo_stretch.py: `stretch` and `fixed`, the lines with and without the terminal's help.
pub mod Widths
pub mod Demo
use hexe.Prelude.{
  ℕ, zero, suc, ◌+◌, ◌-◌, ◌/◌, ◌%◌, Bool, List, [], ◌∷◌, ◌++◌, Text, codes, length, take, ltb,
  if◌then◌else◌,
}

-- A part of a line: content, or a fill with its pattern.
pub data Part : Type 0 where
  content : Text → Part
  fill : Text → Part

abbrev st : Text
st = 27 ∷ b'\\' ∷ []

-- `f"{OSC}begin{ST}"` and the like.
abbrev osc : Text → Text
osc body = 27 ∷ (codes "]1332;" ++ (body ++ st))

stretch_parts : List Part → Text
stretch_parts [] = []
stretch_parts (content s ∷ ps) = s ++ stretch_parts ps
stretch_parts (fill pattern ∷ ps) = osc (codes "fill;" ++ pattern) ++ stretch_parts ps

unfoldable pub stretch : List Part → Text
unfolding stretch_parts
stretch ps = osc (codes "begin") ++ (stretch_parts ps ++ osc (codes "end"))

-- `sum(len(p) for p in parts if not isinstance(p, tuple))`
unfoldable pub content_width : List Part → ℕ
content_width [] = 0
content_width (content s ∷ ps) = length s + content_width ps
content_width (fill pattern ∷ ps) = content_width ps

unfoldable pub fill_count : List Part → ℕ
fill_count [] = 0
fill_count (content s ∷ ps) = fill_count ps
fill_count (fill pattern ∷ ps) = suc (fill_count ps)

-- `pattern * n`
unfoldable pub times : Text → ℕ → Text
times pattern zero = []
times pattern (suc n) = pattern ++ times pattern n

-- `free // len(fills) + (1 if nth < free % len(fills) else 0)`
abbrev pub fill_width : ℕ → ℕ → ℕ → ℕ
fill_width free count nth = free / count + (if ltb nth (free % count) then 1 else 0)

-- The loop over the parts.
unfoldable pub fixed_parts : ℕ → ℕ → ℕ → List Part → Text
unfolding times
fixed_parts free count nth [] = []
fixed_parts free count nth (content s ∷ ps) = s ++ fixed_parts free count nth ps
fixed_parts free count nth (fill pattern ∷ ps) =
    take (fill_width free count nth) (times pattern (fill_width free count nth))
    ++ fixed_parts free count (suc nth) ps

unfoldable pub fixed : List Part → ℕ → Text
unfolding content_width fill_count fixed_parts
fixed ps width = take width (fixed_parts (width - content_width ps) (fill_count ps) 0 ps)
