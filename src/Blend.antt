-- ===== src/Blend.antt =====
-- scripts/demo_blend.py: `parse_state` and `sample`, and in Watch the loop that watches a file.
pub mod Colours
pub mod Watch
use hexe.Prelude.{
  ℕ, ◌+◌, ◌-◌, ◌*◌, Bool, true, false, ◌&&◌, ◌||◌, not, Option, none, some, List, [], ◌∷◌, ◌++◌,
  Text, codes, show, strip, all_digits, value_from, is_digit, leb, ◌==◌, length, replicate,
  if◌then◌else◌, text_eq,
}
use hexe.Film.{find, lower}
use hexe.Film.Script.{parse_int}
use hexe.Film.Run.{words}
use hexe.Frame.Address.{params_of}

-- The `ValueError`s of the code, one for each place that raises.
pub data Error : Type 0 where
  fields : Error
  number : Error
  range : Error
  colour : Error

-- A state that was read: its percentage, its colour's label, and the numbers of its SGR sequence.
pub record State : Type 0 where
  pub percent : ℕ
  pub label : Text
  pub nums : ℕ × List ℕ

pub data Parsed : Type 0 where
  state : State → Parsed
  error : Error → Parsed

-- `ANSI`
abbrev pub ansi : List (Text × ℕ)
ansi =
    (codes "black", 30)
    ∷ (codes "red", 31)
    ∷ (codes "green", 32)
    ∷ (codes "yellow", 33)
    ∷ (codes "blue", 34)
    ∷ (codes "magenta", 35)
    ∷ (codes "cyan", 36)
    ∷ (codes "white", 37)
    ∷ (codes "bright-black", 90)
    ∷ (codes "bright-red", 91)
    ∷ (codes "bright-green", 92)
    ∷ (codes "bright-yellow", 93)
    ∷ (codes "bright-blue", 94)
    ∷ (codes "bright-magenta", 95)
    ∷ (codes "bright-cyan", 96)
    ∷ (codes "bright-white", 97)
    ∷ []

-- `[0-9a-f]`, and what two of them stand for.
abbrev pub is_hex : ℕ → Bool
is_hex c = is_digit c || (leb b'a' c && leb c b'f')

abbrev pub hex_digit : ℕ → ℕ
hex_digit c = if is_digit c then c - 48 else c - 87

abbrev pub hex_pair : ℕ → ℕ → ℕ
hex_pair a b = hex_digit a * 16 + hex_digit b

-- A colour: its label, and the numbers of its SGR sequence.
abbrev pub Colour : Type 0
Colour = Text × (ℕ × List ℕ)

-- `re.fullmatch(r"#[0-9a-f]{6}", color)`
unfoldable pub hex_colour : Text → Option Colour
hex_colour (h ∷ a ∷ b ∷ c ∷ d ∷ e ∷ f ∷ []) =
    if h == b'#' && is_hex a && is_hex b && is_hex c && is_hex d && is_hex e && is_hex f
    then some
        (h ∷ a ∷ b ∷ c ∷ d ∷ e ∷ f ∷ [], (38, 2 ∷ hex_pair a b ∷ hex_pair c d ∷ hex_pair e f ∷ []))
    else none
hex_colour _ = none

abbrev pub named_colour : Text → Option ℕ → Option Colour
named_colour color (some code) = some (color, (code, []))
named_colour color none = hex_colour color

-- `color.isdecimal() and 0 <= int(color) <= 255`
abbrev pub is_index : Text → Bool
is_index color = not (text_eq color []) && all_digits color && leb (value_from 0 color) 255

unfoldable pub colour_of : Text → Option Colour
unfolding hex_colour
colour_of color =
    if is_index color
    then some (codes "ANSI color " ++ show (value_from 0 color), (38, 5 ∷ value_from 0 color ∷ []))
    else named_colour color (find color ansi)

abbrev pub with_colour : ℕ → Option Colour → Parsed
with_colour percent none = error colour
with_colour percent (some (label, nums)) =
    state (record { percent = percent; label = label; nums = nums })

abbrev pub with_percent : Text → Option ℕ → Parsed
with_percent color none = error number
with_percent color (some percent) =
    if leb percent 100 then with_colour percent (colour_of color) else error range

abbrev pub from_fields : List Text → Parsed
from_fields (percent ∷ color ∷ []) = with_percent color (parse_int percent)
from_fields _ = error fields

unfoldable pub parse_state : Text → Parsed
unfolding colour_of
parse_state text = from_fields (words (lower (strip text)))

-- `sgr`
unfoldable pub sgr_of : State → Text
sgr_of s = 27 ∷ b'[' ∷ (params_of s.nums.0 s.nums.1 ++ codes "m")

abbrev osc : Text → Text
osc body = 27 ∷ (codes "]1331;" ++ (body ++ (27 ∷ b'\\' ∷ [])))

abbrev scoped : Option ℕ → Text → Text
scoped none body = body
scoped (some percent) body = osc (codes "use;fg=" ++ show percent) ++ (body ++ osc (codes "end"))

-- `sample`: the label, padded to fourteen columns, and the line in its scope.
unfoldable pub sample : Text → Text → Option ℕ → Text
sample label sgr percent =
    label
    ++ (replicate (14 - length label) b' '
        ++ (b' '
            ∷ scoped percent (
                sgr
                ++ (replicate 20 0x2588 ++ (codes "  The quick brown fox" ++ (27 ∷ codes "[0m"))))))
