-- ===== src/Painter/Segments.antt =====
-- contrib/painter.py: `fish_truncate` and `battery_text`.
pub mod Paths
use hexe.Prelude.{
  ℕ, zero, suc, ◌+◌, Bool, true, false, not, ◌&&◌, ◌||◌, Option, none, some, List, [], ◌∷◌, ◌++◌,
  Text, codes, text_eq, starts_with, split_on, join, non_empty, strip, length, drop, take, ltb,
  ◌==◌, if◌then◌else◌,
}

abbrev is_empty : Text → Bool
is_empty [] = true
is_empty (c ∷ s) = false

-- `[c[0] for c in parts[:-1]] + [parts[-1]]`
unfoldable pub shorten : List Text → List Text
shorten [] = []
shorten (w ∷ []) = w ∷ []
shorten (w ∷ v ∷ ws) = take 1 w ∷ shorten (v ∷ ws)

-- The path with the home directory at its front replaced.
unfoldable pub from_home : Text → Text → Text
from_home path [] = path
from_home path (h ∷ home) =
    if starts_with path (h ∷ home) then b'~' ∷ drop (length (h ∷ home)) path else path

-- `f"{lead}/{joined}"`, or the first character of the path where it has no component.
unfoldable pub shown_path : Text → Text → List Text → Text
shown_path p lead [] = elim p [ [] ↦ b'/' ∷ [] | c ∷ s ↦ c ∷ [] ]
shown_path p lead (w ∷ ws) = lead ++ b'/' ∷ join (b'/' ∷ []) (shorten (w ∷ ws))

unfoldable pub truncate : Text → Text
unfolding shown_path shorten
truncate [] = shown_path [] [] []
truncate (c ∷ s) =
    if c == b'~'
    then shown_path (c ∷ s) (b'~' ∷ []) (non_empty (split_on b'/' s))
    else shown_path (c ∷ s) [] (non_empty (split_on b'/' (c ∷ s)))

unfoldable pub fish_truncate : Text → Text → Text
unfolding truncate from_home
fish_truncate [] home = b'/' ∷ []
fish_truncate (c ∷ s) home = truncate (from_home (c ∷ s) home)

-- A directory below /sys/class/power_supply: `none` is a file that cannot be read.
pub record Supply : Type 0 where
  pub name : Text
  pub capacity : Option Text
  pub status : Option Text

-- The order of `sorted`, by code points.
abbrev text_lt : Text → Text → Bool
text_lt s [] = false
text_lt [] (y ∷ ys) = true
text_lt (x ∷ xs) (y ∷ ys) = ltb x y || (x == y && text_lt xs ys)

insert_supply : Supply → List Supply → List Supply
insert_supply s [] = s ∷ []
insert_supply s (t ∷ ts) = if text_lt t.name s.name then t ∷ insert_supply s ts else s ∷ t ∷ ts

sort_supplies : List Supply → List Supply
sort_supplies [] = []
sort_supplies (s ∷ ss) = insert_supply s (sort_supplies ss)

abbrev charge_text : Supply → Option Text
charge_text s = elim s.capacity [
  | none ↦ none
  | some pct ↦
      let status : Text = elim s.status [ none ↦ [] | some t ↦ strip t ] in
      some ((if text_eq status (codes "Charging") then b'+' ∷ [] else []) ++ strip pct ++ b'%' ∷ [])
]

-- The first battery decides: its text, or nothing where its capacity cannot be read.
first_battery : List Supply → Option Text
first_battery [] = none
first_battery (s ∷ ss) =
    if starts_with s.name (codes "BAT") then charge_text s else first_battery ss

-- `none` is a directory that cannot be listed.
unfoldable pub battery_text : Option (List Supply) → Option Text
unfolding first_battery sort_supplies insert_supply
battery_text none = none
battery_text (some found) = first_battery (sort_supplies found)
