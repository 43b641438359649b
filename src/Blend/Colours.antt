-- ===== src/Blend/Colours.antt =====
-- What a state that is read asks of the terminal.
use mathlib.Core.Option.{some-injective}
use hexe.Prelude.{
  if-true, if-false, subst, ℕ, ◌≤◌, ◌≡◌, refl, sym, ◌∙◌, ◌⊎◌, inl, inr, Bool, true, false, ◌&&◌,
  Option, none, some, List, [], ◌∷◌, Text, arith, leb, ◌==◌, if◌then◌else◌, Bool-cases, text_eq,
  value_from, strip,
}
use hexe.Film.{find, lower}
use hexe.Film.Script.{parse_int}
use hexe.Film.Run.{words}
use hexe.Frame.Address.{ReadsAs, params_of-ReadsAs}
use hexe.Blend.{
  State, Parsed, state, error, ansi, is_hex, hex_pair, Colour, hex_colour, named_colour, is_index,
  colour_of, with_colour, with_percent, from_fields, parse_state, sgr_of,
}

abbrev pub IsBasic : ℕ → Type 0
IsBasic n = ((30 ≤ n) × (n ≤ 37)) ⊎ ((90 ≤ n) × (n ≤ 97))

-- The foreground colours of SGR: the sixteen by name, the palette by index, and by red, green
-- and blue.
pub data IsForeground : ℕ → List ℕ → Type 0 where
  basic : {n : ℕ} → IsBasic n → IsForeground n []
  indexed : {n : ℕ} → n ≤ 255 → IsForeground 38 (5 ∷ n ∷ [])
  rgb : {r g b : ℕ} → r ≤ 255 → g ≤ 255 → b ≤ 255 → IsForeground 38 (2 ∷ r ∷ g ∷ b ∷ [])

abbrev AreBasic : List (Text × ℕ) → Type 0
AreBasic [] = Unit
AreBasic (e ∷ es) = IsBasic e.1 × AreBasic es

find-AreBasic :
    (name : Text) (table : List (Text × ℕ)) (n : ℕ)
    → AreBasic table
    → find name table ≡ some n
    → IsBasic n
unfolding find
find-AreBasic name [] n a h = cc
find-AreBasic name (e ∷ es) n a h = elim (Bool-cases (text_eq e.0 name)) [
  | inl is ↦
      subst IsBasic
        (some-injective e.1 n (sym (if-true (text_eq e.0 name) (some e.1) (find name es) is) ∙ h))
        a.0
  | inr isnt ↦
      find-AreBasic name es n a.1
        (sym (if-false (text_eq e.0 name) (some e.1) (find name es) isnt) ∙ h)
]

ansi-AreBasic : AreBasic ansi
ansi-AreBasic = omega arith

hex_pair_bound : (a b : ℕ) → is_hex a ≡ true → is_hex b ≡ true → hex_pair a b ≤ 255
hex_pair_bound a b h k = ground arith

abbrev Shows : Colour → Type 0
Shows c = IsForeground c.1.0 c.1.1

-- A colour that is found, where there is one.
abbrev AllShow : Option Colour → Type 0
AllShow none = Unit
AllShow (some c) = Shows c

AllShow-if :
    (b : Bool) (c : Colour)
    → (b ≡ true → Shows c)
    → (o : Option Colour) → AllShow o
    → AllShow (if b then some c else o)
AllShow-if true c h o k = h refl
AllShow-if false c h o k = k

hex_colour-AllShow : (color : Text) → AllShow (hex_colour color)
unfolding hex_colour
hex_colour-AllShow [] = tt
hex_colour-AllShow (h ∷ []) = tt
hex_colour-AllShow (h ∷ a ∷ []) = tt
hex_colour-AllShow (h ∷ a ∷ b ∷ []) = tt
hex_colour-AllShow (h ∷ a ∷ b ∷ c ∷ []) = tt
hex_colour-AllShow (h ∷ a ∷ b ∷ c ∷ d ∷ []) = tt
hex_colour-AllShow (h ∷ a ∷ b ∷ c ∷ d ∷ e ∷ []) = tt
hex_colour-AllShow (h ∷ a ∷ b ∷ c ∷ d ∷ e ∷ f ∷ g ∷ s) = tt
hex_colour-AllShow (h ∷ a ∷ b ∷ c ∷ d ∷ e ∷ f ∷ []) =
    AllShow-if (h == b'#' && is_hex a && is_hex b && is_hex c && is_hex d && is_hex e && is_hex f) _
      (λ all.
        six (h == b'#') (is_hex a) (is_hex b) (is_hex c) (is_hex d) (is_hex e) (is_hex f) all
          (λ a' b' c' d' e' f'.
            rgb (hex_pair_bound a b a' b') (hex_pair_bound c d c' d') (hex_pair_bound e f e' f')))
      none tt
  where
    six :
        {P : Type 0} (h a b c d e f : Bool)
        → (h && a && b && c && d && e && f) ≡ true
        → (a ≡ true → b ≡ true → c ≡ true → d ≡ true → e ≡ true → f ≡ true → P)
        → P
    six true true true true true true true all k = k refl refl refl refl refl refl
    six _ _ _ _ _ _ _ all k = cc

named_colour-AllShow :
    (color : Text) (o : Option ℕ)
    → ((n : ℕ) → o ≡ some n → IsBasic n)
    → AllShow (named_colour color o)
named_colour-AllShow color none h = hex_colour-AllShow color
named_colour-AllShow color (some n) h = basic (h n refl)

colour_of-AllShow : (color : Text) → AllShow (colour_of color)
unfolding colour_of
colour_of-AllShow color =
    AllShow-if (is_index color) _ (λ is. indexed (index_bound is)) _
      (named_colour-AllShow color (find color ansi)
        (λ n h. find-AreBasic color ansi n ansi-AreBasic h))
  where
    index_bound : is_index color ≡ true → value_from 0 color ≤ 255
    index_bound is = ground arith

-- What holds of a state that was read.
abbrev pub IsShown : State → Type 0
IsShown s = (s.percent ≤ 100) × IsForeground s.nums.0 s.nums.1

abbrev AllShown : Parsed → Type 0
AllShown (state s) = IsShown s
AllShown (error e) = Unit

with_colour-AllShown :
    (percent : ℕ) (o : Option Colour) → percent ≤ 100 → AllShow o → AllShown (with_colour percent o)
with_colour-AllShown percent none h k = tt
with_colour-AllShown percent (some c) h k = (h, k)

with_percent-AllShown : (color : Text) (o : Option ℕ) → AllShown (with_percent color o)
with_percent-AllShown color none = tt
with_percent-AllShown color (some percent) = elim (Bool-cases (leb percent 100)) [
  | inl is ↦
      rw is
        (with_colour-AllShown percent (colour_of color) (ground arith) (colour_of-AllShow color))
  | inr isnt ↦ rw isnt tt
]

from_fields-AllShown : (fields : List Text) → AllShown (from_fields fields)
from_fields-AllShown [] = tt
from_fields-AllShown (a ∷ []) = tt
from_fields-AllShown (percent ∷ color ∷ []) = with_percent-AllShown color (parse_int percent)
from_fields-AllShown (a ∷ b ∷ c ∷ more) = tt

-- A text that is read as a state has a percentage, and its colour's sequence is one SGR sequence: a
-- terminal reads back the numbers of a foreground colour that it has.
pub parse_state-IsShown :
    (text : Text) (s : State)
    → parse_state text ≡ state s
    → IsShown s
      × (body : Text) × (sgr_of s ≡ 27 ∷ b'[' ∷ body)
      × ReadsAs body b'm' (s.nums.0 ∷ s.nums.1)
unfolding parse_state sgr_of
parse_state-IsShown text s h = (
  subst AllShown h (from_fields-AllShown (words (lower (strip text)))),
  _,
  refl,
  params_of-ReadsAs s.nums.0 s.nums.1,
)
