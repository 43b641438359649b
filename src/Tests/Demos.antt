-- ===== src/Tests/Demos.antt =====
-- The share plugin and the two demos of terminal protocols.
use hexe.Prelude.{
  ◌<◌, ◌≡◌, refl, true, some, none, List, [], ◌∷◌, Text, codes, text_eq, length, arith,
  if◌then◌else◌,
}
use hexe.Frame.Address.{ReadsAs}
use hexe.Share.{Json, undecodable, event, string, main, published}
use hexe.Share.Tainted.{main_published}
use hexe.Stretch.{Part, content, fill, fixed}
use hexe.Spans.{two_fills}
use hexe.Spans.Evenly.{two_fill, two_fills-fixed}
use hexe.Palette
use hexe.Palette.{bands}
use hexe.Palette.Tags.{left, tags, shown}
use hexe.Palette.Tags.Bands.{seen_row}
use hexe.Palette.Tags.Whole.{seen_heading, seen_bands, seen_end, tags-main}
use hexe.Blend.{State, Error, state, parse_state, sgr_of}
use hexe.Blend.Watch
use hexe.Blend.Colours.{IsShown, parse_state-IsShown}

-- Lines of one letter: `p` is a password prompt.
abbrev json : Json
json = record {
  loads = λ line.
      if text_eq line (codes "p")
      then event (string (codes "m")) (string (codes "password-on"))
      else undecodable;
  is_object = λ header. some true;
}

main_published_example :
    main json (codes "H" ∷ codes "a" ∷ codes "p" ∷ codes "b" ∷ codes "c" ∷ [])
    ≡ published (codes "Hbc")
unfolding text_eq
main_published_example =
    main_published json (codes "H") (codes "p") (codes "a" ∷ []) (codes "b" ∷ codes "c" ∷ []) refl
      refl (refl, (refl, tt))

abbrev parts : List Part
parts = content (codes "[ls]") ∷ fill (codes "-") ∷ content (codes "|") ∷ fill (codes "=+") ∷ []

fixed-parts : fixed parts 14 ≡ codes "[ls]-----|=+=+"
unfolding fixed
fixed-parts = refl

abbrev orange : State
orange = record { percent = 65; label = codes "#ff8800"; nums = (38, 2 ∷ 255 ∷ 136 ∷ 0 ∷ []) }

parse_state-orange : parse_state (codes " 65 #FF8800\n") ≡ state orange
unfolding parse_state hexe.Film.Run.words hexe.Prelude.non_empty hexe.Film.lower hexe.Prelude.strip
    hexe.Film.Script.parse_int hexe.Prelude.value_from text_eq hexe.Film.find
parse_state-orange = refl

sgr_of-orange : sgr_of orange ≡ 27 ∷ codes "[38;2;255;136;0m"
unfolding sgr_of hexe.Prelude.show
sgr_of-orange = refl

parse_state-IsShown_example :
    IsShown orange
    × (body : Text) × (sgr_of orange ≡ 27 ∷ b'[' ∷ body)
    × ReadsAs body b'm' (38 ∷ 2 ∷ 255 ∷ 136 ∷ 0 ∷ [])
parse_state-IsShown_example = parse_state-IsShown (codes " 65 #FF8800\n") orange parse_state-orange

-- A file that is not there, twice, then a state, a bad state, and another state.
abbrev reads_of : List Watch.Read
reads_of =
    Watch.fails (codes "gone")
    ∷ Watch.fails (codes "gone")
    ∷ Watch.reads (codes "30 1")
    ∷ Watch.reads (codes "30")
    ∷ []

abbrev said : Text → Error → Text
said text e = codes "bad"

two_fills-fixed_example : two_fills 80 (fixed two_fill 80 ∷ []) ≡ some true
two_fills-fixed_example = two_fills-fixed 80 (omega arith)

-- A width that is too small leaves the second fill no column, which the check does not accept.
two_fills-narrow : two_fills 10 (fixed two_fill 10 ∷ []) ≡ none
unfolding two_fills fixed hexe.Prelude.lstrip
two_fills-narrow = refl

tags-main_example :
    tags none 0 (Palette.main (codes "0a1b2c3d4e"))
    ≡ shown none seen_heading (
        seen_bands bands (
          shown none
            (seen_row (codes "unclaimed"))
            (shown none (seen_end (codes "0a1b2c3d4e")) (left none ∷ []))))
tags-main_example = tags-main (codes "0a1b2c3d4e") refl
