-- ===== src/Tests/Frames.antt =====
-- The replayed screen.
use hexe.Prelude.{
  text_eq, ℕ, ◌+◌, ◌-◌, ◌≡◌, refl, some, none, List, [], ◌∷◌, ◌++◌, Text, codes, arith, show, set,
  pos, negsuc, length,
}
use hexe.Frame.{Row, Screen, new_screen, erase_line, put, index_of, blank_row}
use hexe.Frame.Feed.{csi, Fed, fed, index_error, feed, dump}
use hexe.Frame.Grid.{IsGrid}
use hexe.Frame.Cursor.{erase_line_raises}
use hexe.Frame.Address.{csi-address_zero}
use hexe.Frame.Replay.{Event}

abbrev small : Screen
small = new_screen 4 2

-- A coloured word that wraps, a title, and a cursor address.
abbrev shown : Text
shown =
    (27 ∷ codes "[1;31mhello")
    ++ ((27 ∷ codes "]0;t" ++ 7 ∷ []) ++ ((27 ∷ codes "[2;3HX") ++ (13 ∷ [])))

abbrev final_screen : Screen
final_screen = record {
  cols = 4;
  rows = 2;
  cells = codes "hell" ∷ codes "o X " ∷ [];
  x = pos 0;
  y = pos 1;
}

feed-shown : feed 40 shown small ≡ fed final_screen
unfolding feed hexe.Frame.Feed.step csi hexe.Prelude.starts_with put new_screen
    hexe.Frame.Feed.skip_osc hexe.Frame.Feed.numbers hexe.Frame.Feed.split_params
feed-shown = refl

dump-shown : dump final_screen ≡ codes "hell\no X"
unfolding dump hexe.Prelude.join hexe.Prelude.lstrip
dump-shown = refl

-- A full row: the cursor stands behind the last column.
abbrev full : Screen
full = record { cols = 4; rows = 1; cells = codes "wide" ∷ []; x = pos 4; y = pos 0 }

full-IsGrid : IsGrid full
full-IsGrid = omega arith

erase_line_raises_example : erase_line 1 full ≡ none
erase_line_raises_example = erase_line_raises full full-IsGrid refl

-- The same from text alone.
feed-raises : feed 20 (codes "wide" ++ (27 ∷ codes "[1K")) small ≡ index_error
unfolding feed hexe.Frame.Feed.step put new_screen csi hexe.Prelude.starts_with erase_line
    hexe.Frame.Feed.numbers hexe.Frame.Feed.split_params
feed-raises = refl

csi-address_zero_example :
    (csi (show 0 ++ b';' ∷ show (2 + 1)) b'H' final_screen
      ≡ some (record final_screen { x = pos 2; y = negsuc 0 }))
    × (index_of 2 (negsuc 0) ≡ some (2 - 1))
csi-address_zero_example = csi-address_zero 2 final_screen (omega arith) (omega arith)

-- The address `;3` is row 1, column 3 of a terminal, and row 3 here.
half_address :
    csi (codes ";2") b'H' final_screen ≡ some (record final_screen { x = pos 0; y = pos 1 })
unfolding csi hexe.Prelude.starts_with hexe.Frame.Feed.numbers hexe.Frame.Feed.split_params
half_address = refl

abbrev film : List Event
film =
    record { at = 100; kind = codes "o"; text = shown }
    ∷ record { at = 150; kind = codes "i"; text = codes "K" }
    ∷ []

abbrev later : List Event
later = record { at = 2000; kind = codes "o"; text = codes "late" } ∷ []
