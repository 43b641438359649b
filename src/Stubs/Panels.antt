-- ===== src/Stubs/Panels.antt =====
-- scripts/smoke_decor.py: the painter of the decoration panels.
pub mod Served
use hexe.Prelude.{
  ℕ, zero, suc, Bool, true, false, ◌&&◌, Option, none, some, List, [], ◌∷◌, ◌++◌, Text, codes,
  text_eq, if◌then◌else◌, length, replicate, join,
}
use hexe.Wire.{Bytes}
use hexe.Stubs.{Handler, Ended, serve}

-- `req["context"]["values"]`, as far as it is read.
pub record Values : Type 0 where
  pub edge : Option Text
  pub slot : Option Text

pub record Request : Type 0 where
  pub values : Option Values
  pub width : Option ℕ
  pub height : Option ℕ

-- What `note_asked` writes down.
pub record Entry : Type 0 where
  pub edge : Option Text
  pub slot : Option Text
  pub width : Option ℕ
  pub height : Option ℕ

pub record Button : Type 0 where
  pub width : ℕ
  pub height : ℕ
  pub left : Text

pub data Output : Type 0 where
  surface : Text → ℕ → ℕ → Option Button → Output
  run : List (Text × Text) → ℕ → Output

abbrev Table : Type 0
Table = List ((Text × Text) × Text)

abbrev pub icons : Table
icons =
    ((codes "left", codes "start"), codes "L")
    ∷ ((codes "left", codes "center"), codes "M")
    ∷ ((codes "left", codes "end"), codes "N")
    ∷ ((codes "right", codes "start"), codes "R")
    ∷ ((codes "right", codes "center"), codes "S")
    ∷ ((codes "right", codes "end"), codes "T")
    ∷ []

abbrev pub titles : Table
titles =
    ((codes "top", codes "start"), codes "TSTART")
    ∷ ((codes "top", codes "center"), codes "TCENTER")
    ∷ ((codes "top", codes "end"), codes "TEND")
    ∷ ((codes "bottom", codes "start"), codes "BSTART")
    ∷ ((codes "bottom", codes "center"), codes "BCENTER")
    ∷ ((codes "bottom", codes "end"), codes "BEND")
    ∷ []

find_slot : Text → Text → Table → Option Text
find_slot edge slot [] = none
find_slot edge slot (((e, s), glyph) ∷ more) =
    if text_eq e edge && text_eq s slot then some glyph else find_slot edge slot more

-- `TABLE.get((edge, slot))`, where either may be missing.
unfoldable pub look_up : Table → Option Text → Option Text → Option Text
unfolding find_slot
look_up table none slot = none
look_up table (some edge) none = none
look_up table (some edge) (some slot) = find_slot edge slot table

-- `int(value or 1)`
unfoldable pub or_one : Option ℕ → ℕ
or_one none = 1
or_one (some zero) = 1
or_one (some (suc n)) = suc n

is_center : Option Text → Option Text → Bool
is_center (some edge) (some slot) = text_eq edge (codes "left") && text_eq slot (codes "center")
is_center _ _ = false

-- The strip of one icon, a button in the middle of the left edge.
unfoldable pub strip_of : Text → Option Text → Option Text → Request → Text → Output
unfolding or_one is_center join
strip_of clicked edge slot req icon =
    let w = or_one req.width in
    let h = or_one req.height in
    let button : Button = record { width = w; height = h; left = codes "touch " ++ clicked } in
    surface (join (codes "\r\n") (replicate h icon)) w h
      (if is_center edge slot then some button else none)

or_title : Option Text → Output
or_title none = run [] 0
or_title (some text) = run ((text, codes "fg:15 bg:237") ∷ []) (length text)

or_strip : Text → Option Text → Option Text → Request → Option Text → Output
unfolding strip_of or_title look_up
or_strip clicked edge slot req (some icon) = strip_of clicked edge slot req icon
or_strip clicked edge slot req none = or_title (look_up titles edge slot)

edge_of : Option Values → Option Text
edge_of none = none
edge_of (some v) = v.edge

slot_of : Option Values → Option Text
slot_of none = none
slot_of (some v) = v.slot

-- `answer(req)`: what is noted, and the output.
unfoldable pub answer : Text → Request → Entry × Output
unfolding or_strip edge_of slot_of look_up
answer clicked req =
    let edge = edge_of req.values in
    let slot = slot_of req.values in
    (
      record { edge = edge; slot = slot; width = req.width; height = req.height },
      or_strip clicked edge slot req (look_up icons edge slot),
    )

-- JSON, and the file that a click touches. `loads` gives nothing where `json.loads` raises.
pub record Site : Type 0 where
  pub clicked : Text
  pub loads : Bytes → Option Request
  pub dumps : Output → Bytes

on_request : Site → List Entry → Option Request → Option (List Entry × Option Bytes)
unfolding answer
on_request site asked none = none
on_request site asked (some req) =
    let (entry, output) = answer site.clicked req in
    some (asked ++ entry ∷ [], some (site.dumps output))

-- One request, over what has been noted.
unfoldable pub handle : Site → Handler (List Entry)
unfolding on_request
handle site asked body = on_request site asked (site.loads body)

unfoldable pub serve_stdio : Site → ℕ → Bytes → List Entry → Ended (List Entry)
unfolding handle serve
serve_stdio site fuel stdin asked = serve (handle site) fuel stdin asked []
