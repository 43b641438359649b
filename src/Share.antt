-- ===== src/Share.antt =====
-- contrib/share-echo.py: `main`, over the lines of a cast, each with its line break. The popup that
-- says where the file is, and the flushes, are not modelled.
pub mod Tainted
use hexe.Prelude.{
  Bool, true, false, Option, none, some, List, [], ◌∷◌, ◌++◌, Text, codes, text_eq, ◌&&◌,
  if◌then◌else◌,
}

-- An element of an event: a text, or any other value.
pub data Value : Type 0 where
  string : Text → Value
  other : Value

-- What `json.loads` makes of a line: an error, something that is no event, or an event by its
-- second and third element.
pub data Parsed : Type 0 where
  undecodable : Parsed
  no_event : Parsed
  event : Value → Value → Parsed

-- JSON: what a line is, and whether the header is an object; none where it does not decode.
pub record Json : Type 0 where
  pub loads : Text → Parsed
  pub is_object : Text → Option Bool

abbrev is_string : Value → Text → Bool
is_string (string s) t = text_eq s t
is_string other t = false

-- `ev[1] == "m" and ev[2] == "password-on"`
abbrev pub is_password : Parsed → Bool
is_password undecodable = false
is_password no_event = false
is_password (event kind what) = is_string kind (codes "m") && is_string what (codes "password-on")

-- One line: it is written, and a password prompt rewinds the file to its header.
unfoldable pub on_line : Json → Text → Text → Text → Text
on_line json header line file = if is_password (json.loads line) then header else file ++ line

-- The loop over the lines.
unfoldable pub on_lines : Json → Text → List Text → Text → Text
unfolding on_line
on_lines json header [] file = file
on_lines json header (line ∷ lines) file =
    on_lines json header lines (on_line json header line file)

-- How the program ends: without a header, by an exception of a header that does not decode or is
-- no object, or with the file that it has written.
pub data Ended : Type 0 where
  no_header : Ended
  bad_header : Ended
  headless : Text → Ended
  published : Text → Ended

abbrev with_header : Json → Text → List Text → Option Bool → Ended
with_header json header lines none = bad_header
with_header json header lines (some false) = headless header
with_header json header lines (some true) = published (on_lines json header lines header)

-- `readline` gives the empty text at the end of the input.
unfoldable pub main : Json → List Text → Ended
unfolding on_lines
main json [] = no_header
main json (header ∷ lines) = with_header json header lines (json.is_object header)
