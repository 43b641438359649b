-- ===== src/Film/Cast.antt =====
-- scripts/demo/record.py and scripts/demo/frame.py: the file between them, which `write_cast` writes
-- and `load` reads. JSON and the decoding of UTF-8 are parameters.
use hexe.Prelude.{
  ℕ, ◌≡◌, Bool, true, false, ◌&&◌, Option, some, List, [], ◌∷◌, ◌++◌, Text, codes, ◌==◌,
  if◌then◌else◌, prepend, is_space,
}
use hexe.Film.{Bytes}
use hexe.Film.Pump.{Chunk}
use hexe.Film.Script.{Settings}
use hexe.Frame.{◌>>=◌}
use hexe.Frame.Replay.{Event}

pub record Header : Type 0 where
  pub width : ℕ
  pub height : ℕ
  pub timestamp : ℕ
  pub title : Text
  pub shell : Text
  pub term : Text

pub record Codec : Type 0 where
  pub dump_header : Header → Text
  pub dump_event : Event → Text
  pub load_header : Text → Option Header
  pub load_event : Text → Option Event
  pub decode : Bytes → Text

abbrev newline : ℕ
newline = 10

-- `write_cast`: the header, with the recording's settings.
unfoldable pub header_of : Settings → Text → Text → ℕ → Header
header_of s slug shell timestamp = record {
  width = s.cols;
  height = s.rows;
  timestamp = timestamp;
  title = codes "hexe: " ++ slug;
  shell = shell;
  term = codes "xterm-256color";
}

unfoldable pub event_of : Codec → Chunk → Event
event_of c e = record { at = e.time; kind = codes "o"; text = c.decode e.bytes }

unfoldable pub event_lines : Codec → List Chunk → Text
unfolding event_of
event_lines c [] = []
event_lines c (e ∷ es) = c.dump_event (event_of c e) ++ (newline ∷ event_lines c es)

unfoldable pub write_cast : Codec → Header → List Chunk → Text
unfolding event_lines
write_cast c header events = c.dump_header header ++ (newline ∷ event_lines c events)

-- The lines of a file, each with its newline.
unfoldable pub lines : Text → List Text
lines [] = []
lines (c ∷ s) = let rest = lines s in if c == newline then (newline ∷ []) ∷ rest else prepend c rest

-- `not line.strip()`
unfoldable pub is_blank : Text → Bool
is_blank [] = true
is_blank (c ∷ s) = is_space c && is_blank s

-- `[json.loads(line) for line in fh if line.strip()]`
unfoldable pub load_events : Codec → List Text → Option (List Event)
unfolding is_blank
load_events c [] = some []
load_events c (l ∷ ls) = do
  es ← load_events c ls
  (if is_blank l then some es else (do e ← c.load_event l; some (e ∷ es)))

first_line : List Text → Text × List Text
first_line [] = ([], [])
first_line (l ∷ ls) = (l, ls)

-- `load(path)`, of the file's text; nothing where a line is no JSON.
unfoldable pub load : Codec → Text → Option (Header × List Event)
unfolding lines load_events first_line
load c text = do
  header ← c.load_header (first_line (lines text)).0
  events ← load_events c (first_line (lines text)).1
  some (header, events)

abbrev pub lacks_newline : Text → Bool
lacks_newline [] = true
lacks_newline (c ∷ s) = (if c == newline then false else true) && lacks_newline s

-- What the two programs rely on of JSON: a value is printed on one line, which is not blank, and
-- that line with its newline reads back as the value.
pub record PrintsHeader (c : Codec) (h : Header) : Type 0 where
  pub one_line : lacks_newline (c.dump_header h) ≡ true
  pub back : c.load_header (c.dump_header h ++ (newline ∷ [])) ≡ some h

pub record PrintsEvent (c : Codec) (e : Event) : Type 0 where
  pub one_line : lacks_newline (c.dump_event e) ≡ true
  pub shown : is_blank (c.dump_event e ++ (newline ∷ [])) ≡ false
  pub back : c.load_event (c.dump_event e ++ (newline ∷ [])) ≡ some e

abbrev pub PrintsEvents : Codec → List Chunk → Type 0
PrintsEvents c [] = Unit
PrintsEvents c (e ∷ es) = PrintsEvent c (event_of c e) × PrintsEvents c es

abbrev pub events_of : Codec → List Chunk → List Event
events_of c [] = []
events_of c (e ∷ es) = event_of c e ∷ events_of c es
