-- ===== src/Film/Run.antt =====
-- scripts/demo/record.py: `run`, as the sequence of what it does to the pty, to its processes
-- and to the film.
pub mod Filmed
use hexe.Prelude.{
  ℕ, zero, suc, ◌+◌, ◌-◌, Bool, true, false, not, ◌&&◌, ◌||◌, Option, none, some, List, [], ◌∷◌,
  ◌++◌, Text, codes, if◌then◌else◌, text_eq, starts_with, prepend, is_space, non_empty,
}
use hexe.Film.{Bytes, encode_char}
use hexe.Film.Keys.{keyspec}
use hexe.Film.Mouse.{mousespec}
use hexe.Film.Subst.{Names, subst}
use hexe.Film.Script.{Line, Settings, parse_int, parse_seconds, launch_of}

-- Sleeps are in milliseconds.
pub data Act : Type 0 where
  send : Bytes → Act
  sleep : ℕ → Act
  resize : ℕ → Act
  host : Text → Bool → Act
  spawn : Text → Act
  kill_front : Act
  roll : Bool → Act
  write_cast : Act
  cleanup : Act
  report : Act

-- A part of the run that was carried out, or that an exception ended.
pub data Part : Type 0 where
  done : List Act → Part
  dies : List Act → Part

abbrev pub ahead : List Act → Part → Part
ahead acts (done more) = done (acts ++ more)
ahead acts (dies more) = dies (acts ++ more)

abbrev pub and_then : Part → Part → Part
and_then (done acts) p = ahead acts p
and_then (dies acts) p = dies acts

-- `type_text`, of a text that `subst` has gone over.
unfoldable pub type_chars : ℕ → Text → List Act
type_chars speed [] = []
type_chars speed (c ∷ s) = send (encode_char c) ∷ sleep speed ∷ type_chars speed s

unfoldable pub type_text : Names → Settings → Text → List Act
unfolding type_chars
type_text names s text = type_chars s.speed (subst names text)

-- `rest.split()`
split_spaces : Text → List Text
split_spaces [] = [] ∷ []
split_spaces (c ∷ s) = if is_space c then [] ∷ split_spaces s else prepend c (split_spaces s)

unfoldable pub words : Text → List Text
unfolding split_spaces
words s = non_empty (split_spaces s)

abbrev sent_key : Option Bytes → Part
sent_key none = dies []
sent_key (some bytes) = done (send bytes ∷ sleep 450 ∷ [])

unfoldable pub press_keys : List Text → Part
press_keys [] = done []
press_keys (spec ∷ specs) = and_then (sent_key (keyspec spec)) (press_keys specs)

abbrev sent_mouse : Option Bytes → Part
sent_mouse none = dies []
sent_mouse (some bytes) = done (send bytes ∷ sleep 350 ∷ [])

abbrev mouse_at : Option ℕ → Option ℕ → Text → Part
mouse_at (some x) (some y) what = sent_mouse (mousespec x y what)
mouse_at _ _ what = dies []

-- `mousespec(parts[0], parts[1], parts[2])`: fewer words are an `IndexError`.
unfoldable pub move_mouse : List Text → Part
move_mouse (x ∷ y ∷ what ∷ more) = mouse_at (parse_int x) (parse_int y) what
move_mouse _ = dies []

abbrev waited : Option ℕ → Part
waited none = dies []
waited (some ms) = done (sleep ms ∷ [])

-- Comments, empty lines, and the lines that were carried out before the film.
unfoldable pub is_offstage : Line → Bool
is_offstage l =
    text_eq l.verb []
    || starts_with l.verb (codes "#")
    || text_eq l.verb (codes "setup")
    || text_eq l.verb (codes "presh")

-- One line of the film; an unknown verb is `SystemExit`.
unfoldable pub play : Names → Settings → Line → Part
unfolding press_keys move_mouse type_text
play names s l =
    if is_offstage l
    then done []
    else if text_eq l.verb (codes "run")
    then done (type_text names s l.rest ++ (sleep 350 ∷ send (13 ∷ []) ∷ sleep 1100 ∷ []))
    else if text_eq l.verb (codes "type")
    then done (type_text names s l.rest)
    else if text_eq l.verb (codes "key")
    then press_keys (words l.rest)
    else if text_eq l.verb (codes "mouse")
    then move_mouse (words l.rest)
    else if text_eq l.verb (codes "wait")
    then waited (parse_seconds l.rest)
    else if text_eq l.verb (codes "clear")
    then done (type_text names s (codes "clear") ++ (send (13 ∷ []) ∷ sleep 700 ∷ []))
    else if text_eq l.verb (codes "sh")
    then done (host (subst names l.rest) false ∷ sleep 600 ∷ [])
    else if text_eq l.verb (codes "bg")
    then done (host (subst names l.rest) true ∷ sleep 600 ∷ [])
    else if text_eq l.verb (codes "crash")
    then done (kill_front ∷ sleep 1000 ∷ [])
    else if text_eq l.verb (codes "spawn")
    then done (spawn (subst names l.rest) ∷ sleep 3500 ∷ [])
    else dies []

unfoldable pub play_all : Names → Settings → List Line → Part
play_all names s [] = done []
play_all names s (l ∷ ls) = and_then (play names s l) (play_all names s ls)

-- `if verb == "presh": self.host(rest)`
unfoldable pub presh_acts : Names → List Line → List Act
presh_acts names [] = []
presh_acts names (l ∷ ls) =
    if text_eq l.verb (codes "presh")
    then host (subst names l.rest) false ∷ presh_acts names ls
    else presh_acts names ls

-- A setup command is typed behind a space.
unfoldable pub setup_acts : Names → Settings → List Line → List Act
unfolding type_text
setup_acts names s [] = []
setup_acts names s (l ∷ ls) =
    if text_eq l.verb (codes "setup")
    then type_text names s (b' ' ∷ l.rest) ++ (send (13 ∷ []) ∷ sleep 800 ∷ setup_acts names s ls)
    else setup_acts names s ls

-- Everything before the film.
unfoldable pub stage_acts : Names → Text → Settings → List Act
unfolding presh_acts setup_acts type_text
stage_acts names slug s =
    presh_acts names s.lines
    ++ (spawn (subst names (launch_of slug s))
        ∷ sleep 4000
        ∷ (setup_acts names s s.lines
            ++ (type_text names s (codes " clear")
                ++ (send (13 ∷ []) ∷ sleep 1000 ∷ resize (s.rows - 1) ∷ sleep 900 ∷ []))))

abbrev closing : List Act
closing = sleep 800 ∷ roll false ∷ write_cast ∷ cleanup ∷ report ∷ []

-- The handler that `atexit` runs comes last, also after an exception.
abbrev at_exit : Part → List Act
at_exit (done acts) = acts ++ cleanup ∷ []
at_exit (dies acts) = acts ++ cleanup ∷ []

unfoldable pub filming : Names → Settings → Part
unfolding play_all
filming names s =
    ahead (roll true ∷ resize s.rows ∷ sleep 1200 ∷ [])
      (and_then (play_all names s s.lines) (done closing))

-- `run`; `ready` tells whether the binary, the fixture and the shell are there.
unfoldable pub run : Bool → Names → Text → Settings → List Act
unfolding stage_acts filming
run ready names slug s =
    if ready then at_exit (ahead (stage_acts names slug s) (filming names s)) else []
