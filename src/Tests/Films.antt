-- ===== src/Tests/Films.antt =====
-- The film recorder.
use hexe.Prelude.{
  ℕ, ◌≡◌, refl, Bool, true, Option, some, none, List, [], ◌∷◌, ◌++◌, Text, codes, map, arith, ◌≤◌,
  length, if◌then◌else◌, ◌==◌,
}
use hexe.Film.{Bytes}
use hexe.Film.Tables.{esc}
use hexe.Film.Keys.{keyspec}
use hexe.Frame.Address.{ReadsAs}
use hexe.Film.Keys.Modifiers.{keyspec_char}
use hexe.Film.Mouse.{mousespec}
use hexe.Film.Subst.{Names, subst}
use hexe.Film.Script.{
  Line, Settings, initial, read_lines, launch_of, names_instance, slug_of, to_line,
}
use hexe.Film.Pump.{Chunk}
use hexe.Film.Cast.{Header, Codec}
use hexe.Film.Run.{play_all, run}
use hexe.Film.Run.Filmed.{casts, done_count, casts-run}

-- `C-M-.`, the chord of the next tab.
keyspec-chord : keyspec (codes "C-M-.") ≡ some (esc (codes "[46;7u"))
unfolding keyspec hexe.Film.Keys.take_modifiers hexe.Film.Keys.key_bytes hexe.Film.Keys.modified_key
    hexe.Film.find hexe.Film.lower hexe.Prelude.text_eq hexe.Prelude.show
keyspec-chord = refl

keyspec-dash : keyspec (codes "C--") ≡ some (esc (codes "[45;5u"))
unfolding keyspec hexe.Film.Keys.take_modifiers hexe.Film.Keys.key_bytes hexe.Film.Keys.modified_key
    hexe.Film.find hexe.Film.lower hexe.Prelude.text_eq hexe.Prelude.show
keyspec-dash = refl

keyspec-arrow : keyspec (codes "S-Up") ≡ some (esc (codes "[1;2A"))
unfolding keyspec hexe.Film.Keys.take_modifiers hexe.Film.Keys.key_bytes hexe.Film.find
    hexe.Film.lower hexe.Prelude.text_eq hexe.Prelude.show
keyspec-arrow = refl

mousespec-click :
    mousespec 12 3 (codes "click") ≡ some (esc (codes "[<0;12;3M") ++ esc (codes "[<0;12;3m"))
unfolding mousespec hexe.Film.Mouse.sequences hexe.Film.find hexe.Prelude.text_eq hexe.Prelude.show
mousespec-click = refl

keyspec_char_example :
    (body : Text) × (keyspec (codes "C-M-.") ≡ some (27 ∷ b'[' ∷ body))
    × ReadsAs body b'u' (46 ∷ 7 ∷ [])
keyspec_char_example = keyspec_char b'C' (b'M' ∷ []) b'.' (refl, (refl, tt)) (omega arith)

abbrev places : Names
places = record {
  work = codes "/tmp/w";
  hexe_bin = codes "/bin/hexe";
  instance_name = codes "demfloats";
}

subst-both :
    subst places (codes "cd $WORK/proj; echo $HEXE_INSTANCE")
    ≡ codes "cd /tmp/w/proj; echo $HEXE_INSTANCE"
unfolding subst hexe.Film.Subst.scan hexe.Film.Subst.find_name hexe.Film.Subst.after_name
subst-both = refl

-- A demo, and what is read of it.
abbrev demo : List Text
demo =
    codes "# a film"
    ∷ codes "cols 120"
    ∷ codes "setup cd /"
    ∷ codes "presh true"
    ∷ codes "run ls"
    ∷ codes "key C-c"
    ∷ codes "speed 0.05"
    ∷ codes "wait 1.5"
    ∷ []

abbrev to_rest : Text → Text → Line
to_rest verb rest = record { verb = verb; rest = rest }

abbrev demo_lines : List Line
demo_lines =
    to_rest (codes "#") (codes "a film")
    ∷ to_rest (codes "setup") (codes "cd /")
    ∷ to_rest (codes "presh") (codes "true")
    ∷ to_rest (codes "run") (codes "ls")
    ∷ to_rest (codes "key") (codes "C-c")
    ∷ to_rest (codes "wait") (codes "1.5")
    ∷ []

abbrev demo_settings : Settings
demo_settings = record {
  cols = 120;
  rows = 60;
  speed = 50;
  name = codes "my_film";
  launch = none;
  extra_env = [];
  lines = demo_lines;
}

read_lines-demo : read_lines (initial (codes "my-film")) demo ≡ some demo_settings
unfolding read_lines hexe.Film.Script.apply_line hexe.Film.Script.partition
    hexe.Film.Script.parse_int hexe.Film.Script.parse_seconds initial hexe.Film.Script.default_name
    hexe.Prelude.text_eq hexe.Prelude.strip hexe.Prelude.value_from
read_lines-demo = refl

slug_of-path : slug_of (codes "scripts/demo/my-film.demo") ≡ codes "my-film"
unfolding slug_of hexe.Prelude.split_on
slug_of-path = refl

abbrev chunk : ℕ → Bytes → Chunk
chunk time bytes = record { time = time; bytes = bytes }

casts-run_example :
    casts (run true places (codes "my-film") demo_settings)
    ≡ done_count (play_all places demo_settings demo_lines)
casts-run_example = casts-run places (codes "my-film") demo_settings

-- A codec for one header, and for events whose text it keeps.
abbrev toy_header : Header
toy_header = record {
  width = 240;
  height = 60;
  timestamp = 0;
  title = codes "hexe: work";
  shell = codes "/bin/sh";
  term = codes "xterm-256color";
}

abbrev until_newline : Text → Text
until_newline [] = []
until_newline (c ∷ s) = if c == 10 then [] else c ∷ until_newline s

abbrev codec : Codec
codec = record {
  dump_header = λ h. codes "{}";
  dump_event = λ e. e.text;
  load_header = λ line. some toy_header;
  load_event = λ line. some (record { at = 0; kind = codes "o"; text = until_newline line });
  decode = λ bytes. bytes;
}

abbrev filmed_chunks : List Chunk
filmed_chunks =
    record { time = 0; bytes = codes "a" } ∷ record { time = 0; bytes = codes "b c" } ∷ []
