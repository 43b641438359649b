-- ===== src/Film/Script.antt =====
-- scripts/demo/record.py: the demo script, as `Recorder.__init__` reads it.
pub mod Laws
use hexe.Prelude.{
  ℕ, zero, suc, ◌+◌, ◌-◌, ◌*◌, ◌/◌, Bool, true, false, not, ◌&&◌, ◌||◌, Option, none, some, List,
  [], ◌∷◌, ◌++◌, Text, codes, ◌==◌, leb, if◌then◌else◌, length, take, map, drop, text_eq, strip,
  split_on, all_digits, value_from, is_digit,
}
use hexe.Film.{contains}

-- A line that the film plays: its verb, and what follows it.
pub record Line : Type 0 where
  pub verb : Text
  pub rest : Text

-- The speed is in milliseconds per keystroke.
pub record Settings : Type 0 where
  pub cols : ℕ
  pub rows : ℕ
  pub speed : ℕ
  pub name : Text
  pub launch : Option Text
  pub extra_env : List (Text × Text)
  pub lines : List Line

-- `s.partition(sep)`, without the separator.
unfoldable pub partition : ℕ → Text → Text × Text
partition sep [] = ([], [])
partition sep (c ∷ s) =
    let more = partition sep s in if c == sep then ([], s) else (c ∷ more.0, more.1)

-- `int(s)` of unsigned decimal digits, with white space round them; `none` is `ValueError`.
unfoldable pub parse_int : Text → Option ℕ
parse_int s = elim (strip s) [
  | [] ↦ none
  | c ∷ t ↦ if all_digits (c ∷ t) then some (value_from 0 (c ∷ t)) else none
]

-- A decimal fraction in thousandths: three digits of it count.
abbrev thousandths : Text → ℕ
thousandths [] = 0
thousandths (a ∷ []) = (a - 48) * 100
thousandths (a ∷ b ∷ []) = (a - 48) * 100 + (b - 48) * 10
thousandths (a ∷ b ∷ c ∷ s) = (a - 48) * 100 + (b - 48) * 10 + (c - 48)

-- `float(s)` in milliseconds, of a plain decimal such as 0.06.
unfoldable pub parse_seconds : Text → Option ℕ
unfolding partition
parse_seconds s =
    let (whole, fraction) = partition b'.' (strip s) in
    if all_digits whole && all_digits fraction && not (text_eq (whole ++ fraction) [])
    then some (value_from 0 whole * 1000 + thousandths fraction)
    else none

-- `d[k] = v`
unfoldable pub assign_env : Text → Text → List (Text × Text) → List (Text × Text)
assign_env k v [] = (k, v) ∷ []
assign_env k v ((j, w) ∷ more) = if text_eq j k then (k, v) ∷ more else (j, w) ∷ assign_env k v more

abbrev with_cols : Settings → Option ℕ → Option Settings
with_cols s none = none
with_cols s (some n) = some (record s { cols = n })

abbrev with_rows : Settings → Option ℕ → Option Settings
with_rows s none = none
with_rows s (some n) = some (record s { rows = n })

abbrev with_speed : Settings → Option ℕ → Option Settings
with_speed s none = none
with_speed s (some n) = some (record s { speed = n })

-- One line of the file, split at its first space.
unfoldable pub apply_line : Settings → Line → Option Settings
apply_line s l =
    if text_eq l.verb (codes "cols")
    then with_cols s (parse_int l.rest)
    else if text_eq l.verb (codes "rows")
    then with_rows s (parse_int l.rest)
    else if text_eq l.verb (codes "speed")
    then with_speed s (parse_seconds l.rest)
    else if text_eq l.verb (codes "name")
    then some (record s { name = strip l.rest })
    else if text_eq l.verb (codes "launch")
    then some (record s { launch = some (strip l.rest) })
    else if text_eq l.verb (codes "env")
    then some (record s {
      extra_env =
          assign_env (strip (partition b'=' l.rest).0) (partition b'=' l.rest).1 s.extra_env;
    })
    else some (record s { lines = s.lines ++ l ∷ [] })

abbrev pub to_line : Text → Line
to_line raw = record { verb = (partition b' ' raw).0; rest = (partition b' ' raw).1 }

abbrev continue : (Settings → Option Settings) → Option Settings → Option Settings
continue k none = none
continue k (some s) = k s

-- The loop over the file's lines; `none` is the exception that ends it.
unfoldable pub read_lines : Settings → List Text → Option Settings
read_lines s [] = some s
read_lines s (raw ∷ more) = continue (λ t. read_lines t more) (apply_line s (to_line raw))

abbrev last_of : List Text → Text
last_of [] = []
last_of (w ∷ []) = w
last_of (w ∷ v ∷ ws) = last_of (v ∷ ws)

-- `os.path.basename(path)[: -len(".demo")]`
unfoldable pub slug_of : Text → Text
slug_of path = let base = last_of (split_on b'/' path) in take (length base - 5) base

-- `slug.replace("-", "_")[:24]`
unfoldable pub default_name : Text → Text
default_name slug = take 24 (map (λ c. if c == b'-' then b'_' else c) slug)

-- `[a-z0-9]`
abbrev pub is_plain : ℕ → Bool
is_plain c = (leb b'a' c && leb c b'z') || is_digit c

unfoldable pub keep_plain : Text → Text
keep_plain [] = []
keep_plain (c ∷ s) = if is_plain c then c ∷ keep_plain s else keep_plain s

-- `"dem" + re.sub(r"[^a-z0-9]", "", self.slug)[:8]`
unfoldable pub instance_of : Text → Text
unfolding keep_plain
instance_of slug = codes "dem" ++ take 8 (keep_plain slug)

unfoldable pub initial : Text → Settings
unfolding default_name
initial slug = record {
  cols = 240;
  rows = 60;
  speed = 60;
  name = default_name slug;
  launch = none;
  extra_env = [];
  lines = [];
}

abbrev pub names_instance : Text → Bool
names_instance launch = contains (codes " -I ") launch || contains (codes "--instance") launch

-- The launch that the script gives or the default one, with the instance's name on it.
unfoldable pub launch_of : Text → Settings → Text
launch_of slug s =
    let given : Text = elim s.launch [
      | none ↦ codes "terminal new --name " ++ s.name
      | some l ↦ l
    ] in
    if names_instance given then given else given ++ (codes " -I " ++ instance_of slug)
