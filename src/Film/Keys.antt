-- ===== src/Film/Keys.antt =====
-- scripts/demo/record.py: `keyspec`.
pub mod Modifiers
use hexe.Prelude.{
  ℕ, zero, suc, ◌+◌, ◌-◌, Bool, true, false, ◌&&◌, ◌||◌, Option, none, some, List, [], ◌∷◌, ◌++◌,
  Text, codes, ltb, ◌==◌, if◌then◌else◌, show,
}
use hexe.Film.{Bytes, encode, encode_char, lower, lower_char, find}
use hexe.Film.Tables.{esc, keys, arrows, kitty_named, punctuation}

-- The modifiers that have been read, and what follows them.
pub record Held : Type 0 where
  pub ctrl : Bool
  pub alt : Bool
  pub shift : Bool

abbrev pub none_held : Held
none_held = record { ctrl = false; alt = false; shift = false }

-- `head` of the loop: an upper-case C, M, A or S, or none of them.
abbrev pub upper_head : ℕ → ℕ
upper_head c = if c == b'c' || c == b'm' || c == b's' || c == b'a' then c - 32 else c

abbrev pub is_modifier : ℕ → Bool
is_modifier c =
    upper_head c == b'C' || upper_head c == b'M' || upper_head c == b'S' || upper_head c == b'A'

abbrev pub hold : Held → ℕ → Held
hold h c = record {
  ctrl = h.ctrl || upper_head c == b'C';
  alt = h.alt || upper_head c == b'M' || upper_head c == b'A';
  shift = h.shift || upper_head c == b'S';
}

-- `while len(spec) > 2 and spec[1] == "-" and spec[0] in "CMSAcmsa"`
unfoldable pub take_modifiers : Held → Text → Held × Text
take_modifiers h (c ∷ d ∷ e ∷ spec) =
    let more = take_modifiers (hold h c) (e ∷ spec) in
    if is_modifier c && d == b'-' then more else (h, c ∷ d ∷ e ∷ spec)
take_modifiers h spec = (h, spec)

abbrev pub mods_of : Held → ℕ
mods_of h = 1 + (if h.shift then 1 else 0) + (if h.alt then 2 else 0) + (if h.ctrl then 4 else 0)

-- `"\x1b[%d;%du" % (codepoint, mods)`
abbrev pub kitty : ℕ → ℕ → Bytes
kitty codepoint mods = esc (b'[' ∷ (show codepoint ++ (b';' ∷ (show mods ++ codes "u"))))

-- An unmodified key; `none` is `SystemExit`.
abbrev pub plain_char : Text → Option Bytes
plain_char (c ∷ []) = some (encode_char c)
plain_char _ = none

unfoldable pub plain_key : Text → Option Bytes
plain_key spec = elim (find (lower spec) keys) [
  | some bytes ↦ some bytes
  | none ↦ elim (find (lower spec) punctuation) [
    | some text ↦ some (encode text)
    | none ↦ plain_char spec
  ]
]

abbrev pub modified_char : Text → ℕ → Option Bytes
modified_char (c ∷ []) mods = some (kitty (lower_char c) mods)
modified_char _ mods = none

-- A modified key that is no arrow.
unfoldable pub modified_key : Held → Text → Option Bytes
modified_key h spec = elim (find (lower spec) kitty_named) [
  | some codepoint ↦ some (kitty codepoint (mods_of h))
  | none ↦ elim (find (lower spec) keys) [
    | some base ↦ some (if h.alt then 27 ∷ base else base)
    | none ↦ modified_char spec (mods_of h)
  ]
]

-- `"\x1b[1;%d%s" % (mods, ARROWS[low])`
abbrev pub arrow_bytes : ℕ → ℕ → Bytes
arrow_bytes mods letter = esc (codes "[1;" ++ (show mods ++ letter ∷ []))

unfoldable pub key_bytes : Held → Text → Option Bytes
key_bytes h spec = if mods_of h == 1 then plain_key spec else (elim (find (lower spec) arrows) [
  | some letter ↦ some (arrow_bytes (mods_of h) letter)
  | none ↦ modified_key h spec
])

unfoldable pub keyspec : Text → Option Bytes
keyspec spec = let (h, rest) = take_modifiers none_held spec in key_bytes h rest
