-- ===== src/Film/Tables.antt =====
-- scripts/demo/record.py: the tables of keys and of terminal queries.
use hexe.Prelude.{ℕ, List, [], ◌∷◌, ◌++◌, Text, codes}
use hexe.Film.{Bytes}

-- ESC and the text behind it.
abbrev pub esc : Text → Bytes
esc s = 27 ∷ s

-- `KEYS`
abbrev pub keys : List (Text × Bytes)
keys =
    (codes "enter", 13 ∷ [])
    ∷ (codes "return", 13 ∷ [])
    ∷ (codes "tab", 9 ∷ [])
    ∷ (codes "space", b' ' ∷ [])
    ∷ (codes "escape", 27 ∷ [])
    ∷ (codes "esc", 27 ∷ [])
    ∷ (codes "bspace", 127 ∷ [])
    ∷ (codes "backspace", 127 ∷ [])
    ∷ (codes "up", esc (codes "[A"))
    ∷ (codes "down", esc (codes "[B"))
    ∷ (codes "right", esc (codes "[C"))
    ∷ (codes "left", esc (codes "[D"))
    ∷ (codes "home", esc (codes "[H"))
    ∷ (codes "end", esc (codes "[F"))
    ∷ (codes "pageup", esc (codes "[5~"))
    ∷ (codes "pagedown", esc (codes "[6~"))
    ∷ (codes "delete", esc (codes "[3~"))
    ∷ (codes "insert", esc (codes "[2~"))
    ∷ (codes "f1", esc (codes "OP"))
    ∷ (codes "f2", esc (codes "OQ"))
    ∷ (codes "f3", esc (codes "OR"))
    ∷ (codes "f4", esc (codes "OS"))
    ∷ []

-- `ARROWS`
abbrev pub arrows : List (Text × ℕ)
arrows =
    (codes "up", b'A') ∷ (codes "down", b'B') ∷ (codes "right", b'C') ∷ (codes "left", b'D') ∷ []

-- `KITTY_NAMED`
abbrev pub kitty_named : List (Text × ℕ)
kitty_named =
    (codes "enter", 13)
    ∷ (codes "return", 13)
    ∷ (codes "tab", 9)
    ∷ (codes "escape", 27)
    ∷ (codes "esc", 27)
    ∷ (codes "space", 32)
    ∷ (codes "bspace", 127)
    ∷ (codes "backspace", 127)
    ∷ (codes "comma", 44)
    ∷ (codes "dot", 46)
    ∷ (codes "period", 46)
    ∷ (codes "slash", 47)
    ∷ (codes "semicolon", 59)
    ∷ (codes "minus", 45)
    ∷ (codes "equal", 61)
    ∷ (codes "backslash", 92)
    ∷ (codes "quote", 39)
    ∷ (codes "grave", 96)
    ∷ []

-- `PUNCTUATION`
abbrev pub punctuation : List (Text × Text)
punctuation =
    (codes "comma", codes ",")
    ∷ (codes "dot", codes ".")
    ∷ (codes "period", codes ".")
    ∷ (codes "slash", codes "/")
    ∷ (codes "semicolon", codes ";")
    ∷ (codes "minus", codes "-")
    ∷ (codes "equal", codes "=")
    ∷ (codes "backslash", codes "\\")
    ∷ (codes "quote", 39 ∷ [])
    ∷ (codes "grave", codes "`")
    ∷ []

-- `QUERY_REPLIES`: a terminal's answers to what a program asks when it starts.
abbrev pub query_replies : List (Bytes × Bytes)
query_replies =
    (esc (codes "[?u"), esc (codes "[?1u"))
    ∷ (esc (codes "[c"), esc (codes "[?62;22c"))
    ∷ (esc (codes "[>c"), esc (codes "[>0;10;1c"))
    ∷ (esc (codes "[>0q"), 27 ∷ codes "P>|demo(1)" ++ (27 ∷ b'\\' ∷ []))
    ∷ (esc (codes "[6n"), esc (codes "[1;1R"))
    ∷ []
