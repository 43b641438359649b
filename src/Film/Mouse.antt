-- ===== src/Film/Mouse.antt =====
-- scripts/demo/record.py: `mousespec`, in the SGR 1006 encoding.
use hexe.Prelude.{ℕ, Option, List, [], ◌∷◌, ◌++◌, Text, codes, show}
use hexe.Film.{Bytes, find}
use hexe.Film.Tables.{esc}

-- `"\x1b[<%d;%d;%d%s" % (button, x, y, final)`
abbrev pub report : ℕ → ℕ → ℕ → ℕ → Bytes
report button x y final =
    esc (codes "[<" ++ (show button ++ (b';' ∷ (show x ++ (b';' ∷ (show y ++ final ∷ []))))))

-- `seqs`, joined: an action and the reports that it sends.
unfoldable pub sequences : ℕ → ℕ → List (Text × Bytes)
sequences x y =
    (codes "down", report 0 x y b'M')
    ∷ (codes "up", report 0 x y b'm')
    ∷ (codes "click", report 0 x y b'M' ++ report 0 x y b'm')
    ∷ (
      codes "dblclick",
      (report 0 x y b'M' ++ report 0 x y b'm') ++ (report 0 x y b'M' ++ report 0 x y b'm'),
    )
    ∷ (codes "move", report 32 x y b'M')
    ∷ (codes "wheelup", report 64 x y b'M')
    ∷ (codes "wheeldown", report 65 x y b'M')
    ∷ []

-- `none` is `SystemExit`: no such action. The coordinates are read by `int`, by the caller.
unfoldable pub mousespec : ℕ → ℕ → Text → Option Bytes
unfolding sequences find
mousespec x y what = find what (sequences x y)
