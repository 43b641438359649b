-- ===== src/Palette.antt =====
-- contrib/palette_demo.py: the bands that it prints, each in a palette namespace of its own. Slots
-- and indexes are printed in decimal.
pub mod Tags
use hexe.Prelude.{
  ℕ, zero, suc, ◌+◌, ◌-◌, ◌/◌, Bool, true, false, Option, none, some, List, [], ◌∷◌, ◌++◌, Text,
  codes, show, join, length, take, replicate, if◌then◌else◌,
}

-- A slot and its label.
abbrev pub Band : Type 0
Band = ℕ × Text

-- `BANDS`
abbrev pub bands : List Band
bands = (2, codes "slot 2") ∷ (3, codes "slot 3") ∷ (4, codes "slot 4") ∷ []

-- `INDEXES`
abbrev pub indexes : List ℕ
indexes = 1 ∷ 2 ∷ 3 ∷ 4 ∷ 5 ∷ 6 ∷ []

abbrev pub esc : Text → Text
esc s = 0x1b ∷ s

-- `osc(*parts)`
unfoldable pub osc : List Text → Text
unfolding join
osc parts = esc (codes "]1330;" ++ (join (codes ";") parts ++ esc (codes "\\")))

-- `{text:^3}` and `{text:<12}`
unfoldable pub centred : Text → Text
centred s =
    let pad = 3 - length s in replicate (pad / 2) b' ' ++ (s ++ replicate (pad - pad / 2) b' ')

unfoldable pub padded : Text → Text
padded s = s ++ replicate (12 - length s) b' '

unfoldable pub swatch : ℕ → Text
unfolding centred
swatch i =
    esc (codes "[48;5;" ++ (show i ++ codes "m"))
    ++ (esc (codes "[38;5;15m") ++ ((b' ' ∷ (centred (show i) ++ codes " ")) ++ esc (codes "[0m")))

unfoldable pub swatches : List ℕ → Text
unfolding swatch
swatches [] = []
swatches (i ∷ is) = swatch i ++ swatches is

unfoldable pub row : Text → Text
unfolding padded swatches
row label = codes "  " ++ (padded label ++ (swatches indexes ++ codes "\n"))

-- `band(slot, label)`
unfoldable pub band : Option ℕ → Text → Text
unfolding osc row
band none label = row label
band (some slot) label = osc (codes "use" ∷ show slot ∷ []) ++ (row label ++ osc (codes "end" ∷ []))

unfoldable pub starting : List ℕ → List Text
starting [] = []
starting (i ∷ is) = (show i ++ codes "=#444444") ∷ starting is

-- The loops of `main` over the bands.
unfoldable pub set_all : List Band → Text
unfolding osc starting
set_all [] = []
set_all ((slot, label) ∷ more) = osc (codes "set" ∷ show slot ∷ starting indexes) ++ set_all more

unfoldable pub band_all : List Band → Text
unfolding band
band_all [] = []
band_all ((slot, label) ∷ more) = band (some slot) label ++ band_all more

unfoldable pub heading : Text
heading =
    codes "\n"
    ++ (esc (codes "[1m")
        ++ (codes "  palette namespaces — same indexes, different namespaces"
            ++ (esc (codes "[0m") ++ codes "\n\n")))

-- A printed line: a text, then the option for the pane where there is one, and the rest.
abbrev pub Line : Type 0
Line = Text × (Bool × Text)

unfoldable pub recolour : List Band → List Line
recolour [] = []
recolour ((slot, label) ∷ more) =
    (codes "    hexe palette set --ns " ++ (show slot ++ codes " 1=#ff5555 2=#50fa7b"), (true, []))
    ∷ recolour more

-- What the rest of `main` prints, in its order.
unfoldable pub help_lines : List Line
unfolding recolour
help_lines =
    (codes "  This process has exited. The bands above are just cells now.", (false, []))
    ∷ (codes "  Recolour a band from anywhere and watch them change in place:\n", (false, []))
    ∷ (recolour bands
        ++ ((
          codes "\n    hexe palette set --ns 2 bg=#221111",
          (true, codes "       # the band's blanks too"),
        )
            ∷ (
              codes "    hexe palette reset --ns 2",
              (true, codes "                  # back to your theme"),
            )
            ∷ (
              codes "    hexe palette get --ns 2",
              (true, codes "                    # what is actually set"),
            )
            ∷ (codes "\n  Or straight from a shell, no hexe CLI involved:\n", (false, []))
            ∷ (codes "    printf '\\033]1330;set;2;1=#ff00aa\\033\\\\'", (false, []))
            ∷ (
              codes "\n    hexe palette set --ns 0 1=#ff0000",
              (true, codes "   # slot 0 = the ordinary palette"),
            )
            ∷ (
              codes "\n  The `unclaimed` row is the control — until you set slot 0, which is",
              (false, []),
            )
            ∷ (codes "  exactly what it resolves against.", (false, []))
            ∷ (codes "  Scroll them off-screen and back, or detach and reattach, then", (false, []))
            ∷ (
              codes "  recolour again — the tag rides on the cell, not on this process.",
              (false, []),
            )
            ∷ []))

unfoldable pub help : Text → List Line → Text
help pane [] = []
help pane ((front, (true, rest)) ∷ more) = front ++ (pane ++ (rest ++ (10 ∷ help pane more)))
help pane ((front, (false, rest)) ∷ more) = front ++ (rest ++ (10 ∷ help pane more))

-- ` --pane UUID`, or nothing where the variable is not set.
unfoldable pub pane_of : Text → Text
pane_of [] = []
pane_of (c ∷ s) = codes " --pane " ++ (c ∷ s)

unfoldable pub pane_line : Text → Text
pane_line [] = []
pane_line (c ∷ s) = codes "\n  pane " ++ (take 8 (c ∷ s) ++ codes "\n")

-- `main()`, in a pane with this identifier.
unfoldable pub main : Text → Text
unfolding set_all band_all heading band osc help_lines help pane_of pane_line
main uuid =
    set_all bands
    ++ (heading
        ++ (band_all bands
            ++ (band none (codes "unclaimed")
                ++ (codes "\n"
                    ++ (help (pane_of uuid) help_lines
                        ++ (pane_line uuid ++ (codes "\n" ++ osc (codes "end" ∷ []))))))))
