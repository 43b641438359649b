-- ===== src/Showcase/Sprite.antt =====
-- contrib/painter_showcase.py: `sprite_ansi` and `view_sprite`.
pub mod Rows
use hexe.Prelude.{
  ℕ, zero, suc, ◌+◌, ◌-◌, min, Bool, true, false, Option, none, some, List, [], ◌∷◌, ◌++◌, Text,
  codes, length, take, get_elem?, show, join, leb, ltb, ◌==◌, if◌then◌else◌,
}
use hexe.Painter.{flag}
use hexe.Showcase.{Output, surface, Request, Host, values_of, at_least_one, frame}
use hexe.Showcase.Status.{block, now_of}

-- `GHOST`
abbrev pub ghost : List Text
ghost =
    codes "  ppppp  "
    ∷ codes " ppppppp "
    ∷ codes "pp.ppp.pp"
    ∷ codes "ppwppppwp"
    ∷ codes "ppppppppp"
    ∷ codes "ppppppppp"
    ∷ codes "p p p p p"
    ∷ []

-- `PALETTE` and `SHINY`, on the characters of the art.
abbrev pub palette : Bool → ℕ → Option ℕ
palette shiny c =
    if c == b'p'
    then some (if shiny then 213 else 141)
    else if c == b'.'
    then some 255
    else if c == b'w'
    then some 16
    else none

abbrev pub reset : Text
reset = 27 ∷ codes "[0m"

-- `ESC + "[38;5;" + str(colour) + "m"`
abbrev pub select_colour : ℕ → Text
select_colour k = 27 ∷ b'[' ∷ (codes "38;5;" ++ (show k ++ codes "m"))

-- What leaves a colour, if there is one, and what goes to one from another.
abbrev pub leave : Option ℕ → Text
leave none = []
leave (some k) = reset

abbrev pub enter : Option ℕ → ℕ → Text
enter none k = select_colour k
enter (some j) k = if k == j then [] else select_colour k

-- One cell, with the colour that is on, and the rest of the row by the colour that is on then.
abbrev pub draw_cell : Option ℕ → Option ℕ → (Option ℕ → Text) → Text
draw_cell none prev rest = leave prev ++ b' ' ∷ rest none
draw_cell (some k) prev rest = enter prev k ++ block ∷ rest (some k)

-- The loop over the cells of a row.
unfoldable pub draw_row : Bool → Option ℕ → Text → Text
draw_row shiny prev [] = leave prev
draw_row shiny prev (c ∷ s) = draw_cell (palette shiny c) prev (λ on. draw_row shiny on s)

-- The art of row `y`, which is empty above and below the ghost.
unfoldable pub art_line : ℕ → ℕ → Text
art_line bob y =
    if ltb y bob then [] else (elim (get_elem? ghost (y - bob)) [ none ↦ [] | some l ↦ l ])

unfoldable pub sprite_row : ℕ → Bool → ℕ → ℕ → Text
unfolding draw_row art_line
sprite_row width shiny bob y = draw_row shiny none (take width (art_line bob y))

-- Rows `y`, `y + 1`, …
unfoldable pub sprite_rows : ℕ → ℕ → Bool → ℕ → ℕ → List Text
unfolding sprite_row
sprite_rows zero width shiny bob y = []
sprite_rows (suc n) width shiny bob y =
    sprite_row width shiny bob y ∷ sprite_rows n width shiny bob (suc y)

abbrev pub bob_of : Host → ℕ → ℕ
bob_of host now = if leb 10 (frame host now 20) then 1 else 0

unfoldable pub sprite_ansi : Host → ℕ → ℕ → Bool → ℕ → Text
unfolding sprite_rows
sprite_ansi host width height shiny now =
    join (13 ∷ 10 ∷ []) (sprite_rows height width shiny (bob_of host now) 0)

unfoldable pub view_sprite : Host → Request → Output
unfolding sprite_ansi
view_sprite host req =
    let width = at_least_one 9 req.width in
    let height = at_least_one 7 req.height in
    surface (sprite_ansi host width height (flag (values_of req).sprite_shiny) (now_of req)) width
      height 500
