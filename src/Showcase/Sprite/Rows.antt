-- ===== src/Showcase/Sprite/Rows.antt =====
-- A terminal that reads a row of the sprite.
use hexe.Prelude.{
  subst, if◌then◌else◌, ◌&&◌, ℕ, ◌≡◌, ◌≢◌, refl, ap, ◌∙◌, inl, inr, Bool, Option, none, some,
  Bool-cases, List, [], ◌∷◌, ◌++◌, append_assoc, map, Text, codes, show, all_digits-show, arith,
  take, ◌==◌, ==_iff,
}
use hexe.Frame.Feed.{Match, match_csi, numbers, split_params}
use hexe.Frame.Address.{match_csi-digits, split_params-last, numbers-show}
use hexe.Showcase.Status.{block}
use hexe.Showcase.Sprite.{
  palette, reset, select_colour, leave, enter, draw_cell, draw_row, art_line, sprite_row,
}

-- A cell of the screen: the colour that was on, and the glyph.
abbrev pub Cell : Type 0
Cell = Option ℕ × ℕ

-- What an SGR sequence does to the colour: 0 takes it off, 38;5;n selects n.
abbrev sgr : List ℕ → Option (Option ℕ)
sgr (n ∷ []) = if n == 0 then some none else none
sgr (a ∷ b ∷ n ∷ []) = if a == 38 && b == 5 then some (some n) else none
sgr _ = none

-- Read in a colour, a text fills cells and leaves a colour on.
pub data Paints : Option ℕ → Text → List Cell → Option ℕ → Type 0 where
  over : {k : Option ℕ} → Paints k [] [] k
  glyph :
      {k last : Option ℕ} {c : ℕ} {s : Text} {cells : List Cell}
      → c ≢ 27
      → Paints k s cells last
      → Paints k (c ∷ s) ((k, c) ∷ cells) last
  coloured :
      {k next last : Option ℕ} {s : Text} {cells : List Cell} (m : Match)
      → match_csi [] s ≡ some m
      → m.final ≡ b'm'
      → sgr (numbers (split_params m.params)) ≡ some next
      → Paints next m.rest cells last
      → Paints k (27 ∷ b'[' ∷ s) cells last

abbrev pub glyph_of : Option ℕ → ℕ
glyph_of none = b' '
glyph_of (some k) = block

abbrev pub cell : Bool → ℕ → Cell
cell shiny c = (palette shiny c, glyph_of (palette shiny c))

Paints-reset :
    (k : Option ℕ) {s : Text} {cells : List Cell} {last : Option ℕ}
    → Paints none s cells last
    → Paints k (reset ++ s) cells last
unfolding match_csi numbers split_params
Paints-reset k {s} p =
    coloured (record { params = codes "0"; final = b'm'; rest = s }) refl refl refl p

numbers_of : (k : ℕ) → numbers (split_params (codes "38;5;" ++ show k)) ≡ 38 ∷ 5 ∷ k ∷ []
unfolding numbers split_params
numbers_of k =
    ap (λ ps. 38 ∷ 5 ∷ numbers ps) (split_params-last (show k) (all_digits-show k))
    ∙ ap (λ ns. 38 ∷ 5 ∷ ns) (numbers-show k [])

Paints-select :
    (j : Option ℕ) (k : ℕ) {s : Text} {cells : List Cell} {last : Option ℕ}
    → Paints (some k) s cells last
    → Paints j (select_colour k ++ s) cells last
unfolding match_csi
Paints-select j k {s} p =
    coloured (record { params = codes "38;5;" ++ show k; final = b'm'; rest = s })
      (ap (λ t. match_csi (codes "38;5;") t) (append_assoc (show k) (codes "m") s)
        ∙ match_csi-digits (codes "38;5;") (show k) (b'm' ∷ s) (all_digits-show k))
      refl (ap sgr (numbers_of k)) p

Paints-leave :
    (prev : Option ℕ) {s : Text} {cells : List Cell} {last : Option ℕ}
    → Paints none s cells last
    → Paints prev (leave prev ++ s) cells last
Paints-leave none p = p
Paints-leave (some k) p = Paints-reset (some k) p

Paints-enter :
    (prev : Option ℕ) (k : ℕ) {s : Text} {cells : List Cell} {last : Option ℕ}
    → Paints (some k) s cells last
    → Paints prev (enter prev k ++ s) cells last
Paints-enter none k p = Paints-select none k p
Paints-enter (some j) k {s} {cells} {last} p = elim (Bool-cases (k == j)) [
  | inl same ↦ rw same (subst (λ n. Paints (some n) s cells last) ((==_iff k j).0 same) p)
  | inr other ↦ rw other (Paints-select (some j) k p)
]

Paints-end : (prev : Option ℕ) → Paints prev (leave prev) [] none
Paints-end none = over
Paints-end (some k) = Paints-reset (some k) over

Paints-cell :
    (colour prev : Option ℕ) (rest : Option ℕ → Text) (cells : List Cell)
    → ((on : Option ℕ) → Paints on (rest on) cells none)
    → Paints prev (draw_cell colour prev rest) ((colour, glyph_of colour) ∷ cells) none
Paints-cell none prev rest cells p = Paints-leave prev (glyph (omega arith) (p none))
Paints-cell (some k) prev rest cells p = Paints-enter prev k (glyph (omega arith) (p (some k)))

-- Drawn from any colour, each cell has its palette's colour, and no colour stays on.
draw_row-Paints :
    (shiny : Bool) (prev : Option ℕ) (s : Text)
    → Paints prev (draw_row shiny prev s) (map (cell shiny) s) none
unfolding draw_row
draw_row-Paints shiny prev [] = Paints-end prev
draw_row-Paints shiny prev (c ∷ s) =
    Paints-cell (palette shiny c) prev _ (map (cell shiny) s) (λ on. draw_row-Paints shiny on s)

-- On a terminal, a row of the sprite is the art's row, cut to the width asked for, each character
-- in its palette's colour; no colour stays on.
pub sprite_row-Paints :
    (width : ℕ) (shiny : Bool) (bob y : ℕ)
    → Paints none
        (sprite_row width shiny bob y)
        (map (cell shiny) (take width (art_line bob y)))
        none
unfolding sprite_row
sprite_row-Paints width shiny bob y = draw_row-Paints shiny none (take width (art_line bob y))
