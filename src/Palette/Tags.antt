-- ===== src/Palette/Tags.antt =====
-- What a terminal that knows palette namespaces makes of a text: each cell with the namespace that
-- was selected when it was written, and at the end the one that is left.
pub mod Bands
pub mod Whole
use hexe.Prelude.{
  ℕ, zero, suc, ◌+◌, ◌-◌, Bool, true, false, Option, none, some, List, [], ◌∷◌, ◌++◌, Text, codes,
  text_eq, starts_with, expect, and_then, ◌==◌, if◌then◌else◌, length, drop,
}
use hexe.Zones.{match_sgr}

pub data Cell : Type 0 where
  cell : ℕ → Option Text → Cell
  left : Option Text → Cell

-- The body of an OSC sequence, up to ST, and its length with it.
unfoldable pub osc_body : Text → Option (Text × ℕ)
unfolding expect
osc_body [] = none
osc_body (c ∷ s) =
    let more = osc_body s in
    if c == 0x1b
    then and_then (expect b'\\' s) (λ t. some ([], 2))
    else and_then more (λ m. some (c ∷ m.0, suc m.1))

-- The namespace after an OSC sequence: `1330;use;SLOT` selects, `1330;end` releases.
unfoldable pub selection : Option Text → Text → Option Text
unfolding starts_with text_eq
selection ns body =
    if starts_with body (codes "1330;use;")
    then some (drop 9 body)
    else if text_eq body (codes "1330;end")
    then none
    else ns

on_osc : (Option Text → ℕ → List Cell) → Option Text → Option (Text × ℕ) → List Cell
unfolding selection
on_osc rest ns none = rest ns 0
on_osc rest ns (some (body, n)) = rest (selection ns body) (suc n)

on_sgr : (Option Text → ℕ → List Cell) → Option Text → Option ℕ → List Cell
on_sgr rest ns none = rest ns 0
on_sgr rest ns (some n) = rest ns n

-- Behind an escape character.
unfoldable pub sequence : (Option Text → ℕ → List Cell) → Option Text → Text → List Cell
unfolding on_osc on_sgr osc_body match_sgr
sequence rest ns [] = rest ns 0
sequence rest ns (c ∷ s) =
    if c == b']' then on_osc rest ns (osc_body s) else on_sgr rest ns (match_sgr (c ∷ s))

-- The cells of a text, with the number of characters that still belong to a sequence.
unfoldable pub tags : Option Text → ℕ → Text → List Cell
unfolding sequence
tags ns skip [] = left ns ∷ []
tags ns (suc skip) (c ∷ s) = tags ns skip s
tags ns zero (c ∷ s) =
    if c == 0x1b then sequence (λ ns skip. tags ns skip s) ns s else cell c ns ∷ tags ns 0 s

-- Characters that are shown, all in one namespace.
abbrev pub shown : Option Text → Text → List Cell → List Cell
shown ns [] rest = rest
shown ns (c ∷ s) rest = cell c ns ∷ shown ns s rest
