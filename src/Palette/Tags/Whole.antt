-- ===== src/Palette/Tags/Whole.antt =====
-- All that contrib/palette_demo.py prints, on such a terminal.
use hexe.Prelude.{
  ℕ, zero, suc, ◌≡◌, refl, sym, ap, ◌∙◌, Bool, true, false, ◌&&◌, none, some, List, [], ◌∷◌, ◌++◌,
  append_assoc, append-nil, arith, Text, codes, text_eq, starts_with, show, take, join,
}
use hexe.Palette.{
  Band, bands, indexes, osc, band, starting, set_all, band_all, heading, row, Line, help_lines,
  help, pane_of, pane_line, main,
}
use hexe.Palette.Tags.{Cell, left, selection, tags, shown}
use hexe.Palette.Tags.Bands.{
  no_escape, no_escape-append, no_escape-show, tags-no_escape, tags-row, tags-parts, tags-band,
  seen_row,
}

abbrev pub ArePlain : List Band → Type 0
ArePlain [] = Unit
ArePlain ((slot, label) ∷ more) = (no_escape label ≡ true) × ArePlain more

-- The rows of the bands, each in its own namespace.
abbrev pub seen_bands : List Band → List Cell → List Cell
seen_bands [] rest = rest
seen_bands ((slot, label) ∷ more) rest =
    shown (some (show slot)) (seen_row label) (seen_bands more rest)

tags-band_all :
    (bs : List Band) (t : Text)
    → ArePlain bs
    → tags none 0 (band_all bs ++ t) ≡ seen_bands bs (tags none 0 t)
unfolding band_all
tags-band_all [] t h = refl
tags-band_all ((slot, label) ∷ more) t (plain, h) =
    ap (tags none 0) (append_assoc (band (some slot) label) (band_all more) t)
    ∙ tags-band slot label (band_all more ++ t) none plain
    ∙ ap (shown (some (show slot)) (seen_row label)) (tags-band_all more t h)

-- Giving a band its colours selects nothing.
no_escape-starting :
    (s : Text)
    → no_escape s ≡ true
    → no_escape (join (codes ";") (codes "set" ∷ s ∷ starting indexes)) ≡ true
unfolding join starting show
no_escape-starting s h =
    no_escape-append s (codes ";" ++ join (codes ";") (starting indexes)) h refl

tags-set_all : (bs : List Band) (t : Text) → tags none 0 (set_all bs ++ t) ≡ tags none 0 t
unfolding set_all selection join starts_with text_eq starting
tags-set_all [] t = refl
tags-set_all ((slot, label) ∷ more) t =
    let parts = codes "set" ∷ show slot ∷ starting indexes in
    ap (tags none 0) (append_assoc (osc parts) (set_all more) t)
    ∙ tags-parts none parts (set_all more ++ t)
        (no_escape-starting (show slot) (no_escape-show slot))
    ∙ tags-set_all more t

abbrev pub seen_heading : Text
seen_heading = codes "\n  palette namespaces — same indexes, different namespaces\n\n"

tags-heading : (t : Text) → tags none 0 (heading ++ t) ≡ shown none seen_heading (tags none 0 t)
unfolding heading tags
tags-heading t = refl

-- The lines of help, with the pane's option.
lines_plain : List Line → Bool
lines_plain [] = true
lines_plain ((front, (pane, rest)) ∷ more) = no_escape front && (no_escape rest && lines_plain more)

no_escape-help :
    (pane : Text) (ls : List Line)
    → no_escape pane ≡ true
    → lines_plain ls ≡ true
    → no_escape (help pane ls) ≡ true
unfolding help lines_plain
no_escape-help pane [] h k = refl
no_escape-help pane ((front, (true, rest)) ∷ more) h k =
    no_escape-append front (pane ++ (rest ++ (10 ∷ help pane more))) (ground (arith, k)) (
      no_escape-append pane (rest ++ (10 ∷ help pane more)) h (
        no_escape-append rest (10 ∷ help pane more) (ground (arith, k))
          (no_escape-help pane more h (ground (arith, k)))))
no_escape-help pane ((front, (false, rest)) ∷ more) h k =
    no_escape-append front (rest ++ (10 ∷ help pane more)) (ground (arith, k)) (
      no_escape-append rest (10 ∷ help pane more) (ground (arith, k))
        (no_escape-help pane more h (ground (arith, k))))

no_escape-pane_of : (uuid : Text) → no_escape uuid ≡ true → no_escape (pane_of uuid) ≡ true
unfolding pane_of
no_escape-pane_of [] h = refl
no_escape-pane_of (c ∷ s) h = h

no_escape-take : (n : ℕ) (s : Text) → no_escape s ≡ true → no_escape (take n s) ≡ true
no_escape-take zero s h = refl
no_escape-take (suc n) [] h = refl
no_escape-take (suc n) (c ∷ s) h = ground (arith, h, no_escape-take n s)

no_escape-pane_line : (uuid : Text) → no_escape uuid ≡ true → no_escape (pane_line uuid) ≡ true
unfolding pane_line
no_escape-pane_line [] h = refl
no_escape-pane_line (c ∷ s) h =
    no_escape-append (take 8 (c ∷ s)) (codes "\n") (no_escape-take 8 (c ∷ s) h) refl

-- What is seen behind the bands.
abbrev pub seen_end : Text → Text
seen_end uuid = codes "\n" ++ (help (pane_of uuid) help_lines ++ (pane_line uuid ++ codes "\n"))

no_escape-seen_end : (uuid : Text) → no_escape uuid ≡ true → no_escape (seen_end uuid) ≡ true
unfolding help_lines lines_plain show
no_escape-seen_end uuid h =
    no_escape-append (help (pane_of uuid) help_lines) (pane_line uuid ++ codes "\n")
      (no_escape-help (pane_of uuid) help_lines (no_escape-pane_of uuid h) refl)
      (no_escape-append (pane_line uuid) (codes "\n") (no_escape-pane_line uuid h) refl)

tags-end : tags none 0 (osc (codes "end" ∷ [])) ≡ left none ∷ []
unfolding join selection starts_with text_eq tags
tags-end =
    ap (tags none 0) (sym (append-nil (osc (codes "end" ∷ []))))
    ∙ tags-parts none (codes "end" ∷ []) [] refl

-- In a pane whose identifier has no escape character, on a terminal that knows palette
-- namespaces: each band is written in its own namespace, all the rest in none, and none is left
-- selected at the end.
pub tags-main :
    (uuid : Text)
    → no_escape uuid ≡ true
    → tags none 0 (main uuid)
      ≡ shown none seen_heading (
          seen_bands bands (
            shown none
              (seen_row (codes "unclaimed"))
              (shown none (seen_end uuid) (left none ∷ []))))
unfolding main band
tags-main uuid h =
    let shut = osc (codes "end" ∷ []) in
    let lines = help (pane_of uuid) help_lines in
    let rest = codes "\n" ++ (lines ++ (pane_line uuid ++ (codes "\n" ++ shut))) in
    let last = row (codes "unclaimed") in
    let split : rest ≡ seen_end uuid ++ shut =
      ap (λ s. codes "\n" ++ s)
        (ap (λ s. lines ++ s) (sym (append_assoc (pane_line uuid) (codes "\n") shut))
          ∙ sym (append_assoc lines (pane_line uuid ++ codes "\n") shut)) in
    let closed : tags none 0 rest ≡ shown none (seen_end uuid) (left none ∷ []) =
      ap (tags none 0) split
      ∙ tags-no_escape none (seen_end uuid) shut (no_escape-seen_end uuid h)
      ∙ ap (shown none (seen_end uuid)) tags-end in
    tags-set_all bands (heading ++ (band_all bands ++ (last ++ rest)))
    ∙ tags-heading (band_all bands ++ (last ++ rest))
    ∙ ap (shown none seen_heading) (
        tags-band_all bands (last ++ rest) (refl, (refl, (refl, tt)))
        ∙ ap (seen_bands bands) (
            tags-row none (codes "unclaimed") rest refl
            ∙ ap (shown none (seen_row (codes "unclaimed"))) closed))
