-- ===== src/Palette/Tags/Bands.antt =====
-- The bands of contrib/palette_demo.py on such a terminal.
use hexe.Prelude.{
  ℕ, zero, suc, ◌+◌, ◌-◌, ◌/◌, ◌≡◌, refl, sym, ap, ◌∙◌, Bool, true, false, ◌&&◌, Option, none, some,
  List, [], ◌∷◌, ◌++◌, append_assoc, arith, Text, codes, text_eq, starts_with, show, all_digits,
  all_digits-show, expect, and_then, ◌==◌, if◌then◌else◌, if-true, if-false, length, length-append,
  join, replicate,
}
use hexe.Zones.{match_sgr, one_more, is_param}
use hexe.Zones.Rows.{params-m}
use hexe.Zones.Draws.{are_params}
use hexe.Palette.{indexes, esc, osc, centred, padded, swatch, swatches, row, band}
use hexe.Spans.Fixed.{starts_with_self}
use hexe.Palette.Tags.{Cell, cell, osc_body, selection, on_osc, on_sgr, sequence, tags, shown}

abbrev pub no_escape : Text → Bool
no_escape [] = true
no_escape (c ∷ s) = (if c == 0x1b then false else true) && no_escape s

pub no_escape-append :
    (s t : Text) → no_escape s ≡ true → no_escape t ≡ true → no_escape (s ++ t) ≡ true
no_escape-append [] t h k = k
no_escape-append (c ∷ s) t h k = ground (arith, h, no_escape-append s t)

no_escape-digits : (s : Text) → all_digits s ≡ true → no_escape s ≡ true
no_escape-digits [] h = refl
no_escape-digits (c ∷ s) h = ground (arith, h, no_escape-digits s)

pub tags-no_escape :
    (ns : Option Text) (s t : Text)
    → no_escape s ≡ true
    → tags ns 0 (s ++ t) ≡ shown ns s (tags ns 0 t)
unfolding tags
tags-no_escape ns [] t h = refl
tags-no_escape ns (c ∷ s) t h =
    if-false (c == 0x1b) _ _ (ground (arith, h))
    ∙ ap (◌∷◌ (cell c ns)) (tags-no_escape ns s t (ground (arith, h)))

tags_skip : (ns : Option Text) (s t : Text) → tags ns (length s) (s ++ t) ≡ tags ns 0 t
unfolding tags
tags_skip ns [] t = refl
tags_skip ns (c ∷ s) t = tags_skip ns s t

osc_body-st :
    (s t : Text) → no_escape s ≡ true → osc_body (s ++ esc (b'\\' ∷ t)) ≡ some (s, length s + 2)
unfolding osc_body expect
osc_body-st [] t h = refl
osc_body-st (c ∷ s) t h =
    if-false (c == 0x1b) _ _ (ground (arith, h))
    ∙ ap (λ o. and_then o (λ m. some (c ∷ m.0, suc m.1))) (osc_body-st s t (ground (arith, h)))
    ∙ ap (λ n. some (c ∷ s, n)) (omega arith)

-- An OSC sequence shows nothing.
tags-osc :
    (ns : Option Text) (body t : Text)
    → no_escape body ≡ true
    → tags ns 0 (esc (b']' ∷ (body ++ esc (b'\\' ∷ t)))) ≡ tags (selection ns body) 0 t
unfolding tags sequence on_osc
tags-osc ns body t h =
    let behind = b']' ∷ (body ++ esc (b'\\' ∷ [])) in
    let split : b']' ∷ (body ++ esc (b'\\' ∷ t)) ≡ behind ++ t =
      ap (◌∷◌ b']') (sym (append_assoc body (esc (b'\\' ∷ [])) t)) in
    let far : suc (length body + 2) ≡ length behind =
      omega (arith, length-append body (esc (b'\\' ∷ []))) in
    ap (on_osc (λ ns skip. tags ns skip (b']' ∷ (body ++ esc (b'\\' ∷ t)))) ns)
      (osc_body-st body t h)
    ∙ ap (λ n. tags (selection ns body) n (b']' ∷ (body ++ esc (b'\\' ∷ t)))) far
    ∙ ap (tags (selection ns body) (length behind)) split
    ∙ tags_skip (selection ns body) behind t

-- An SGR sequence shows nothing, and selects nothing.
pub tags-sgr :
    (ns : Option Text) (ps t : Text)
    → are_params ps ≡ true
    → tags ns 0 (esc (b'[' ∷ (ps ++ (b'm' ∷ t)))) ≡ tags ns 0 t
unfolding tags sequence on_sgr match_sgr expect one_more
tags-sgr ns ps t h =
    let behind = b'[' ∷ (ps ++ (b'm' ∷ [])) in
    let all = b'[' ∷ (ps ++ (b'm' ∷ t)) in
    let split : all ≡ behind ++ t = ap (◌∷◌ b'[') (sym (append_assoc ps (b'm' ∷ []) t)) in
    let far : suc (length ps + 1) ≡ length behind = omega (arith, length-append ps (b'm' ∷ [])) in
    ap (λ o. on_sgr (λ ns skip. tags ns skip all) ns (one_more o)) (params-m ps t h)
    ∙ ap (λ n. tags ns n all) far
    ∙ ap (tags ns (length behind)) split
    ∙ tags_skip ns behind t

are_params-digits : (s : Text) → all_digits s ≡ true → are_params s ≡ true
unfolding is_param
are_params-digits [] h = refl
are_params-digits (c ∷ s) h = ground (arith, h, are_params-digits s)

no_escape-blanks : (n : ℕ) → no_escape (replicate n b' ') ≡ true
no_escape-blanks zero = refl
no_escape-blanks (suc n) = no_escape-blanks n

pub no_escape-show : (n : ℕ) → no_escape (show n) ≡ true
no_escape-show n = no_escape-digits (show n) (all_digits-show n)

no_escape-surrounded :
    (m n : ℕ) (s : Text)
    → no_escape s ≡ true
    → no_escape (replicate m b' ' ++ (s ++ replicate n b' ')) ≡ true
no_escape-surrounded m n s h =
    no_escape-append (replicate m b' ') (s ++ replicate n b' ') (no_escape-blanks m)
      (no_escape-append s (replicate n b' ') h (no_escape-blanks n))

no_escape-centred : (s : Text) → no_escape s ≡ true → no_escape (centred s) ≡ true
unfolding centred
no_escape-centred s h =
    no_escape-surrounded ((3 - length s) / 2) (3 - length s - (3 - length s) / 2) s h

no_escape-padded : (s : Text) → no_escape s ≡ true → no_escape (padded s) ≡ true
unfolding padded
no_escape-padded s h = no_escape-surrounded 0 (12 - length s) s h

pub shown-append :
    (ns : Option Text) (a b : Text) (rest : List Cell)
    → shown ns (a ++ b) rest ≡ shown ns a (shown ns b rest)
shown-append ns [] b rest = refl
shown-append ns (c ∷ a) b rest = ap (◌∷◌ (cell c ns)) (shown-append ns a b rest)

-- What is seen of a swatch, and of a row.
abbrev pub seen_swatch : ℕ → Text
seen_swatch i = b' ' ∷ (centred (show i) ++ codes " ")

abbrev pub seen_swatches : List ℕ → Text
seen_swatches [] = []
seen_swatches (i ∷ is) = seen_swatch i ++ seen_swatches is

abbrev pub seen_row : Text → Text
seen_row label = codes "  " ++ (padded label ++ (seen_swatches indexes ++ codes "\n"))

no_escape-seen_swatch : (i : ℕ) → no_escape (seen_swatch i) ≡ true
no_escape-seen_swatch i =
    no_escape-append (centred (show i)) (codes " ") (no_escape-centred (show i) (no_escape-show i))
      refl

tags-swatch :
    (ns : Option Text) (i : ℕ) (t : Text)
    → tags ns 0 (swatch i ++ t) ≡ shown ns (seen_swatch i) (tags ns 0 t)
unfolding swatch is_param
tags-swatch ns i t =
    let seen = seen_swatch i in
    let off = esc (codes "[0m") in
    let on = esc (codes "[38;5;15m") in
    let colour = codes "48;5;" ++ show i in
    let split : swatch i ++ t ≡ esc (b'[' ∷ (colour ++ (b'm' ∷ (on ++ (seen ++ (off ++ t)))))) =
      ap (λ s. esc (codes "[48;5;" ++ s))
        (append_assoc (show i ++ codes "m") (on ++ (seen ++ off)) t
          ∙ append_assoc (show i) (codes "m") ((on ++ (seen ++ off)) ++ t)
          ∙ ap (λ s. show i ++ (b'm' ∷ (on ++ s))) (append_assoc seen off t)) in
    ap (tags ns 0) split
    ∙ tags-sgr ns colour _ (are_params-digits (show i) (all_digits-show i))
    ∙ tags-sgr ns (codes "38;5;15") (seen ++ (off ++ t)) refl
    ∙ tags-no_escape ns seen (off ++ t) (no_escape-seen_swatch i)
    ∙ ap (shown ns seen) (tags-sgr ns (codes "0") t refl)

tags-swatches :
    (ns : Option Text) (is : List ℕ) (t : Text)
    → tags ns 0 (swatches is ++ t) ≡ shown ns (seen_swatches is) (tags ns 0 t)
unfolding swatches
tags-swatches ns [] t = refl
tags-swatches ns (i ∷ is) t =
    ap (tags ns 0) (append_assoc (swatch i) (swatches is) t)
    ∙ tags-swatch ns i (swatches is ++ t)
    ∙ ap (shown ns (seen_swatch i)) (tags-swatches ns is t)
    ∙ sym (shown-append ns (seen_swatch i) (seen_swatches is) (tags ns 0 t))

pub tags-row :
    (ns : Option Text) (label t : Text)
    → no_escape label ≡ true
    → tags ns 0 (row label ++ t) ≡ shown ns (seen_row label) (tags ns 0 t)
unfolding row
tags-row ns label t h =
    let front = codes "  " ++ padded label in
    let split : row label ++ t ≡ front ++ (swatches indexes ++ (codes "\n" ++ t)) =
      ap (λ s. codes "  " ++ s)
        (append_assoc (padded label) (swatches indexes ++ codes "\n") t
          ∙ ap (λ s. padded label ++ s) (append_assoc (swatches indexes) (codes "\n") t)) in
    ap (tags ns 0) split
    ∙ tags-no_escape ns front _ (no_escape-padded label h)
    ∙ ap (shown ns front) (
        tags-swatches ns indexes (codes "\n" ++ t)
        ∙ ap (shown ns (seen_swatches indexes)) (tags-no_escape ns (codes "\n") t refl)
        ∙ sym (shown-append ns (seen_swatches indexes) (codes "\n") (tags ns 0 t)))
    ∙ sym (shown-append ns front (seen_swatches indexes ++ codes "\n") (tags ns 0 t))

pub tags-parts :
    (ns : Option Text) (parts : List Text) (t : Text)
    → no_escape (join (codes ";") parts) ≡ true
    → tags ns 0 (osc parts ++ t) ≡ tags (selection ns (codes "1330;" ++ join (codes ";") parts)) 0 t
unfolding osc
tags-parts ns parts t h =
    let body = codes "1330;" ++ join (codes ";") parts in
    ap (λ s. tags ns 0 (esc (codes "]1330;" ++ s)))
      (append_assoc (join (codes ";") parts) (esc (codes "\\")) t)
    ∙ tags-osc ns body t h

-- The namespace of a slot.
selection-use :
    (ns : Option Text) (slot : Text) → selection ns (codes "1330;use;" ++ slot) ≡ some slot
unfolding selection
selection-use ns slot =
    if-true (starts_with (codes "1330;use;" ++ slot) (codes "1330;use;")) (some slot)
      (if text_eq (codes "1330;use;" ++ slot) (codes "1330;end") then none else ns)
      (starts_with_self (codes "1330;use;") slot)

-- A band's row is written in its own namespace, and none is left behind it.
pub tags-band :
    (slot : ℕ) (label t : Text) (ns : Option Text)
    → no_escape label ≡ true
    → tags ns 0 (band (some slot) label ++ t)
      ≡ shown (some (show slot)) (seen_row label) (tags none 0 t)
unfolding band join selection starts_with text_eq
tags-band slot label t ns h =
    let begins = codes "use" ∷ show slot ∷ [] in
    let end = codes "end" ∷ [] in
    let mine = some (show slot) in
    ap (tags ns 0) (
      append_assoc (osc begins) (row label ++ osc end) t
      ∙ ap (λ s. osc begins ++ s) (append_assoc (row label) (osc end) t))
    ∙ tags-parts ns begins (row label ++ (osc end ++ t)) (no_escape-show slot)
    ∙ ap (λ n. tags n 0 (row label ++ (osc end ++ t))) (selection-use ns (show slot))
    ∙ tags-row mine label (osc end ++ t) h
    ∙ ap (shown mine (seen_row label)) (tags-parts mine end t refl)
