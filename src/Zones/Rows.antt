-- ===== src/Zones/Rows.antt =====
-- `bar_rows` of scripts/smoke_status_zones.py on a frame that is made of draws.
use hexe.Prelude.{
  ℕ, suc, ◌+◌, ◌-◌, ◌≡◌, refl, sym, ap, ◌∙◌, Bool, true, false, ◌&&◌, ◌||◌, none, some, List, [],
  ◌∷◌, ◌++◌, append_assoc, append-nil, arith, show, all_digits, expect, all_digits-show, ◌==◌,
  if◌then◌else◌, if-true, if-false, length, length-append, replicate,
}
use hexe.Zones.{
  Bytes, Cup, match_cup, cups, next_cups, next_visible, is_param, params, one_more, match_sgr,
  visible, row_of, rows_at, bar_rows,
}
use hexe.Zones.Draws.{
  Run, Draw, paint, draw, draws, are_params, is_plain, ArePlain, AreDraws, texts, number-show,
  match_cup-sgr,
}

-- Bytes that are no escape character.
abbrev no_escape : Bytes → Bool
no_escape [] = true
no_escape (c ∷ s) = (if c == 0x1b then false else true) && no_escape s

no_escape-params : (s : Bytes) → are_params s ≡ true → no_escape s ≡ true
unfolding is_param
no_escape-params [] h = refl
no_escape-params (c ∷ s) h = ground (arith, h, no_escape-params s)

no_escape-plain : (s : Bytes) → is_plain s ≡ true → no_escape s ≡ true
no_escape-plain [] h = refl
no_escape-plain (c ∷ s) h = ground (arith, h, no_escape-plain s)

no_escape-append :
    (s t : Bytes) → no_escape s ≡ true → no_escape t ≡ true → no_escape (s ++ t) ≡ true
no_escape-append [] t h k = k
no_escape-append (c ∷ s) t h k = ground (arith, h, no_escape-append s t)

-- The search goes past what does not match.
cups_next : (c : ℕ) (s : Bytes) → match_cup (c ∷ s) ≡ none → cups 0 (c ∷ s) ≡ cups 0 s
unfolding cups next_cups
cups_next c s e = ap (next_cups (λ skip. cups skip s) (length s)) e

match_cup-none : (s : Bytes) → expect 0x1b s ≡ none → match_cup s ≡ none
unfolding match_cup
match_cup-none s e = rw e refl

cups-no_escape : (s t : Bytes) → no_escape s ≡ true → cups 0 (s ++ t) ≡ cups 0 t
unfolding expect
cups-no_escape [] t h = refl
cups-no_escape (c ∷ s) t h =
    cups_next c (s ++ t)
      (match_cup-none (c ∷ (s ++ t)) (if-false (c == 0x1b) _ _ (ground (arith, h))))
    ∙ cups-no_escape s t (ground (arith, h))

cups_skip : (s t : Bytes) → cups (length s) (s ++ t) ≡ cups 0 t
unfolding cups
cups_skip [] t = refl
cups_skip (c ∷ s) t = cups_skip s t

-- Runs hold no position.
cups-paint : (rs : List Run) (t : Bytes) → ArePlain rs → cups 0 (paint rs t) ≡ cups 0 t
cups-paint [] t h = refl
cups-paint (r ∷ rs) t (ps, (plain, more)) =
    cups_next 0x1b _ (match_cup-sgr r.sgr (r.text ++ paint rs t) ps)
    ∙ cups-no_escape (b'[' ∷ r.sgr) _ (no_escape-params r.sgr ps)
    ∙ cups-no_escape (b'm' ∷ r.text) (paint rs t) (no_escape-plain r.text plain)
    ∙ cups-paint rs t more

match_cup-draw :
    (d : Draw) (t : Bytes)
    → match_cup (draw d t) ≡ some (record { row = d.row; col = d.col; tail = paint d.runs t })
unfolding match_cup expect
match_cup-draw d t =
    rw
      (
        number-show d.row b';' (show d.col ++ (b'H' ∷ paint d.runs t)) refl,
        number-show d.col b'H' (paint d.runs t) refl,
      )
      refl

cups-draw :
    (d : Draw) (t : Bytes)
    → ArePlain d.runs
    → cups 0 (draw d t)
      ≡ (let m : Cup = record { row = d.row; col = d.col; tail = paint d.runs t } in m ∷ cups 0 t)
unfolding cups next_cups
cups-draw d t h =
    let tail = paint d.runs t in
    let behind = b'[' ∷ (show d.row ++ (b';' ∷ (show d.col ++ (b'H' ∷ [])))) in
    let split : b'[' ∷ (show d.row ++ (b';' ∷ (show d.col ++ (b'H' ∷ tail)))) ≡ behind ++ tail =
      ap (◌∷◌ b'[') (
        ap (λ x. show d.row ++ (b';' ∷ x)) (sym (append_assoc (show d.col) (b'H' ∷ []) tail))
        ∙ sym (append_assoc (show d.row) (b';' ∷ (show d.col ++ (b'H' ∷ []))) tail)) in
    let m : Cup = record { row = d.row; col = d.col; tail = tail } in
    let skipped : length (behind ++ tail) - length tail ≡ length behind =
      omega (arith, length-append behind tail) in
    ap
      (next_cups (λ skip. cups skip (b'[' ∷ (show d.row ++ (b';' ∷ (show d.col ++ (b'H' ∷ tail))))))
        _)
      (match_cup-draw d t)
    ∙ ap (λ x. m ∷ cups (length x - length tail) x) split
    ∙ ap (λ n. m ∷ cups n (behind ++ tail)) skipped
    ∙ ap (◌∷◌ m) (cups_skip behind tail ∙ cups-paint d.runs t h)

visible_skip : (s t : Bytes) → visible (length s) (s ++ t) ≡ visible 0 t
unfolding visible
visible_skip [] t = refl
visible_skip (c ∷ s) t = visible_skip s t

visible-plain : (s t : Bytes) → is_plain s ≡ true → visible 0 (s ++ t) ≡ s ++ visible 0 t
unfolding visible
visible-plain [] t h = refl
visible-plain (c ∷ s) t h =
    if-false (c == 0x1b) _ _ (ground (arith, h))
    ∙ if-false (c == 0x0a || c == 0x0d) _ _ (ground (arith, h))
    ∙ ap (◌∷◌ c) (visible-plain s t (ground (arith, h)))

pub params-m :
    (ps t : Bytes) → are_params ps ≡ true → params (ps ++ (b'm' ∷ t)) ≡ some (length ps + 1)
unfolding params is_param one_more
params-m [] t h = refl
params-m (c ∷ ps) t h =
    if-false (c == b'm') _ _ (ground (arith, h))
    ∙ if-true (is_param c) _ _ (ground (arith, h))
    ∙ ap one_more (params-m ps t (ground (arith, h)))
    ∙ ap some (omega arith)

visible-run :
    (r : Run) (t : Bytes)
    → are_params r.sgr ≡ true
    → is_plain r.text ≡ true
    → visible 0 (0x1b ∷ b'[' ∷ (r.sgr ++ (b'm' ∷ (r.text ++ t)))) ≡ r.text ++ visible 0 t
unfolding visible match_sgr expect next_visible one_more
visible-run r t ps plain =
    let behind = b'[' ∷ (r.sgr ++ (b'm' ∷ [])) in
    let split : b'[' ∷ (r.sgr ++ (b'm' ∷ (r.text ++ t))) ≡ behind ++ (r.text ++ t) =
      ap (◌∷◌ b'[') (sym (append_assoc r.sgr (b'm' ∷ []) (r.text ++ t))) in
    let skipped : suc (length r.sgr + 1) ≡ length behind =
      omega (arith, length-append r.sgr (b'm' ∷ [])) in
    ap
      (λ o.
        next_visible (λ skip. visible skip (b'[' ∷ (r.sgr ++ (b'm' ∷ (r.text ++ t))))) (one_more o))
      (params-m r.sgr (r.text ++ t) ps)
    ∙ ap (visible (suc (length r.sgr + 1))) split
    ∙ ap (λ n. visible n (behind ++ (r.text ++ t))) skipped
    ∙ visible_skip behind (r.text ++ t)
    ∙ visible-plain r.text t plain

visible-paint :
    (rs : List Run) (t : Bytes) → ArePlain rs → visible 0 (paint rs t) ≡ texts rs ++ visible 0 t
visible-paint [] t h = refl
visible-paint (r ∷ rs) t (ps, (plain, more)) =
    visible-run r (paint rs t) ps plain
    ∙ ap (◌++◌ r.text) (visible-paint rs t more)
    ∙ sym (append_assoc r.text (texts rs) (visible 0 t))

params-digits :
    (ds : Bytes) (c : ℕ) (s : Bytes)
    → all_digits ds ≡ true
    → params (c ∷ s) ≡ none
    → params (ds ++ (c ∷ s)) ≡ none
unfolding params is_param one_more
params-digits [] c s h k = k
params-digits (d ∷ ds) c s h k =
    if-false (d == b'm') _ _ (ground (arith, h))
    ∙ if-true (is_param d) _ _ (ground (arith, h))
    ∙ ap one_more (params-digits ds c s (ground (arith, h)) k)

params_semicolon : (s : Bytes) → params s ≡ none → params (b';' ∷ s) ≡ none
unfolding params is_param one_more
params_semicolon s e = ap one_more e

-- The next draw ends the row.
visible-draws : (ds : List Draw) → visible 0 (draws ds) ≡ []
unfolding visible match_sgr expect next_visible one_more
visible-draws [] = refl
visible-draws (d ∷ ds) =
    let tail = paint d.runs (draws ds) in
    let at_end = params-digits (show d.col) b'H' tail (all_digits-show d.col) refl in
    ap
      (λ o.
        next_visible
          (λ skip. visible skip (b'[' ∷ (show d.row ++ (b';' ∷ (show d.col ++ (b'H' ∷ tail))))))
          (one_more o))
      (params-digits (show d.row) b';' (show d.col ++ (b'H' ∷ tail)) (all_digits-show d.row)
        (params_semicolon (show d.col ++ (b'H' ∷ tail)) at_end))

-- The rows as they were drawn: each starts at its column.
abbrev pub drawn_at : ℕ → List Draw → List Bytes
drawn_at rows [] = []
drawn_at rows (d ∷ ds) =
    let rest = drawn_at rows ds in
    if d.row == rows then (replicate (d.col - 1) b' ' ++ texts d.runs) ∷ rest else rest

-- Of a frame that is made of draws (a position, then plain text in SGR sequences), the rows
-- found are those drawn on the last row of the screen, in order, each as the text that is seen,
-- at its column.
pub bar_rows-draws :
    (rows : ℕ) (ds : List Draw) → AreDraws ds → bar_rows rows (draws ds) ≡ drawn_at rows ds
unfolding bar_rows rows_at row_of
bar_rows-draws rows [] h = refl
bar_rows-draws rows (d ∷ ds) (plain, more) =
    let shown : visible 0 (paint d.runs (draws ds)) ≡ texts d.runs =
      visible-paint d.runs (draws ds) plain
      ∙ ap (◌++◌ (texts d.runs)) (visible-draws ds)
      ∙ append-nil (texts d.runs) in
    ap (rows_at rows) (cups-draw d (draws ds) plain)
    ∙ ap
        (λ t.
          if d.row == rows
          then (replicate (d.col - 1) b' ' ++ t) ∷ rows_at rows (cups 0 (draws ds))
          else rows_at rows (cups 0 (draws ds)))
        shown
    ∙ ap (λ r. if d.row == rows then (replicate (d.col - 1) b' ' ++ texts d.runs) ∷ r else r)
        (bar_rows-draws rows ds more)
