-- ===== src/Spans/Evenly.antt =====
-- The line with two fills of scripts/demo_stretch.py, under the check of scripts/smoke_stretch.py.
use hexe.Prelude.{
  ℕ, zero, suc, ◌+◌, ◌-◌, ◌≤◌, ◌<◌, ◌≡◌, refl, sym, ap, ap₂, ◌∙◌, true, false, not, ◌||◌, some,
  List, [], ◌∷◌, ◌++◌, append_assoc, arith, Text, codes, starts_with, ends_with, rstrip, find_at,
  succ, and_then, if-false, length, length-append, length-replicate, take, drop, drop-length-append,
  replicate,
}
use hexe.Stretch.{
  Part, content, fill, times, fill_width, fixed_parts, fixed, content_width, fill_count,
}
use hexe.Spans.{only, evenly, two_fills, is_near, slice}
use hexe.Spans.Fixed.{
  take-times, find_at-replicate, rstrip-last, ends_with-append, only-replicate, spans_width-row,
  take-all, find_at_self, take-replicate,
}

abbrev pub two_fill : List Part
two_fill =
    content (codes "TLA")
    ∷ fill (codes "-")
    ∷ content (codes "TMB")
    ∷ fill (codes "=")
    ∷ content (codes "TRC")
    ∷ []

abbrev drawn_two : ℕ → ℕ → Text
drawn_two l r =
    codes "TLA" ++ (replicate l b'-' ++ (codes "TMB" ++ (replicate r b'=' ++ codes "TRC")))

length-drawn_two : (l r : ℕ) → length (drawn_two l r) ≡ l + r + 9
length-drawn_two l r = omega (
  arith,
  length-append (replicate l b'-') (codes "TMB" ++ (replicate r b'=' ++ codes "TRC")),
  length-append (replicate r b'=') (codes "TRC"),
  length-replicate {A = ℕ} l b'-',
  length-replicate {A = ℕ} r b'=',
)

fixed-two_fill :
    (w l r : ℕ)
    → 9 ≤ w
    → fill_width (w - 9) 2 0 ≡ l
    → fill_width (w - 9) 2 1 ≡ r
    → l + r ≡ w - 9
    → fixed two_fill w ≡ drawn_two l r
unfolding fixed fixed_parts content_width fill_count
fixed-two_fill w l r h left right whole =
    ap₂
      (λ j k. take w (
        codes "TLA"
        ++ (take j (times (codes "-") j)
            ++ (codes "TMB" ++ (take k (times (codes "=") k) ++ codes "TRC")))))
      left right
    ∙ ap₂ (λ s t. take w (codes "TLA" ++ (s ++ (codes "TMB" ++ (t ++ codes "TRC")))))
        (take-times b'-' l) (take-times b'=' r)
    ∙ take-all w (drawn_two l r) (omega (arith, length-drawn_two l r, h, whole))

end_of_two : (l r : ℕ) → find_at (codes "TRC") (drawn_two l r) ≡ some (l + r + 6)
unfolding find_at succ starts_with
end_of_two l r =
    let behind : find_at (codes "TRC") (codes "TMB" ++ (replicate r b'=' ++ codes "TRC"))
        ≡ some (r + 3) =
      ap (λ o. succ (succ (succ o)))
        (find_at-replicate b'T' b'=' r 0 (codes "RC") (codes "TRC") refl refl)
      ∙ ap some (omega arith) in
    ap (λ o. succ (succ (succ o)))
      (find_at-replicate b'T' b'-' l (r + 3) (codes "RC") _ refl behind)
    ∙ ap some (omega arith)

middle_of_two : (l r : ℕ) → find_at (codes "TMB") (drawn_two l r) ≡ some (l + 3)
unfolding find_at succ starts_with
middle_of_two l r =
    ap (λ o. succ (succ (succ o)))
      (find_at-replicate b'T' b'-' l 0 (codes "MB") _ refl
        (find_at_self b'T' (codes "MB") (replicate r b'=' ++ codes "TRC")))
    ∙ ap some (omega arith)

kept_two : (l r : ℕ) → rstrip (drawn_two l r) ≡ drawn_two l r
kept_two l r =
    let front =
      codes "TLA" ++ (replicate l b'-' ++ (codes "TMB" ++ (replicate r b'=' ++ codes "TR"))) in
    let split : drawn_two l r ≡ front ++ codes "C" =
      ap (λ s. codes "TLA" ++ s)
        (ap (λ s. replicate l b'-' ++ (codes "TMB" ++ s))
            (sym (append_assoc (replicate r b'=') (codes "TR") (codes "C")))
          ∙ sym (
              append_assoc (replicate l b'-') (codes "TMB" ++ (replicate r b'=' ++ codes "TR"))
                (codes "C"))) in
    ap rstrip split ∙ rstrip-last front b'C' refl ∙ sym split

ends_two : (l r : ℕ) → ends_with (drawn_two l r) (codes "TRC") ≡ true
ends_two l r =
    let front = codes "TLA" ++ (replicate l b'-' ++ (codes "TMB" ++ replicate r b'=')) in
    let split : front ++ codes "TRC" ≡ drawn_two l r =
      ap (λ s. codes "TLA" ++ s)
        (append_assoc (replicate l b'-') (codes "TMB" ++ replicate r b'=') (codes "TRC")) in
    ap (λ s. ends_with s (codes "TRC")) (sym split) ∙ ends_with-append front (codes "TRC")

left_of_two : (l r : ℕ) → slice 3 (l + 3) (drawn_two l r) ≡ replicate l b'-'
left_of_two l r =
    let rest = codes "TMB" ++ (replicate r b'=' ++ codes "TRC") in
    let width : l + 3 - 3 ≡ l = omega arith in
    ap (λ m. take m (replicate l b'-' ++ rest)) width ∙ take-replicate b'-' l rest

right_of_two : (l r : ℕ) → slice (l + 3 + 3) (l + r + 6) (drawn_two l r) ≡ replicate r b'='
right_of_two l r =
    let front = codes "TLA" ++ (replicate l b'-' ++ codes "TMB") in
    let rest = replicate r b'=' ++ codes "TRC" in
    let split : drawn_two l r ≡ front ++ rest =
      ap (λ s. codes "TLA" ++ s) (sym (append_assoc (replicate l b'-') (codes "TMB") rest)) in
    let place : l + 3 + 3 ≡ length front =
      omega
        (arith, length-append (replicate l b'-') (codes "TMB"), length-replicate {A = ℕ} l b'-') in
    let width : l + r + 6 - (l + 3 + 3) ≡ r = omega arith in
    ap₂ (λ m s. take m (drop (l + 3 + 3) s)) width split
    ∙ ap (λ m. take r (drop m (front ++ rest))) place
    ∙ ap (take r) (drop-length-append front rest)
    ∙ take-replicate b'=' r (codes "TRC")

evenly-replicate :
    (l r : ℕ)
    → 0 < l
    → 0 < r
    → is_near l r ≡ true
    → evenly (replicate l b'-') (replicate r b'=') ≡ some true
unfolding evenly
evenly-replicate zero r h k e = absurd (omega arith)
evenly-replicate (suc l) zero h k e = absurd (omega arith)
evenly-replicate (suc l) (suc r) h k e =
    let both : (not (only b'-' (replicate (suc l) b'-'))
          || not (only b'=' (replicate (suc r) b'=')))
        ≡ false =
      ground (arith, only-replicate b'-' l, only-replicate b'=' r) in
    if-false _ _ _ both
    ∙ ap₂ (λ m n. some (is_near m n)) (length-replicate (suc l) b'-')
        (length-replicate (suc r) b'=')
    ∙ ap some e

evenly_drawn :
    (w l r : ℕ)
    → l + r + 9 ≡ w
    → 0 < l
    → 0 < r
    → is_near l r ≡ true
    → two_fills w (drawn_two l r ∷ []) ≡ some true
unfolding two_fills
evenly_drawn w l r whole left right near =
    let line = drawn_two l r in
    let found =
      spans_width-row w (codes "TLA") (codes "TRC") line (l + r + 6)
        (find_at_self b'T' (codes "LA")
          (replicate l b'-' ++ (codes "TMB" ++ (replicate r b'=' ++ codes "TRC"))))
        (end_of_two l r) (omega arith) (kept_two l r) (ends_two l r)
        (omega (arith, length-drawn_two l r, whole)) in
    ap
      (λ o. and_then o (λ got.
        and_then (find_at (codes "TMB") got.row)
          (λ mid. evenly (slice (got.i + 3) mid got.row) (slice (mid + 3) got.j got.row))))
      found
    ∙ ap (λ o. and_then o (λ mid. evenly (slice 3 mid line) (slice (mid + 3) (l + r + 6) line)))
        (middle_of_two l r)
    ∙ ap₂ evenly (left_of_two l r) (right_of_two l r)
    ∙ evenly-replicate l r left right near

-- Drawn by the demo at any width that leaves each fill a column, the line passes the check that the
-- test makes of a terminal's line: its fills share the width evenly.
pub two_fills-fixed : (w : ℕ) → 11 ≤ w → two_fills w (fixed two_fill w ∷ []) ≡ some true
two_fills-fixed w h =
    let l = fill_width (w - 9) 2 0 in
    let r = fill_width (w - 9) 2 1 in
    let whole : l + r ≡ w - 9 = ground arith in
    let left : 0 < l = ground arith in
    let right : 0 < r = ground arith in
    ap (λ line. two_fills w (line ∷ [])) (fixed-two_fill w l r (omega (arith, h)) refl refl whole)
    ∙ evenly_drawn w l r (omega (arith, h, whole)) left right (ground arith)
