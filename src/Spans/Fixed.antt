-- ===== src/Spans/Fixed.antt =====
-- The lines that scripts/demo_stretch.py draws itself, under the checks that scripts/smoke_stretch.py
-- makes of the lines that a terminal lays out.
use hexe.Prelude.{
  ℕ, zero, suc, ◌+◌, ◌-◌, ◌≤◌, ◌<◌, ◌≡◌, refl, sym, ap, ◌∙◌, true, false, not, ◌&&◌, ◌||◌, none,
  some, List, [], ◌∷◌, ◌++◌, append_assoc, arith, Text, codes, starts_with, ends_with, rstrip,
  lstrip, find_at, succ, and_then, ◌==◌, is_space, ltb, if◌then◌else◌, if-true, if-false, length,
  length-append, length-replicate, take, take-length, take-length-append, replicate,
}
use mathlib.Core.List.{reverse, reverse-append, reverse-reverse}
use hexe.Stretch.{
  Part, content, fill, times, fill_width, fixed_parts, fixed, content_width, fill_count,
}
use hexe.Spans.{
  Span, find, in_order, span_or, reaches, spans_width, only, fill_of, full_width, slice,
}

-- A fill of one character.
pub take-times : (c n : ℕ) → take n (times (c ∷ []) n) ≡ replicate n c
unfolding times
take-times c zero = refl
take-times c (suc n) = ap (◌∷◌ c) (take-times c n)

pub find_at-replicate :
    (p c n m : ℕ) (ps s : Text)
    → (c == p) ≡ false
    → find_at (p ∷ ps) s ≡ some m
    → find_at (p ∷ ps) (replicate n c ++ s) ≡ some (n + m)
unfolding find_at starts_with succ
find_at-replicate p c zero m ps s h e = e ∙ ap some (omega arith)
find_at-replicate p c (suc n) m ps s h e =
    if-false (c == p && starts_with (replicate n c ++ s) ps) _ _ (ground (arith, h))
    ∙ ap succ (find_at-replicate p c n m ps s h e)
    ∙ ap some (omega arith)

-- A text that ends in this character is not stripped.
pub rstrip-last : (s : Text) (c : ℕ) → is_space c ≡ false → rstrip (s ++ (c ∷ [])) ≡ s ++ (c ∷ [])
unfolding lstrip
rstrip-last s c h =
    ap (λ t. reverse (lstrip t)) (reverse-append s (c ∷ []))
    ∙ ap reverse (if-false (is_space c) _ _ h)
    ∙ ap reverse (sym (reverse-append s (c ∷ [])))
    ∙ reverse-reverse (s ++ (c ∷ []))

pub starts_with_self : (p s : Text) → starts_with (p ++ s) p ≡ true
unfolding starts_with
starts_with_self [] [] = refl
starts_with_self [] (c ∷ s) = refl
starts_with_self (c ∷ p) s = ground (arith, starts_with_self p s)

pub ends_with-append : (s end : Text) → ends_with (s ++ end) end ≡ true
unfolding ends_with
ends_with-append s end =
    ap (λ t. starts_with t (reverse end)) (reverse-append s end)
    ∙ starts_with_self (reverse end) (reverse s)

pub only-replicate : (c n : ℕ) → only c (replicate (suc n) c) ≡ true
unfolding only
only-replicate c zero = ground arith
only-replicate c (suc n) = ground (arith, only-replicate c n)

-- One row on the screen, with both markers, that reaches the right edge.
pub spans_width-row :
    (cols : ℕ) (a b row : Text) (j : ℕ)
    → find_at a row ≡ some 0
    → find_at b row ≡ some j
    → 0 < j
    → rstrip row ≡ row
    → ends_with row b ≡ true
    → cols ≤ length row + 1
    → spans_width cols a b (row ∷ []) ≡ some (record { row = row; i = 0; j = j })
unfolding spans_width find span_or in_order reaches
spans_width-row cols a b row j first last pos kept end wide =
    let found : Span = record { row = row; i = 0; j = j } in
    let no_miss : (not (ends_with row b) || ltb (length row) (cols - 1)) ≡ false =
      ground (arith, end, wide) in
    ap (λ o. and_then (span_or (in_order row o (find_at b row)) none) (reaches cols b)) first
    ∙ ap (λ o. and_then (span_or (in_order row (some 0) o) none) (reaches cols b)) last
    ∙ ap (λ o. and_then (span_or o none) (reaches cols b))
        (if-true (ltb 0 j) _ _ (ground (arith, pos)))
    ∙ ap (λ r. if not (ends_with r b) || ltb (length r) (cols - 1) then none else some found) kept
    ∙ if-false (not (ends_with row b) || ltb (length row) (cols - 1)) _ _ no_miss

pub take-all : {A : Type 0} (n : ℕ) (s : List A) → length s ≡ n → take n s ≡ s
take-all n s e = ap (λ m. take m s) (sym e) ∙ take-length s

-- The line with one fill.
abbrev pub one_fill : List Part
one_fill = content (codes "STL") ∷ fill (codes "-") ∷ content (codes "STR") ∷ []

abbrev drawn_one : ℕ → Text
drawn_one n = codes "STL" ++ (replicate n b'-' ++ codes "STR")

length-drawn_one : (n : ℕ) → length (drawn_one n) ≡ n + 6
length-drawn_one n =
    omega (arith, length-append (replicate n b'-') (codes "STR"), length-replicate {A = ℕ} n b'-')

fixed-one_fill : (w : ℕ) → 6 ≤ w → fixed one_fill w ≡ drawn_one (w - 6)
unfolding fixed fixed_parts content_width fill_count
fixed-one_fill w h =
    let n = w - 6 in
    let width : fill_width n 1 0 ≡ n = ground arith in
    ap (λ k. take w (codes "STL" ++ (take k (times (codes "-") k) ++ codes "STR"))) width
    ∙ ap (λ s. take w (codes "STL" ++ (s ++ codes "STR"))) (take-times b'-' n)
    ∙ take-all w (drawn_one n) (omega (arith, length-drawn_one n, h))

pub find_at_self : (p : ℕ) (ps s : Text) → find_at (p ∷ ps) ((p ∷ ps) ++ s) ≡ some 0
unfolding find_at
find_at_self p ps s =
    if-true (starts_with ((p ∷ ps) ++ s) (p ∷ ps)) _ _ (starts_with_self (p ∷ ps) s)

end_of_one : (n : ℕ) → find_at (codes "STR") (drawn_one n) ≡ some (n + 3)
unfolding find_at succ starts_with
end_of_one n =
    ap (λ o. succ (succ (succ o)))
      (find_at-replicate b'S' b'-' n 0 (codes "TR") (codes "STR") refl refl)
    ∙ ap some (omega arith)

kept_one : (n : ℕ) → rstrip (drawn_one n) ≡ drawn_one n
kept_one n =
    let split : drawn_one n ≡ (codes "STL" ++ (replicate n b'-' ++ codes "ST")) ++ codes "R" =
      ap (λ s. codes "STL" ++ s) (sym (append_assoc (replicate n b'-') (codes "ST") (codes "R"))) in
    ap rstrip split
    ∙ rstrip-last (codes "STL" ++ (replicate n b'-' ++ codes "ST")) b'R' refl
    ∙ sym split

pub take-replicate : (c n : ℕ) (s : Text) → take n (replicate n c ++ s) ≡ replicate n c
take-replicate c n s =
    ap (λ m. take m (replicate n c ++ s)) (sym (length-replicate n c))
    ∙ take-length-append (replicate n c) s

fill_of-replicate : (n : ℕ) → 0 < n → fill_of (replicate n b'-') ≡ some n
unfolding fill_of
fill_of-replicate zero h = absurd (omega arith)
fill_of-replicate (suc n) h =
    if-true (only b'-' (replicate (suc n) b'-')) _ _ (only-replicate b'-' n)
    ∙ ap some (length-replicate (suc n) b'-')

-- Drawn by the demo at any width that leaves the fill a column, the line passes the check that the
-- test makes of a terminal's line, with the fill that is left.
pub full_width-fixed : (w : ℕ) → 7 ≤ w → full_width w (fixed one_fill w ∷ []) ≡ some (w - 6)
unfolding full_width
full_width-fixed w h =
    let n = w - 6 in
    let line = drawn_one n in
    let got : Span = record { row = line; i = 0; j = n + 3 } in
    let found =
      spans_width-row w (codes "STL") (codes "STR") line (n + 3)
        (find_at_self b'S' (codes "TL") (replicate n b'-' ++ codes "STR")) (end_of_one n)
        (omega arith) (kept_one n)
        (ends_with-append (codes "STL" ++ replicate n b'-') (codes "STR"))
        (omega (arith, length-drawn_one n, h)) in
    let gap : slice 3 (n + 3) line ≡ replicate n b'-' =
      ap (λ m. take m (replicate n b'-' ++ codes "STR")) (omega arith)
      ∙ take-replicate b'-' n (codes "STR") in
    ap (λ l. full_width w (l ∷ [])) (fixed-one_fill w (omega (arith, h)))
    ∙ ap (λ o. and_then o (λ got. fill_of (slice (got.i + 3) got.j got.row))) found
    ∙ ap fill_of gap
    ∙ fill_of-replicate n (omega (arith, h))
