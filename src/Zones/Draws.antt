-- ===== src/Zones/Draws.antt =====
-- The rows that scripts/smoke_status_zones.py finds in the draws that a frame is made of.
use hexe.Prelude.{
  ℕ, ◌<◌, ◌≡◌, refl, ap, ◌∙◌, ◌⊎◌, inl, inr, Bool, true, false, ◌&&◌, none, some, List, [], ◌∷◌,
  ◌++◌, arith, Text, show, value_from, value_from-show, all_digits, is_digit, digits,
  digits-all_digits, expect, number, number_of, all_digits-show, length-show, ◌==◌, if◌then◌else◌,
  if-true, if-false, Bool-cases, length,
}
use hexe.Zones.{Bytes, match_cup, is_param}

-- Text behind one SGR sequence.
pub record Run : Type 0 where
  pub sgr : Bytes
  pub text : Bytes

-- One draw: a position and the runs from there.
pub record Draw : Type 0 where
  pub row : ℕ
  pub col : ℕ
  pub runs : List Run

abbrev pub paint : List Run → Bytes → Bytes
paint [] rest = rest
paint (r ∷ rs) rest = 0x1b ∷ b'[' ∷ (r.sgr ++ (b'm' ∷ (r.text ++ paint rs rest)))

abbrev pub draw : Draw → Bytes → Bytes
draw d rest = 0x1b ∷ b'[' ∷ (show d.row ++ (b';' ∷ (show d.col ++ (b'H' ∷ paint d.runs rest))))

abbrev pub draws : List Draw → Bytes
draws [] = []
draws (d ∷ ds) = draw d (draws ds)

abbrev pub are_params : Bytes → Bool
are_params [] = true
are_params (c ∷ s) = is_param c && are_params s

-- Text that is only shown.
abbrev pub is_plain : Bytes → Bool
is_plain [] = true
is_plain (c ∷ s) =
    (if c == 0x1b then false else if c == 0x0a then false else if c == 0x0d then false else true)
    && is_plain s

abbrev pub ArePlain : List Run → Type 0
ArePlain [] = Unit
ArePlain (r ∷ rs) = (are_params r.sgr ≡ true) × ((is_plain r.text ≡ true) × ArePlain rs)

abbrev pub AreDraws : List Draw → Type 0
AreDraws [] = Unit
AreDraws (d ∷ ds) = ArePlain d.runs × AreDraws ds

abbrev pub texts : List Run → Bytes
texts [] = []
texts (r ∷ rs) = r.text ++ texts rs

pub number-show :
    (n c : ℕ) (s : Bytes) → is_digit c ≡ false → number (show n ++ c ∷ s) ≡ some (n, c ∷ s)
unfolding number number_of
number-show n c s k = numbered (show n) (value_from-show n) (length-show n) (all_digits-show n)
  where
    numbered :
        (t : Text)
        → value_from 0 t ≡ n
        → 0 < length t
        → all_digits t ≡ true
        → number (t ++ c ∷ s) ≡ some (n, c ∷ s)
    numbered [] e pos h = absurd (omega arith)
    numbered (d ∷ ds) e pos h =
        ap number_of (digits-all_digits (d ∷ ds) c s h k) ∙ ap (λ m. some (m, c ∷ s)) e

abbrev second : Bytes × Bytes → Bytes
second p = p.1

-- Digits that are not the whole of the parameters leave a parameter or the end.
digits-params :
    (ps s : Bytes)
    → are_params ps ≡ true
    → (qs : Bytes) × ((are_params qs ≡ true) × ((digits (ps ++ b'm' ∷ s)).1 ≡ qs ++ b'm' ∷ s))
unfolding digits
digits-params [] s h = ([], (refl, refl))
digits-params (c ∷ ps) s h = elim (Bool-cases (is_digit c)) [
  | inl d ↦
      let (qs, (ok, e)) = digits-params ps s (ground (arith, h)) in
      (qs, (ok, ap second (if-true (is_digit c) _ _ d) ∙ e))
  | inr d ↦ (c ∷ ps, (h, ap second (if-false (is_digit c) _ _ d)))
]

not_m : (d : ℕ) → is_param d ≡ true → (b'm' == d) ≡ false
unfolding is_param
not_m d h = ground (arith, h)

-- What is left of the parameters after a part of the pattern of a position, where it matches.
abbrev Left : Bytes → Bytes → Type 0
Left s t = (qs : Bytes) × ((are_params qs ≡ true) × (t ≡ qs ++ b'm' ∷ s))

number_of-Left :
    (s : Bytes) (p : Bytes × Bytes)
    → Left s p.1
    → (number_of p ≡ none) ⊎ ((n : ℕ) × ((t : Bytes) × ((number_of p ≡ some (n, t)) × Left s t)))
unfolding number_of
number_of-Left s ([], t) l = inl refl
number_of-Left s (c ∷ cs, t) l = inr (value_from 0 (c ∷ cs), (t, (refl, l)))

expect-Left :
    (d : ℕ) (s t : Bytes)
    → Left s t
    → is_param d ≡ true
    → (expect d t ≡ none) ⊎ ((u : Bytes) × ((expect d t ≡ some u) × Left s u))
unfolding expect
expect-Left d s t ([], (ok, e)) h = inl (rw e (if-false (b'm' == d) _ _ (not_m d h)))
expect-Left d s t (q ∷ qs, (ok, e)) h = elim (Bool-cases (q == d)) [
  | inl same ↦
      inr (qs ++ b'm' ∷ s, (rw e (if-true (q == d) _ _ same), (qs, (ground (arith, ok), refl))))
  | inr other ↦ inl (rw e (if-false (q == d) _ _ other))
]

expect_final : (s t : Bytes) → Left s t → expect b'H' t ≡ none
unfolding expect is_param
expect_final s t ([], (ok, e)) = rw e refl
expect_final s t (q ∷ qs, (ok, e)) = rw e (if-false (q == b'H') _ _ (ground (arith, ok)))

number-Left :
    (s t : Bytes)
    → Left s t
    → (number t ≡ none) ⊎ ((n : ℕ) × ((u : Bytes) × ((number t ≡ some (n, u)) × Left s u)))
unfolding number
number-Left s t (qs, (ok, e)) =
    let (rs, (fine, d)) = digits-params qs s ok in
    number_of-Left s (digits t) (rs, (fine, ap (λ x. second (digits x)) e ∙ d))

-- No position has the parameters of an SGR sequence.
pub match_cup-sgr :
    (ps s : Bytes) → are_params ps ≡ true → match_cup (0x1b ∷ b'[' ∷ ps ++ b'm' ∷ s) ≡ none
unfolding match_cup expect is_param
match_cup-sgr ps s h = elim (number-Left s (ps ++ b'm' ∷ s) (ps, (h, refl))) [
  | inl e ↦ rw e refl
  | inr (n, (t, (e, l))) ↦ elim (expect-Left b';' s t l refl) [
    | inl f ↦ rw (e, f) refl
    | inr (u, (f, k)) ↦ elim (number-Left s u k) [
      | inl g ↦ rw (e, f, g) refl
      | inr (m, (v, (g, j))) ↦ rw (e, f, g, expect_final s v j) refl
    ]
  ]
]
