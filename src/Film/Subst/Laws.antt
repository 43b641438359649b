-- ===== src/Film/Subst/Laws.antt =====
-- Which names `subst` replaces, and what it keeps.
use hexe.Prelude.{ℕ, ◌≡◌, ◌≢◌, refl, ap, ◌∙◌, true, false, [], ◌∷◌, ◌++◌, Text, codes, arith, ◌==◌}
use hexe.Film.Subst.{Names, is_word, after_name, nothing, find_name, subst}

subst-char : (names : Names) (c : ℕ) (s : Text) → c ≢ b'$' → subst names (c ∷ s) ≡ c ∷ subst names s
unfolding subst
subst-char names c s h = let other : (c == b'$') ≡ false = ground arith in rw other

subst-dollar_kept :
    (names : Names) (s : Text)
    → find_name names s ≡ nothing
    → subst names (b'$' ∷ s) ≡ b'$' ∷ subst names s
unfolding subst
subst-dollar_kept names s e = rw e

abbrev NoDollar : Text → Type 0
NoDollar [] = Unit
NoDollar (c ∷ s) = (c ≢ b'$') × NoDollar s

-- A text in front, without a dollar sign, is kept.
subst-NoDollar :
    (names : Names) (s t : Text) → NoDollar s → subst names (s ++ t) ≡ s ++ subst names t
subst-NoDollar names [] t h = refl
subst-NoDollar names (c ∷ s) t h =
    subst-char names c (s ++ t) h.0 ∙ ap (◌∷◌ c) (subst-NoDollar names s t h.1)

-- A longer name that begins with one of the three is kept, up to where it goes on, and the
-- substitution goes on there.
subst-longer_name :
    (names : Names) (c : ℕ) (rest : Text)
    → is_word c ≡ true
    → (subst names (codes "$WORK" ++ c ∷ rest) ≡ codes "$WORK" ++ subst names (c ∷ rest))
      × (subst names (codes "$HEXE" ++ c ∷ rest) ≡ codes "$HEXE" ++ subst names (c ∷ rest))
      × (subst names (codes "$INSTANCE" ++ c ∷ rest) ≡ codes "$INSTANCE" ++ subst names (c ∷ rest))
unfolding find_name after_name
subst-longer_name names c rest h = (
  subst-dollar_kept names (codes "WORK" ++ c ∷ rest) (rw h)
      ∙ ap (◌∷◌ b'$') (subst-NoDollar names (codes "WORK") (c ∷ rest) (omega arith)),
  subst-dollar_kept names (codes "HEXE" ++ c ∷ rest) (rw h)
      ∙ ap (◌∷◌ b'$') (subst-NoDollar names (codes "HEXE") (c ∷ rest) (omega arith)),
  subst-dollar_kept names (codes "INSTANCE" ++ c ∷ rest) (rw h)
      ∙ ap (◌∷◌ b'$') (subst-NoDollar names (codes "INSTANCE") (c ∷ rest) (omega arith)),
)
