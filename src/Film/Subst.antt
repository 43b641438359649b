-- ===== src/Film/Subst.antt =====
-- scripts/demo/record.py: `subst`, which replaces `$WORK`, `$HEXE` and `$INSTANCE`.
pub mod Laws
use hexe.Prelude.{
  ℕ, zero, suc, ◌+◌, ◌≤◌, ◌≡◌, ◌≢◌, refl, sym, ap, ◌∙◌, inl, inr, Bool, true, false, not, ◌&&◌,
  ◌||◌, Option, none, some, List, [], ◌∷◌, ◌++◌, Text, codes, arith, ◌==◌, leb, if◌then◌else◌,
  length, Bool-cases,
}

-- What the three names stand for.
pub record Names : Type 0 where
  pub work : Text
  pub hexe_bin : Text
  pub instance_name : Text

-- `[A-Za-z0-9_]`
abbrev pub is_word : ℕ → Bool
is_word c =
    (leb b'A' c && leb c b'Z')
    || (leb b'a' c && leb c b'z')
    || (leb b'0' c && leb c b'9')
    || c == b'_'

-- `(?![A-Za-z0-9_])`
abbrev pub ends_name : Text → Bool
ends_name [] = true
ends_name (c ∷ s) = not (is_word c)

-- What stands behind a name at the front of a text that the name ends there.
unfoldable pub after_name : Text → Text → Option Text
after_name [] s = if ends_name s then some s else none
after_name (n ∷ ns) [] = none
after_name (n ∷ ns) (c ∷ s) = if n == c then after_name ns s else none

-- The first of the three names that stands here: its value, and what follows.
pub data Found : Type 0 where
  found : Text → Text → Found
  nothing : Found

abbrev pub or_found : Option Text → Text → Found → Found
or_found none v other = other
or_found (some rest) v other = found v rest

unfoldable pub find_name : Names → Text → Found
find_name names s = or_found (after_name (codes "WORK") s) names.work (
    or_found (after_name (codes "HEXE") s) names.hexe_bin
      (or_found (after_name (codes "INSTANCE") s) names.instance_name nothing))

abbrev pub replaced : (Text → Text) → ℕ → Text → Found → Text
replaced k c s (found v rest) = v ++ k rest
replaced k c s nothing = c ∷ k s

-- The scan of `re.sub`; each round takes a character, so the text's length is fuel enough.
unfoldable pub scan : Names → ℕ → Text → Text
scan names zero s = []
scan names (suc f) [] = []
scan names (suc f) (c ∷ s) =
    let plain = c ∷ scan names f s in
    let named = replaced (scan names f) c s (find_name names s) in
    if c == b'$' then named else plain

unfoldable pub subst : Names → Text → Text
unfolding scan
subst names s = scan names (length s) s
