-- ===== src/Painter/Status/Shows.antt =====
-- A text stands in a longer one, at a column.
use hexe.Prelude.{ℕ, ◌+◌, ◌≡◌, sym, ap, ◌∙◌, ◌++◌, append_assoc, Text, arith, length, length-append}

-- `name` stands in the text at column `x`.
pub record Shows (all : Text) (x : ℕ) (name : Text) : Type 0 where
  pub before : Text
  pub after : Text
  pub split : all ≡ before ++ (name ++ after)
  pub column : length before ≡ x

pub Shows-append :
    {all name : Text} {x : ℕ} (more : Text) → Shows all x name → Shows (all ++ more) x name
Shows-append {all} {name} more s = record {
  before = s.before;
  after = s.after ++ more;
  split =
      ap (λ t. t ++ more) s.split
      ∙ append_assoc s.before (name ++ s.after) more
      ∙ ap (◌++◌ s.before) (append_assoc name s.after more);
  column = s.column;
}

pub Shows-prepend :
    {all name : Text} {x : ℕ} (more : Text) {y : ℕ}
    → length more + x ≡ y
    → Shows all x name
    → Shows (more ++ all) y name
Shows-prepend {all} {name} more e s = record {
  before = more ++ s.before;
  after = s.after;
  split = ap (◌++◌ more) s.split ∙ sym (append_assoc more s.before (name ++ s.after));
  column = omega (arith, length-append more s.before, s.column);
}
