-- ===== src/Prelude/Scans.antt =====
-- What the programs use of regular expressions over bytes.
use Prim.Native.Nat.{ℕ, zero, suc, ◌-◌}
use mathlib.Core.Path.{◌≡◌, ap, ◌∙◌}
use mathlib.Core.Bool.{true, false}
use mathlib.Core.Option.{Option, none, some}
use mathlib.Core.List.{List, [], ◌∷◌, ◌++◌}
use native.Mathlib.Omega.{arith}
use hexe.Prelude.Tests.{◌==◌, if◌then◌else◌, if-true, if-false}
use hexe.Prelude.Codes.{Text}
use hexe.Prelude.Strings.{is_digit, all_digits, value_from}
use hexe.Prelude.Lists.{length}

-- The digits at the front, and what is behind them.
unfoldable pub digits : Text → Text × Text
digits [] = ([], [])
digits (c ∷ s) =
    let (front, rest) = digits s in if is_digit c then (c ∷ front, rest) else ([], c ∷ s)

-- One character of a pattern.
unfoldable pub expect : ℕ → Text → Option Text
expect d [] = none
expect d (c ∷ s) = if c == d then some s else none

-- `\d+`, with its number.
unfoldable pub number_of : Text × Text → Option (ℕ × Text)
unfolding value_from
number_of ([], s) = none
number_of (c ∷ cs, s) = some (value_from 0 (c ∷ cs), s)

unfoldable pub number : Text → Option (ℕ × Text)
unfolding digits number_of
number s = number_of (digits s)

abbrev pub and_then {ℓ κ} : {A : Type ℓ} {B : Type κ} → Option A → (A → Option B) → Option B
and_then none f = none
and_then (some a) f = f a

abbrev pub or_else {ℓ} : {A : Type ℓ} → Option A → Option A → Option A
or_else none other = other
or_else (some a) other = some a

module _ {A : Type 0} where
  unfoldable pub next_found : (ℕ → List (A × Text)) → ℕ → Option (A × Text) → List (A × Text)
  next_found rest n none = rest 0
  next_found rest n (some (a, tail)) = (a, tail) ∷ rest (n - length tail)

  -- `pattern.finditer(s)`: each match with what is behind it. The pattern is given by its match at
  -- the front, and the number is of the bytes that still belong to the match before.
  unfoldable pub find_all : (Text → Option (A × Text)) → ℕ → Text → List (A × Text)
  unfolding next_found
  find_all match skip [] = []
  find_all match (suc skip) (c ∷ s) = find_all match skip s
  find_all match zero (c ∷ s) =
      next_found (λ skip. find_all match skip s) (length s) (match (c ∷ s))

pub digits-all_digits :
    (front : Text) (c : ℕ) (s : Text)
    → all_digits front ≡ true
    → is_digit c ≡ false
    → digits (front ++ c ∷ s) ≡ (front, c ∷ s)
unfolding digits
digits-all_digits [] c s h k = if-false (is_digit c) _ _ k
digits-all_digits (d ∷ ds) c s h k =
    if-true (is_digit d) _ _ (ground (arith, h))
    ∙ ap (λ p. (d ∷ p.0, p.1)) (digits-all_digits ds c s (ground (arith, h)) k)
