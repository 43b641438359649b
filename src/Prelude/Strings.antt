-- ===== src/Prelude/Strings.antt =====
-- What the programs use of Python's `str`: decimal text, `split`, `join`, and whitespace.
use Prim.Native.Nat.{ℕ, zero, suc, ◌+◌, ◌-◌, ◌*◌, ◌/◌, ◌%◌, ◌<◌}
use mathlib.Core.Path.{◌≡◌, refl}
use mathlib.Core.Bool.{Bool, true, ◌&&◌, ◌||◌}
use mathlib.Core.Option.{Option, none, some}
use mathlib.Core.List.{List, [], ◌∷◌, ◌++◌, reverse}
use native.Mathlib.Omega.{arith}
use hexe.Prelude.Tests.{◌==◌, ltb, leb, if◌then◌else◌}
use hexe.Prelude.Codes.{Text, starts_with}
use hexe.Prelude.Lists.{length, length-append}

-- `str(n)`; each round takes a digit off, so n + 1 rounds are enough.
show_fuel : ℕ → ℕ → Text
show_fuel zero n = []
show_fuel (suc f) n =
    let more = show_fuel f (n / 10) ++ (48 + n % 10) ∷ [] in
    if ltb n 10 then (48 + n) ∷ [] else more

unfoldable pub show : ℕ → Text
unfolding show_fuel
show n = show_fuel (suc n) n

-- The number that decimal digits stand for.
unfoldable pub value_from : ℕ → Text → ℕ
value_from acc [] = acc
value_from acc (c ∷ s) = value_from (acc * 10 + (c - 48)) s

abbrev pub is_digit : ℕ → Bool
is_digit c = leb 48 c && leb c 57

-- `p.isdigit()`, on ASCII text.
abbrev pub all_digits : Text → Bool
all_digits [] = true
all_digits (c ∷ s) = is_digit c && all_digits s

value_from-append :
    (acc : ℕ) (s t : Text) → value_from acc (s ++ t) ≡ value_from (value_from acc s) t
unfolding value_from
value_from-append acc [] t = refl
value_from-append acc (c ∷ s) t = value_from-append (acc * 10 + (c - 48)) s t

value_from-show_fuel : (f n : ℕ) → n < f → value_from 0 (show_fuel f n) ≡ n
unfolding show_fuel value_from
value_from-show_fuel zero n h = absurd (omega arith)
value_from-show_fuel (suc f) n h = ground (
  arith,
  value_from-show_fuel f (n / 10),
  value_from-append 0 (show_fuel f (n / 10)) ((48 + n % 10) ∷ []),
)

-- Reading what `str` printed gives the number back.
pub value_from-show : (n : ℕ) → value_from 0 (show n) ≡ n
unfolding show
value_from-show n = value_from-show_fuel (suc n) n (omega arith)

all_digits-append :
    (s t : Text) → all_digits s ≡ true → all_digits t ≡ true → all_digits (s ++ t) ≡ true
all_digits-append [] t h k = k
all_digits-append (c ∷ s) t h k = ground (arith, all_digits-append s t)

all_digits-show_fuel : (f n : ℕ) → all_digits (show_fuel f n) ≡ true
unfolding show_fuel
all_digits-show_fuel zero n = refl
all_digits-show_fuel (suc f) n = ground (
  arith,
  all_digits-show_fuel f (n / 10),
  all_digits-append (show_fuel f (n / 10)) ((48 + n % 10) ∷ []),
)

pub all_digits-show : (n : ℕ) → all_digits (show n) ≡ true
unfolding show
all_digits-show n = all_digits-show_fuel (suc n) n

abbrev pub prepend : ℕ → List Text → List Text
prepend c [] = (c ∷ []) ∷ []
prepend c (w ∷ ws) = (c ∷ w) ∷ ws

-- `s.split(sep)`.
unfoldable pub split_on : ℕ → Text → List Text
split_on sep [] = [] ∷ []
split_on sep (c ∷ s) = if c == sep then [] ∷ split_on sep s else prepend c (split_on sep s)

-- `sep.join(ws)`.
unfoldable pub join : Text → List Text → Text
join sep [] = []
join sep (w ∷ []) = w
join sep (w ∷ v ∷ ws) = w ++ (sep ++ join sep (v ∷ ws))

-- `[c for c in ws if c]`.
unfoldable pub non_empty : List Text → List Text
non_empty [] = []
non_empty ([] ∷ ws) = non_empty ws
non_empty ((c ∷ w) ∷ ws) = (c ∷ w) ∷ non_empty ws

-- ASCII whitespace, as `str.strip` and `str.split()` see it.
abbrev pub is_space : ℕ → Bool
is_space c = (leb 9 c && leb c 13) || (leb 28 c && leb c 32)

unfoldable pub lstrip : Text → Text
lstrip [] = []
lstrip (c ∷ s) = if is_space c then lstrip s else c ∷ s

-- `s.strip()`.
unfoldable pub strip : Text → Text
unfolding lstrip
strip s = reverse (lstrip (reverse (lstrip s)))

length-show_fuel : (f n : ℕ) → 0 < length (show_fuel (suc f) n)
unfolding show_fuel
length-show_fuel f n = ground (arith, length-append (show_fuel f (n / 10)) ((48 + n % 10) ∷ []))

-- A number has a digit.
pub length-show : (n : ℕ) → 0 < length (show n)
unfolding show
length-show n = length-show_fuel n n

unfoldable pub succ : Option ℕ → Option ℕ
succ none = none
succ (some n) = some (suc n)

-- `text.find(piece)`
unfoldable pub find_at : Text → Text → Option ℕ
unfolding succ
find_at piece [] = if starts_with [] piece then some 0 else none
find_at piece (c ∷ s) = if starts_with (c ∷ s) piece then some 0 else succ (find_at piece s)

-- `s.rstrip()`
abbrev pub rstrip : Text → Text
rstrip s = reverse (lstrip (reverse s))

-- `s.endswith(suffix)`
unfoldable pub ends_with : Text → Text → Bool
unfolding starts_with
ends_with s suffix = starts_with (reverse s) (reverse suffix)
