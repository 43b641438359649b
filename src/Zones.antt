-- ===== src/Zones.antt =====
-- scripts/smoke_status_zones.py: where a frame draws the zones of the status row.
pub mod Draws
pub mod Rows
use hexe.Prelude.{
  ℕ, zero, suc, ◌+◌, ◌-◌, ◌*◌, Bool, true, false, ◌&&◌, ◌||◌, Option, none, some, List, [], ◌∷◌,
  ◌++◌, Text, codes, is_digit, digits, expect, number, and_then, find_at, ◌==◌, leb, if◌then◌else◌,
  length, replicate, drop,
}
use hexe.Film.{encode}

abbrev pub Bytes : Type 0
Bytes = List ℕ

-- A position, and what is behind its sequence.
pub record Cup : Type 0 where
  pub row : ℕ
  pub col : ℕ
  pub tail : Bytes

-- `CUP`, `\x1b\[(\d+);(\d+)H`, at the front.
unfoldable pub match_cup : Bytes → Option Cup
unfolding expect number
match_cup s = and_then (expect 0x1b s) (λ s. and_then (expect b'[' s) (λ s.
    and_then (number s) (λ r. and_then (expect b';' r.1) (λ s.
      and_then (number s) (λ c.
        and_then (expect b'H' c.1) (λ s. some (record { row = r.0; col = c.0; tail = s })))))))

unfoldable pub next_cups : (ℕ → List Cup) → ℕ → Option Cup → List Cup
next_cups rest n none = rest 0
next_cups rest n (some m) = m ∷ rest (n - length m.tail)

-- `CUP.finditer(frame)`, with the number of bytes that still belong to the match before.
unfoldable pub cups : ℕ → Bytes → List Cup
unfolding match_cup next_cups
cups skip [] = []
cups (suc skip) (c ∷ s) = cups skip s
cups zero (c ∷ s) = next_cups (λ skip. cups skip s) (length s) (match_cup (c ∷ s))

unfoldable pub is_param : ℕ → Bool
is_param c = is_digit c || (c == b';' || c == b':')

unfoldable pub one_more : Option ℕ → Option ℕ
one_more none = none
one_more (some n) = some (suc n)

-- The length of `[0-9;:]*m` at the front.
unfoldable pub params : Bytes → Option ℕ
unfolding is_param one_more
params [] = none
params (c ∷ s) =
    let rest = params s in if c == b'm' then some 1 else if is_param c then one_more rest else none

-- `SGR.match`, behind the escape character: how long the match is from there.
unfoldable pub match_sgr : Bytes → Option ℕ
unfolding params expect one_more
match_sgr s = and_then (expect b'[' s) (λ s. one_more (params s))

unfoldable pub next_visible : (ℕ → Bytes) → Option ℕ → Bytes
next_visible rest none = []
next_visible rest (some n) = rest n

-- The visible bytes of a row, with the number of bytes that still belong to a sequence.
unfoldable pub visible : ℕ → Bytes → Bytes
unfolding match_sgr next_visible
visible skip [] = []
visible (suc skip) (c ∷ s) = visible skip s
visible zero (c ∷ s) =
    if c == 0x1b
    then next_visible (λ skip. visible skip s) (match_sgr s)
    else if c == 0x0a || c == 0x0d
    then []
    else c ∷ visible 0 s

unfoldable pub row_of : Cup → Bytes
unfolding visible
row_of m = replicate (m.col - 1) b' ' ++ visible 0 m.tail

-- The draws among these positions that are on this row.
unfoldable pub rows_at : ℕ → List Cup → List Bytes
unfolding row_of
rows_at rows [] = []
rows_at rows (m ∷ ms) =
    let rest = rows_at rows ms in if m.row == rows then row_of m ∷ rest else rest

-- `bar_rows(frame)`, of a screen with this many rows.
unfoldable pub bar_rows : ℕ → Bytes → List Bytes
unfolding rows_at cups
bar_rows rows frame = rows_at rows (cups 0 frame)

-- The last row that has the marker, and the marker's place in it.
unfoldable pub last_column : Bytes → List Bytes → Option ℕ
unfolding find_at
last_column want [] = none
last_column want (row ∷ rows) =
    let later = last_column want rows in elim later [ none ↦ find_at want row | some at ↦ some at ]

-- `column_of(frame, marker)`
unfoldable pub column_of : ℕ → Bytes → Text → Option ℕ
unfolding bar_rows last_column encode
column_of rows frame marker = last_column (encode marker) (bar_rows rows frame)
