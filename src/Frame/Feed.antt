-- ===== src/Frame/Feed.antt =====
-- scripts/demo/frame.py: `csi`, `feed` and `dump`.
use hexe.Prelude.{
  ℕ, zero, suc, ◌+◌, ◌*◌, ◌/◌, Bool, false, ◌&&◌, ◌||◌, Option, none, some, List, [], ◌∷◌, ◌++◌,
  Text, codes, leb, ◌==◌, if◌then◌else◌, starts_with, all_digits, value_from, join, map, prepend,
  rstrip, ℤ, pos, negsuc, sub_ℕ, ◌+ℤ◌, ◌-ℤ◌, min_ℤ, max_ℤ,
}
use hexe.Frame.{Screen, ◌>>=◌, newline, put, erase_line, erase_display}

-- `re.split("[;:]", params)`
unfoldable pub split_params : Text → List Text
split_params [] = [] ∷ []
split_params (c ∷ s) =
    if c == b';' || c == b':' then [] ∷ split_params s else prepend c (split_params s)

-- `[int(p) for p in … if p.isdigit()]`; the empty text is no digit.
unfoldable pub numbers : List Text → List ℕ
unfolding value_from
numbers [] = []
numbers ([] ∷ ps) = numbers ps
numbers ((c ∷ s) ∷ ps) =
    if all_digits (c ∷ s) then value_from 0 (c ∷ s) ∷ numbers ps else numbers ps

abbrev pub has : ℕ → Text → Bool
has c [] = false
has c (d ∷ s) = c == d || has c s

-- `one or 1`, `nums[0] if nums else 1` and `nums[1] if len(nums) > 1 else 1`.
abbrev pub count_of : List ℕ → ℕ
count_of [] = 1
count_of (zero ∷ ns) = 1
count_of (suc n ∷ ns) = suc n

abbrev pub mode_of : List ℕ → ℕ
mode_of [] = 0
mode_of (n ∷ ns) = n

abbrev pub first_or_one : List ℕ → ℕ
first_or_one [] = 1
first_or_one (n ∷ ns) = n

abbrev pub second_or_one : List ℕ → ℕ
second_or_one (n ∷ m ∷ ns) = m
second_or_one _ = 1

abbrev pub last_index : ℕ → ℤ
last_index n = sub_ℕ n 1

-- The cursor moves of `csi`, by the final byte.
unfoldable pub move_cursor : ℕ → List ℕ → Screen → Screen
move_cursor final nums s =
    if final == b'H' || final == b'f'
    then record s {
      y = min_ℤ (last_index s.rows) (sub_ℕ (first_or_one nums) 1);
      x = min_ℤ (last_index s.cols) (sub_ℕ (second_or_one nums) 1);
    }
    else if final == b'A'
    then record s { y = max_ℤ (pos 0) (s.y -ℤ pos (count_of nums)) }
    else if final == b'B'
    then record s { y = min_ℤ (last_index s.rows) (s.y +ℤ pos (count_of nums)) }
    else if final == b'C'
    then record s { x = min_ℤ (last_index s.cols) (s.x +ℤ pos (count_of nums)) }
    else if final == b'D'
    then record s { x = max_ℤ (pos 0) (s.x -ℤ pos (count_of nums)) }
    else if final == b'G'
    then record s { x = min_ℤ (last_index s.cols) (sub_ℕ (count_of nums) 1) }
    else if final == b'd'
    then record s { y = min_ℤ (last_index s.rows) (sub_ℕ (count_of nums) 1) }
    else s

unfoldable pub apply_csi : ℕ → List ℕ → Screen → Option Screen
unfolding move_cursor
apply_csi final nums s =
    if final == b'K'
    then erase_line (mode_of nums) s
    else if final == b'J'
    then erase_display (mode_of nums) s
    else some (move_cursor final nums s)

unfoldable pub csi : Text → ℕ → Screen → Option Screen
unfolding apply_csi
csi params final s =
    if starts_with params (b'?' ∷ []) || has final (codes "hlmqurt")
    then some s
    else apply_csi final (numbers (split_params params)) s

-- The characters of `[0-9;:?<>!]` and of `[@-~]`.
abbrev pub is_param : ℕ → Bool
is_param c = (leb b'0' c && leb c b';') || has c (codes "?<>!")

abbrev pub is_final : ℕ → Bool
is_final c = leb b'@' c && leb c b'~'

-- What `CSI.match` finds behind the bracket: the parameters, the final and the rest.
pub record Match : Type 0 where
  pub params : Text
  pub final : ℕ
  pub rest : Text

unfoldable pub match_csi : Text → Text → Option Match
match_csi seen [] = none
match_csi seen (c ∷ s) =
    if is_param c
    then match_csi (seen ++ c ∷ []) s
    else if is_final c
    then some (record { params = seen; final = c; rest = s })
    else none

-- Behind the first BEL or ST; where there is none, the end.
unfoldable pub skip_osc : Text → Text
skip_osc [] = []
skip_osc (c ∷ []) = []
skip_osc (c ∷ d ∷ s) =
    if c == 7 then d ∷ s else if c == 27 && d == b'\\' then s else skip_osc (d ∷ s)

-- Behind the first ST.
unfoldable pub skip_dcs : Text → Text
skip_dcs [] = []
skip_dcs (c ∷ []) = []
skip_dcs (c ∷ d ∷ s) = if c == 27 && d == b'\\' then s else skip_dcs (d ∷ s)

-- `(self.x // 8 + 1) * 8`, with the quotient rounded down.
abbrev pub tab_stop : ℤ → ℤ
tab_stop (pos k) = pos ((k / 8 + 1) * 8)
tab_stop (negsuc k) = sub_ℕ 0 (8 * (k / 8))

-- One character that begins no escape sequence.
unfoldable pub plain : ℕ → Screen → Option Screen
plain c s =
    if c == 13
    then some (record s { x = pos 0 })
    else if c == 10
    then newline s
    else if c == 8
    then some (record s { x = max_ℤ (pos 0) (s.x -ℤ pos 1) })
    else if c == 9
    then some (record s { x = min_ℤ (last_index s.cols) (tab_stop s.x) })
    else if leb 32 c
    then put c s
    else some s

-- What one round of the loop does with the text behind an ESC: the screen, and the text left.
abbrev pub Step : Type 0
Step = Option (Screen × Text)

abbrev pub on_match : Text → Screen → Option Match → Step
on_match s scr none = some (scr, s)
on_match s scr (some m) = do t ← csi m.params m.final scr; some (t, m.rest)

unfoldable pub escape : Text → Screen → Step
unfolding match_csi
escape [] scr = some (scr, [])
escape (c ∷ s) scr =
    if c == b'['
    then on_match s scr (match_csi [] s)
    else if c == b']'
    then some (scr, skip_osc s)
    else if c == b'P'
    then some (scr, skip_dcs s)
    else some (scr, s)

-- One round of the loop of `feed`.
unfoldable pub step : ℕ → Text → Screen → Step
unfolding escape plain
step c s scr = if c == 27 then escape s scr else (do t ← plain c scr; some (t, s))

-- How `feed` ends: `stuck` means that the fuel ran out.
pub data Fed : Type 0 where
  fed : Screen → Fed
  index_error : Fed
  stuck : Fed

abbrev next : (Text → Screen → Fed) → Step → Fed
next k none = index_error
next k (some (t, s)) = k s t

unfoldable pub feed : ℕ → Text → Screen → Fed
feed f [] scr = fed scr
feed zero (c ∷ s) scr = stuck
feed (suc f) (c ∷ s) scr = next (λ t scr'. feed f t scr') (step c s scr)

-- `"\n".join("".join(row).rstrip() for row in self.cells)`
unfoldable pub dump : Screen → Text
dump s = join (10 ∷ []) (map rstrip s.cells)
