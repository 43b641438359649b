-- ===== src/Decor/Feed.antt =====
-- scripts/smoke_decor.py: `Screen.feed` and `Screen._csi`.
use hexe.Prelude.{
  ℕ, zero, suc, ◌+◌, ◌-◌, min, max, Bool, false, not, ◌&&◌, ◌||◌, Option, none, some, List, [], ◌∷◌,
  ◌++◌, Text, length, ltb, leb, ◌==◌, if◌then◌else◌, split_on, all_digits, value_from, map,
}
use hexe.Film.{Bytes}
use hexe.Decor.{Screen, clear_region, line_down, put_all}
use hexe.Decor.Decode.{decode}

abbrev number : Text → ℕ
number [] = 0
number (c ∷ s) = if all_digits (c ∷ s) then value_from 0 (c ∷ s) else 0

-- `[… for x in p.split(";")] if p else []`
unfoldable pub numbers : Text → List ℕ
numbers [] = []
numbers (c ∷ p) = map number (split_on b';' (c ∷ p))

abbrev pub first_or : ℕ → List ℕ → ℕ
first_or d [] = d
first_or d (n ∷ ns) = n

abbrev second : List ℕ → ℕ
second (n ∷ m ∷ ns) = m
second _ = 0

abbrev pub is_private : Text → Bool
is_private [] = false
is_private (c ∷ p) = c == b'?' || c == b'<' || c == b'=' || c == b'>'

-- The moves of the cursor.
unfoldable pub move : ℕ → List ℕ → Screen → Screen
move f nums s =
    if f == b'H' || f == b'f'
    then record s {
      cy = min (first_or 0 nums - 1) (s.rows - 1);
      cx = min (second nums - 1) (s.cols - 1);
    }
    else if f == b'A'
    then record s { cy = s.cy - max 1 (first_or 1 nums) }
    else if f == b'B'
    then record s { cy = min (s.rows - 1) (s.cy + max 1 (first_or 1 nums)) }
    else if f == b'C'
    then record s { cx = min (s.cols - 1) (s.cx + max 1 (first_or 1 nums)) }
    else if f == b'D'
    then record s { cx = s.cx - max 1 (first_or 1 nums) }
    else if f == b'G'
    then record s { cx = min (first_or 0 nums - 1) (s.cols - 1) }
    else s

-- `J` and `K`, by their modes.
unfoldable pub erase_display : ℕ → Screen → Screen
erase_display mode s =
    if mode == 2 || mode == 3
    then clear_region 0 0 (s.rows - 1) (s.cols - 1) s
    else if mode == 0
    then clear_region s.cy s.cx (s.rows - 1) (s.cols - 1) s
    else if mode == 1
    then clear_region 0 0 s.cy s.cx s
    else s

unfoldable pub erase_line : ℕ → Screen → Screen
erase_line mode s =
    if mode == 0
    then clear_region s.cy s.cx s.cy (s.cols - 1) s
    else if mode == 1
    then clear_region s.cy 0 s.cy s.cx s
    else if mode == 2
    then clear_region s.cy 0 s.cy (s.cols - 1) s
    else s

unfoldable pub csi : Text → ℕ → Screen → Screen
unfolding move erase_display erase_line
csi params f s =
    if is_private params
    then s
    else if f == b'J'
    then erase_display (first_or 0 (numbers params)) s
    else if f == b'K'
    then erase_line (first_or 0 (numbers params)) s
    else move f (numbers params) s

-- What a regular expression finds at the front: its groups, and what follows.
pub record Csi : Type 0 where
  pub params : Text
  pub final : ℕ
  pub rest : Bytes

-- `([ -/]*)([@-~])`
unfoldable pub match_final : Text → Bytes → Option Csi
match_final params [] = none
match_final params (c ∷ s) =
    let more = match_final params s in
    if leb 0x20 c && leb c 0x2F
    then more
    else if leb 0x40 c && leb c 0x7E
    then some (record { params = params; final = c; rest = s })
    else none

-- `([0-9;:<=>?]*)` in front of it.
unfoldable pub match_csi : Text → Bytes → Option Csi
unfolding match_final
match_csi seen [] = none
match_csi seen (c ∷ s) =
    let more = match_csi (seen ++ c ∷ []) s in
    let ends = match_final seen (c ∷ s) in if leb 0x30 c && leb c 0x3F then more else ends

-- `[^\x07\x1b]*(\x07|\x1b\\)`
unfoldable pub match_osc : Bytes → Option Bytes
match_osc [] = none
match_osc (c ∷ []) = if c == 7 then some [] else none
match_osc (c ∷ d ∷ s) =
    let more = match_osc (d ∷ s) in
    if c == 7 then some (d ∷ s) else if c == 27 then (if d == b'\\' then some s else none) else more

-- `.*?\x1b\\`
unfoldable pub match_st : Bytes → Option Bytes
match_st [] = none
match_st (c ∷ []) = none
match_st (c ∷ d ∷ s) = let more = match_st (d ∷ s) in if c == 27 && d == b'\\' then some s else more

-- A step of the loop: the screen and what is left, or the data that has to wait.
pub data Step : Type 0 where
  go : Screen → Bytes → Step
  waits : Step

abbrev pub on_csi : Screen → Option Csi → Step
on_csi s none = waits
on_csi s (some m) = go (csi m.params m.final s) m.rest

abbrev pub skipped : Screen → Option Bytes → Step
skipped s none = waits
skipped s (some rest) = go s rest

-- What follows an ESC.
unfoldable pub escape : Bytes → Screen → Step
unfolding csi match_csi match_osc match_st
escape [] s = waits
escape (c ∷ rest) s =
    if c == b'['
    then on_csi s (match_csi [] rest)
    else if c == b']'
    then skipped s (match_osc rest)
    else if c == b'P' || c == b'^' || c == b'_'
    then skipped s (match_st rest)
    else go s rest

abbrev pub is_printed : ℕ → Bool
is_printed c = leb 0x20 c && not (c == 0x1B)

-- The printable run at the front, and what follows it.
unfoldable pub span_printed : Bytes → Bytes × Bytes
span_printed [] = ([], [])
span_printed (c ∷ s) =
    let more = span_printed s in if is_printed c then (c ∷ more.0, more.1) else ([], c ∷ s)

abbrev pub printed : Bytes × Bytes → Screen → Step
printed run s = go (put_all (decode run.0) s) run.1

unfoldable pub step : ℕ → Bytes → Screen → Step
unfolding escape span_printed
step c rest s =
    if c == 0x1B
    then escape rest s
    else if c == 0x0D
    then go (record s { cx = 0 }) rest
    else if c == 0x0A
    then go (line_down s) rest
    else if c == 0x08
    then go (record s { cx = s.cx - 1 }) rest
    else if ltb c 0x20
    then go s rest
    else printed (span_printed (c ∷ rest)) s

abbrev pub after_step : (Bytes → Screen → Screen) → Bytes → Screen → Step → Screen
after_step k buf s (go t rest) = k rest t
after_step k buf s waits = record s { pending = buf }

-- The loop; each round takes a byte at least, so the length of the data is fuel enough.
unfoldable pub run : ℕ → Bytes → Screen → Screen
unfolding step
run zero buf s = s
run (suc f) [] s = s
run (suc f) (c ∷ rest) s = after_step (run f) (c ∷ rest) s (step c rest s)

unfoldable pub feed : Bytes → Screen → Screen
unfolding run
feed chunk s = let buf = s.pending ++ chunk in run (length buf) buf (record s { pending = [] })
