-- ===== src/Tests/Hosts.antt =====
-- The terminals of the query tests, and the rows of scripts/smoke_status_zones.py.
use hexe.Prelude.{
  ℕ, zero, ◌+◌, ◌≡◌, refl, true, false, some, none, List, [], ◌∷◌, ◌++◌, Text, codes, length, arith,
}
use hexe.Replies.{Bytes, answers, sleeps, host, host_answers, kept}
use hexe.Replies.Tails.{nothing, pieces, host_answers-kept, host-pieces}
use hexe.Zones.{bar_rows, column_of}
use hexe.Zones.Draws.{Draw, draws}
use hexe.Zones.Rows.{bar_rows-draws}

-- A mode query, a colour query, and the start of another.
abbrev buffer : Bytes
buffer = codes "\u{1b}[?2026$p-\u{1b}]11;?\u{7}-\u{1b}]4;1"

host_answers-buffer : host_answers buffer ≡ record {
  out = codes "\u{1b}]11;rgb:2222/5050/1818\u{1b}\\\u{1b}[?2026;2$y";
  consumed = 17;
  colors = true;
}
unfolding host_answers
host_answers-buffer = refl

host_answers-kept_example : host_answers (kept 17 buffer) ≡ nothing
unfolding host_answers kept
host_answers-kept_example = host_answers-kept buffer

-- A query in three reads.
abbrev starts : List Bytes
starts = codes "\u{1b}]" ∷ codes "4;7;" ∷ []

host-pieces_example :
    host 500 [] (pieces starts (record { chunk = some (codes "?\u{7}"); takes = true } ∷ []))
    ≡ sleeps 500 ∷ answers (codes "\u{1b}]4;7;rgb:6e6e/ffff/5757\u{1b}\\") ∷ []
unfolding host
host-pieces_example =
    host-pieces 500 [] starts (codes "?\u{7}") true [] (omega arith, (omega arith, tt))
      (
        (refl, (refl, (refl, refl))),
        (omega arith, ((refl, (refl, (refl, refl))), (omega arith, tt))),
      )

-- Two draws, of which the second is on the last row.
abbrev frame : List Draw
frame =
    record { row = 1; col = 1; runs = record { sgr = codes "0"; text = codes "top" } ∷ [] }
    ∷ record {
      row = 30;
      col = 3;
      runs =
          record { sgr = codes "38;5;2"; text = codes "L" }
          ∷ record { sgr = []; text = codes " R" }
          ∷ [];
    }
    ∷ []

bar_rows-draws_example : bar_rows 30 (draws frame) ≡ codes "  L R" ∷ []
unfolding hexe.Zones.is_param
bar_rows-draws_example =
    bar_rows-draws 30 frame ((refl, (refl, tt)), ((refl, (refl, (refl, (refl, tt)))), tt))

column_of-frame : column_of 30 (draws frame) (codes "R") ≡ some 4
unfolding column_of hexe.Prelude.show hexe.Prelude.starts_with
column_of-frame = refl
