-- ===== src/Replies/Tails.antt =====
-- The buffer that the terminals of the query tests keep between two reads.
use hexe.Prelude.{
  ℕ, ◌-◌, ◌<◌, ◌≤◌, max, ◌≡◌, refl, ap, ◌∙◌, Bool, true, false, some, List, [], ◌∷◌, ◌++◌, arith,
  find_all, length, drop,
}
use hexe.Replies.{
  Bytes, match_colour, match_mode, match_keys, match_device, consumed, all_of, csi_answers, read_to,
  host_answers, kept, Found, Read, host, reply,
}
use hexe.Replies.Once.{
  find_all-drop, match_colour-Less, match_mode-Less, match_keys-Less, match_device-Less,
}

-- The largest of the four is far enough for each.
far_enough :
    (a b c d k : ℕ) → max a (max b (max c d)) ≤ k → (a ≤ k) × ((b ≤ k) × ((c ≤ k) × (d ≤ k)))
far_enough a b c d k h =
    (omega (arith, h), (omega (arith, h), (omega (arith, h), omega (arith, h))))

-- A buffer without a query.
abbrev pub IsQuiet : Bytes → Type 0
IsQuiet s =
    (find_all match_colour 0 s ≡ [])
    × ((find_all match_mode 0 s ≡ [])
        × ((find_all match_keys 0 s ≡ []) × (find_all match_device 0 s ≡ [])))

pub drop-IsQuiet : (s : Bytes) (k : ℕ) → read_to s ≤ k → IsQuiet (drop k s)
unfolding read_to
drop-IsQuiet s k h =
    let (a, (b, (c, d))) = far_enough _ _ _ _ k h in
    (
      find_all-drop match_colour match_colour-Less s k a,
      (
        find_all-drop match_mode match_mode-Less s k b,
        (
          find_all-drop match_keys match_keys-Less s k c,
          find_all-drop match_device match_device-Less s k d,
        ),
      ),
    )

IsQuiet-csi_answers : (s : Bytes) → IsQuiet s → csi_answers s ≡ []
unfolding csi_answers all_of
IsQuiet-csi_answers s (a, (b, (c, d))) = rw (b, c, d) refl

IsQuiet-read_to : (s : Bytes) → IsQuiet s → read_to s ≡ 0
unfolding read_to consumed
IsQuiet-read_to s (a, (b, (c, d))) = rw (a, b, c, d) refl

abbrev pub nothing : Found
nothing = record { out = []; consumed = 0; colors = false }

pub IsQuiet-host_answers : (s : Bytes) → IsQuiet s → host_answers s ≡ nothing
unfolding host_answers all_of
IsQuiet-host_answers s q = rw (IsQuiet-read_to s q, IsQuiet-csi_answers s q, q.0) refl

pub kept-IsQuiet : (s : Bytes) → IsQuiet (kept (host_answers s).consumed s)
unfolding kept host_answers
kept-IsQuiet s = drop-IsQuiet s _ (omega arith)

-- What the terminal keeps of a buffer holds no whole query: none is answered again with the next
-- read.
pub host_answers-kept : (s : Bytes) → host_answers (kept (host_answers s).consumed s) ≡ nothing
host_answers-kept s = IsQuiet-host_answers _ (kept-IsQuiet s)

-- A query in pieces. The buffer is quiet until the last piece, and not longer than is kept.
abbrev pub IsSplit : Bytes → List Bytes → Type 0
IsSplit buf [] = Unit
IsSplit buf (c ∷ cs) = IsQuiet (buf ++ c) × ((length (buf ++ c) ≤ 64) × IsSplit (buf ++ c) cs)

abbrev pub joined : Bytes → List Bytes → Bytes
joined buf [] = buf
joined buf (c ∷ cs) = joined (buf ++ c) cs

abbrev pub pieces : List Bytes → List Read → List Read
pieces [] rs = rs
pieces (c ∷ cs) rs = record { chunk = some c; takes = true } ∷ pieces cs rs

abbrev pub AreChunks : List Bytes → Type 0
AreChunks [] = Unit
AreChunks (c ∷ cs) = (0 < length c) × AreChunks cs

short_tail : (n : ℕ) → n ≤ 64 → max 0 (n - 64) ≡ 0
short_tail n h = omega (arith, h)

-- A query that comes in pieces, none of them empty, into a buffer that stays without a whole
-- query and no longer than sixty-four bytes until the last piece: the terminal waits for it and
-- goes on as if all had come at once.
pub host-pieces :
    (delay : ℕ) (buf : Bytes) (cs : List Bytes) (r : Bytes) (takes : Bool) (rs : List Read)
    → AreChunks cs
    → IsSplit buf cs
    → host delay buf (pieces cs (record { chunk = some r; takes = takes } ∷ rs))
      ≡ host delay (joined buf cs) (record { chunk = some r; takes = takes } ∷ rs)
unfolding host kept reply
host-pieces delay buf [] r takes rs h s = refl
host-pieces delay buf ([] ∷ cs) r takes rs (pos, h) s = absurd (omega arith)
host-pieces delay buf ((b ∷ c) ∷ cs) r takes rs (pos, h) (quiet, (short, s)) =
    let bigger = buf ++ (b ∷ c) in
    let later = pieces cs (record { chunk = some r; takes = takes } ∷ rs) in
    ap (λ found. reply delay true found (host delay (kept found.consumed bigger) later))
      (IsQuiet-host_answers bigger quiet)
    ∙ ap (λ n. host delay (drop n bigger) later) (short_tail (length bigger) short)
    ∙ host-pieces delay bigger cs r takes rs h s
