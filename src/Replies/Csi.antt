-- ===== src/Replies/Csi.antt =====
-- scripts/smoke_csi_reply_routing.py: its terminal, which answers at once.
use hexe.Prelude.{ℕ, ◌≡◌, refl, ap, List, [], ◌∷◌, ◌++◌, find_all, if◌then◌else◌}
use hexe.Replies.{
  Bytes, Read, Act, answers, match_colour, all_of, colour_answer, csi_answers, read_to, kept,
  is_empty, chunk_of, end_of_input, delayed, reply,
}

-- `host_answers(buf)`: what it answers, and how far it got.
unfoldable pub host_answers : Bytes → Bytes × ℕ
unfolding csi_answers read_to colour_answer match_colour all_of find_all
host_answers buf =
    (all_of colour_answer (find_all match_colour 0 buf) ++ csi_answers buf, read_to buf)

-- `host(master)`
unfoldable pub host : Bytes → List Read → List Act
unfolding host_answers kept
host buf [] = []
host buf (r ∷ rs) =
    let bigger = buf ++ chunk_of r.chunk in
    let (out, consumed) = host_answers bigger in
    let rest = host (kept consumed bigger) rs in
    if end_of_input r.chunk
    then []
    else if is_empty out
    then rest
    else if r.takes
    then answers out ∷ rest
    else []

-- Without a delay the terminal of the colour test does the same.
pub host_same : (buf : Bytes) (rs : List Read) → host buf rs ≡ hexe.Replies.host 0 buf rs
unfolding host host_answers hexe.Replies.host hexe.Replies.host_answers reply delayed
host_same buf [] = refl
host_same buf (r ∷ rs) =
    let bigger = buf ++ chunk_of r.chunk in
    let out = all_of colour_answer (find_all match_colour 0 bigger) ++ csi_answers bigger in
    ap
      (λ rest.
        if end_of_input r.chunk
        then []
        else if is_empty out
        then rest
        else if r.takes
        then answers out ∷ rest
        else [])
      (host_same (kept (read_to bigger) bigger) rs)
