-- ===== src/Tests/Wires.antt =====
-- Frames and the loop of reads.
use hexe.Prelude.{◌≡◌, refl, some, [], ◌∷◌, codes, arith}
use hexe.Wire
use hexe.Wire.{Bytes, Pipe, Filled, full, closed, recv_body, frame_bytes, read}
use hexe.Wire.Reads.{flat, IsLive}
use hexe.Wire.Frames.{recv_body-frame_bytes}

abbrev hello : Bytes
hello = codes "hello"

abbrev framed : Bytes
framed = 0 ∷ 0 ∷ 0 ∷ 5 ∷ codes "hello"

-- Two bytes, then three, then the others with the start of what follows.
abbrev chunks : Pipe
chunks = (0 ∷ 0 ∷ []) ∷ (0 ∷ 5 ∷ b'h' ∷ []) ∷ codes "ello{" ∷ []

hello-framed : frame_bytes hello ≡ some framed
unfolding frame_bytes
hello-framed = refl

recv-chunks : recv_body chunks ≡ full hello (codes "{" ∷ [])
unfolding recv_body Wire.fill Wire.unpack
recv-chunks = refl

recv_body-frame_bytes_example :
    (q : Pipe) × (recv_body chunks ≡ full hello q) × (flat q ≡ codes "{") × IsLive q
recv_body-frame_bytes_example =
    recv_body-frame_bytes hello framed (codes "{") chunks hello-framed refl (omega arith)
