-- ===== src/Wire.antt =====
-- The framing that hexe speaks with a painter (contrib/painter.py, contrib/painter_showcase.py):
-- a four-byte big-endian length, then the body. A pipe is the list of the chunks that its reads
-- deliver; a read of a pipe with no chunk left returns nothing, which is how its end shows.
pub mod Reads
pub mod Frames
pub mod Progress
use hexe.Prelude.{
  ℕ, zero, suc, ◌+◌, ◌-◌, ◌*◌, ◌/◌, ◌%◌, ◌^◌, Bool, true, false, Option, none, some, List, [], ◌∷◌,
  ◌++◌, ltb, leb, if◌then◌else◌, length, take, drop,
}

abbrev pub Bytes : Type 0
Bytes = List ℕ

abbrev pub Pipe : Type 0
Pipe = List Bytes

-- `read(n)`: what the next chunk holds, at most n bytes of it.
unfoldable pub read : ℕ → Pipe → Bytes × Pipe
read n [] = ([], [])
read n (c ∷ cs) = if leb (length c) n then (c, cs) else (take n c, drop n c ∷ cs)

abbrev pub is_empty {ℓ} : {A : Type ℓ} → List A → Bool
is_empty [] = true
is_empty (x ∷ xs) = false

-- What a loop of reads ends with; `stuck` means that the fuel ran out.
pub data Filled : Type 0 where
  full : Bytes → Pipe → Filled
  closed : Filled
  stuck : Filled

-- `while len(acc) < want: chunk = read(want - len(acc)); if not chunk: return None; acc += chunk`
unfoldable pub fill : ℕ → ℕ → Bytes → Pipe → Filled
unfolding read
fill zero want acc p = stuck
fill (suc f) want acc p =
    let chunk = (read (want - length acc) p).0 in
    let rest = fill f want (acc ++ chunk) (read (want - length acc) p).1 in
    if ltb (length acc) want then (if is_empty chunk then closed else rest) else full acc p

-- `struct.unpack(">I", hdr)[0]`, on the four bytes that the loop above has filled.
unfoldable pub unpack : Bytes → ℕ
unpack (a ∷ b ∷ c ∷ d ∷ []) = ((a * 256 + b) * 256 + c) * 256 + d
unpack _ = 0

-- The four bytes of a number, the highest first.
abbrev pub big_endian : ℕ → Bytes
big_endian n = (n / 16777216) ∷ (n / 65536 % 256) ∷ (n / 256 % 256) ∷ (n % 256) ∷ []

-- `struct.pack(">I", n)`, which raises `struct.error` where n does not fit.
unfoldable pub pack : ℕ → Option Bytes
pack n = if ltb n (2 ^ 32) then some (big_endian n) else none

-- The body of one frame. Each read that does not end a loop delivers a byte, so one round more
-- than the bytes wanted is fuel enough.
unfoldable pub after_header : Filled → Filled
after_header (full hdr p) = fill (suc (unpack hdr)) (unpack hdr) [] p
after_header closed = closed
after_header stuck = stuck

unfoldable pub recv_body : Pipe → Filled
unfolding after_header
recv_body p = after_header (fill 5 4 [] p)

abbrev prefixed : Bytes → Option Bytes → Option Bytes
prefixed body none = none
prefixed body (some hdr) = some (hdr ++ body)

-- The bytes that `send_frame` writes for a body.
unfoldable pub frame_bytes : Bytes → Option Bytes
unfolding pack
frame_bytes body = prefixed body (pack (length body))
