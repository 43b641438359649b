-- ===== src/Wire/Frames.antt =====
-- What `recv_frame` reads of the frames that `send_frame` writes.
use hexe.Prelude.{
  ℕ, suc, ◌+◌, ◌<◌, ◌≤◌, ◌^◌, ◌≡◌, refl, sym, ap, ◌∙◌, inl, inr, none, some, [], ◌++◌, append_assoc,
  arith, ltb, length, take, drop, length-append, length-drop, take-length-append,
  drop-length-append, take-append_le, take-append-drop, Bool-cases, ltb→lt, ltb→le,
}
use hexe.Wire.{
  Bytes, Pipe, full, closed, fill, unpack, pack, big_endian, after_header, recv_body, frame_bytes,
}
use hexe.Wire.Reads.{flat, IsLive, fill-full, fill_short}

-- Packing loses nothing: the four bytes give the number back.
pub unpack-pack : (n : ℕ) (hdr : Bytes) → pack n ≡ some hdr → (unpack hdr ≡ n) × (length hdr ≡ 4)
unfolding unpack pack
unpack-pack n hdr h = ground arith

-- A body longer than four bytes can count has no frame.
pub frame_bytes-none : (body : Bytes) → 2 ^ 32 ≤ length body → frame_bytes body ≡ none
unfolding frame_bytes
frame_bytes-none body h = ground arith

pub record IsFrame (body bytes hdr : Bytes) : Type 0 where
  pub count : unpack hdr ≡ length body
  pub four : length hdr ≡ 4
  pub joined : bytes ≡ hdr ++ body

framed-prefixed :
    (body bytes : Bytes)
    → frame_bytes body ≡ some bytes
    → (hdr : Bytes) × (pack (length body) ≡ some hdr) × (bytes ≡ hdr ++ body)
unfolding frame_bytes pack
framed-prefixed body bytes h = (big_endian (length body), ground arith, ground arith)

pub framed :
    (body bytes : Bytes) → frame_bytes body ≡ some bytes → (hdr : Bytes) × IsFrame body bytes hdr
framed body bytes h =
    let (hdr, packed, joined) = framed-prefixed body bytes h in
    let back = unpack-pack (length body) hdr packed in
    (hdr, record { count = back.0; four = back.1; joined = joined })

module _ (body hdr : Bytes) (p : Pipe) (l : IsLive p) where
  recv-header :
      (rest : Bytes)
      → length hdr ≡ 4
      → flat p ≡ hdr ++ rest
      → (q : Pipe) × (recv_body p ≡ fill (suc (unpack hdr)) (unpack hdr) [] q)
        × (flat q ≡ rest)
        × IsLive q
  unfolding recv_body
  recv-header rest four e =
      let (q, got, left, live) =
        fill-full 5 4 [] (hdr ++ rest) p e l (omega arith) (omega arith)
          (omega (arith, length-append hdr rest)) in
      let head : take 4 (hdr ++ rest) ≡ hdr = rw (← four) (take-length-append hdr rest) in
      let later : drop 4 (hdr ++ rest) ≡ rest = rw (← four) (drop-length-append hdr rest) in
      (q, rw got (ap (λ t. after_header (full t q)) head), left ∙ later, live)

-- A frame that fits its header, at the front of a pipe that delivers no empty chunk before its
-- end: its body comes back, however the bytes are chunked, and what follows it is left on such a
-- pipe.
pub recv_body-frame_bytes :
    (body bytes rest : Bytes) (p : Pipe)
    → frame_bytes body ≡ some bytes
    → flat p ≡ bytes ++ rest
    → IsLive p
    → (q : Pipe) × (recv_body p ≡ full body q) × (flat q ≡ rest) × IsLive q
recv_body-frame_bytes body bytes rest p h e l =
    let (hdr, is) = framed body bytes h in
    let all : flat p ≡ hdr ++ (body ++ rest) =
      e ∙ ap (λ t. t ++ rest) is.joined ∙ append_assoc hdr body rest in
    let (q, got, left, live) = recv-header body hdr p l (body ++ rest) is.four all in
    let (r, filled, left', live') =
      fill-full (suc (unpack hdr)) (unpack hdr) [] (body ++ rest) q left live (omega arith)
        (omega arith) (omega (arith, is.count, length-append body rest)) in
    (
      r,
      got ∙ filled ∙ ap (λ t. full t r) (rw is.count (take-length-append body rest)),
      left' ∙ rw is.count (drop-length-append body rest),
      live',
    )

-- A pipe that ends within a frame: nothing is returned.
recv_body_cut :
    (body bytes more : Bytes) (p : Pipe)
    → frame_bytes body ≡ some bytes
    → bytes ≡ flat p ++ more
    → 0 < length more
    → IsLive p
    → recv_body p ≡ closed
unfolding recv_body
recv_body_cut body bytes more p h e k l = elim (Bool-cases (ltb (length (flat p)) 4)) [
  | inl lt ↦ ap after_header (fill_short 5 4 [] (flat p) p refl l (omega arith) (ltb→lt _ _ lt))
  | inr ge ↦
      let (hdr, is) = framed body bytes h in
      let cut : hdr ++ body ≡ flat p ++ more = sym is.joined ∙ e in
      let head : hdr ≡ take 4 (flat p) =
        sym (rw (← is.four) (take-length-append hdr body))
        ∙ ap (take 4) cut
        ∙ take-append_le 4 (flat p) more (ltb→le _ _ ge) in
      let total : length hdr + length body ≡ length (flat p) + length more =
        sym (length-append hdr body) ∙ ap length cut ∙ length-append (flat p) more in
      let whole : flat p ≡ hdr ++ drop 4 (flat p) = rw head (sym (take-append-drop 4 (flat p))) in
      let (q, got, left, live) = recv-header body hdr p l (drop 4 (flat p)) is.four whole in
      got
      ∙ fill_short (suc (unpack hdr)) (unpack hdr) [] (drop 4 (flat p)) q left live (omega arith)
          (omega (arith, is.count, is.four, total, length-drop 4 (flat p), ltb→le _ _ ge))
]
