-- ===== src/Wire/Progress.antt =====
-- The bytes that a received frame takes off the pipe.
use hexe.Prelude.{
  ℕ, suc, ◌<◌, ◌≡◌, refl, ap, ◌∙◌, ◌⊎◌, inl, inr, [], arith, ltb, length, take, length-drop,
  Bool-cases, ltb→lt, ltb→le,
}
use hexe.Wire.{Bytes, Pipe, full, closed, fill, unpack, after_header, recv_body}
use hexe.Wire.Reads.{flat, IsLive, fill-full, fill_short}

-- A frame came back, and what is left of the pipe is shorter by its header and its body.
pub record Took (p : Pipe) : Type 0 where
  pub body : Bytes
  pub later : Pipe
  pub got : recv_body p ≡ full body later
  pub live : IsLive later
  pub less : length (flat later) < length (flat p)

take_body :
    (p q : Pipe) (n : ℕ)
    → recv_body p ≡ fill (suc n) n [] q
    → IsLive q
    → length (flat q) < length (flat p)
    → (recv_body p ≡ closed) ⊎ Took p
take_body p q n e l h = elim (Bool-cases (ltb (length (flat q)) n)) [
  | inl few ↦ inl (e ∙ fill_short (suc n) n [] (flat q) q refl l (omega arith) (ltb→lt _ _ few))
  | inr enough ↦
      let (r, filled, left, live) =
        fill-full (suc n) n [] (flat q) q refl l (omega arith) (omega arith) (ltb→le _ _ enough) in
      inr (record {
        body = _;
        later = r;
        got = e ∙ filled;
        live = live;
        less = omega (arith, ap length left, length-drop n (flat q));
      })
]

-- Either the pipe ends before a whole frame, or a frame is taken off it.
pub recv_body_cases : (p : Pipe) → IsLive p → (recv_body p ≡ closed) ⊎ Took p
unfolding recv_body
recv_body_cases p l = elim (Bool-cases (ltb (length (flat p)) 4)) [
  | inl few ↦
      inl (ap after_header (fill_short 5 4 [] (flat p) p refl l (omega arith) (ltb→lt _ _ few)))
  | inr enough ↦
      let (q, filled, left, live) =
        fill-full 5 4 [] (flat p) p refl l (omega arith) (omega arith) (ltb→le _ _ enough) in
      take_body p q (unpack (take 4 (flat p))) (ap after_header filled) live
        (omega (arith, ap length left, length-drop 4 (flat p), ltb→le _ _ enough))
]

-- At its end the pipe gives nothing.
pub recv_body-nil : (p : Pipe) → flat p ≡ [] → IsLive p → recv_body p ≡ closed
unfolding recv_body
recv_body-nil p e l =
    ap after_header (fill_short 5 4 [] (flat p) p refl l (omega arith) (omega (arith, ap length e)))
