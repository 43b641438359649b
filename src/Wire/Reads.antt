-- ===== src/Wire/Reads.antt =====
-- The loop of reads on the bytes of a pipe.
use hexe.Prelude.{
  ℕ, zero, suc, ◌+◌, ◌-◌, ◌≤◌, ◌<◌, ◌≡◌, refl, sym, ap, ◌∙◌, inl, inr, true, false, List, [], ◌∷◌,
  ◌++◌, append_assoc, arith, ltb, leb, length, take, drop, length-append, length-take, length-drop,
  take-append-drop, Bool-cases, lt→ltb, ltb→lt, ltb→le, take-length-append, drop-length-append,
}
use hexe.Wire.{Bytes, Pipe, read, full, closed, fill, is_empty}

-- The bytes that a pipe still delivers.
abbrev pub flat : Pipe → Bytes
flat [] = []
flat (c ∷ cs) = c ++ flat cs

-- No read comes back empty before the end.
abbrev pub IsLive : Pipe → Type 0
IsLive [] = Unit
IsLive (c ∷ cs) = (0 < length c) × IsLive cs

read-flat : (n : ℕ) (p : Pipe) → (read n p).0 ++ flat (read n p).1 ≡ flat p
unfolding read
read-flat n [] = refl
read-flat n (c ∷ cs) = elim (Bool-cases (leb (length c) n)) [
  | inl le ↦ rw le
  | inr gt ↦ rw gt (
      sym (append_assoc (take n c) (drop n c) (flat cs))
      ∙ ap (λ t. t ++ flat cs) (take-append-drop n c))
]

read-IsLive : (n : ℕ) (p : Pipe) → IsLive p → IsLive (read n p).1
unfolding read
read-IsLive n [] h = tt
read-IsLive n (c ∷ cs) h = elim (Bool-cases (leb (length c) n)) [
  | inl le ↦ rw le h.1
  | inr gt ↦ rw gt (ground (arith, length-drop n c), h.1)
]

read-le : (n : ℕ) (p : Pipe) → length (read n p).0 ≤ n
unfolding read
read-le n [] = omega arith
read-le n (c ∷ cs) = ground (arith, length-take n c)

-- A read of a live pipe delivers something, unless the pipe has ended.
read-pos : (n : ℕ) (p : Pipe) → IsLive p → 0 < n → 0 < length (flat p) → 0 < length (read n p).0
unfolding read
read-pos n [] h k b = absurd (omega arith)
read-pos n (c ∷ cs) h k b = ground (arith, length-take n c)

read-nil : (n : ℕ) (p : Pipe) → length (flat p) ≡ 0 → length (read n p).0 ≡ 0
read-nil n p e =
    let split = length-append (read n p).0 (flat (read n p).1) in
    omega (arith, split, ap length (read-flat n p))

is_empty-pos {ℓ} : {A : Type ℓ} (xs : List A) → 0 < length xs → is_empty xs ≡ false
is_empty-pos [] h = absurd (omega arith)
is_empty-pos (x ∷ xs) h = refl

is_empty-zero {ℓ} : {A : Type ℓ} (xs : List A) → length xs ≡ 0 → is_empty xs ≡ true
is_empty-zero [] h = refl
is_empty-zero (x ∷ xs) h = absurd (omega arith)

-- The bytes got so far and the bytes to come, around one read.
regroup :
    (n : ℕ) (acc all : Bytes) (p : Pipe)
    → acc ++ flat p ≡ all
    → (acc ++ (read n p).0) ++ flat (read n p).1 ≡ all
regroup n acc all p e = append_assoc acc _ _ ∙ ap (◌++◌ acc) (read-flat n p) ∙ e

length-split :
    (acc : Bytes) (p : Pipe) {all : Bytes}
    → acc ++ flat p ≡ all
    → length all ≡ length acc + length (flat p)
length-split acc p e = sym (ap length e) ∙ length-append acc (flat p)

module _ (want : ℕ) where
  fill-done :
      (f : ℕ) (acc : Bytes) (p : Pipe) → want ≤ length acc → fill (suc f) want acc p ≡ full acc p
  unfolding fill
  fill-done f acc p h = ground arith

  fill-more :
      (f : ℕ) (acc : Bytes) (p : Pipe)
      → length acc < want
      → 0 < length (read (want - length acc) p).0
      → fill (suc f) want acc p
        ≡ fill f want (acc ++ (read (want - length acc) p).0) (read (want - length acc) p).1
  unfolding fill
  fill-more f acc p h k = rw (lt→ltb _ _ h) (rw (is_empty-pos _ k))

  fill-closed :
      (f : ℕ) (acc : Bytes) (p : Pipe)
      → length acc < want
      → length (read (want - length acc) p).0 ≡ 0
      → fill (suc f) want acc p ≡ closed
  unfolding fill
  fill-closed f acc p h k = rw (lt→ltb _ _ h) (rw (is_empty-zero _ k))

-- Enough bytes: the loop returns the first `want` of them and leaves the others.
pub fill-full :
    (f want : ℕ) (acc all : Bytes) (p : Pipe)
    → acc ++ flat p ≡ all
    → IsLive p
    → want < f + length acc
    → length acc ≤ want
    → want ≤ length all
    → (q : Pipe) × (fill f want acc p ≡ full (take want all) q)
      × (flat q ≡ drop want all)
      × IsLive q
fill-full zero want acc all p e l h a b = absurd (omega arith)
fill-full (suc f) want acc all p e l h a b = elim (Bool-cases (ltb (length acc) want)) [
  | inl lt ↦
      let n = want - length acc in
      let lt' : length acc < want = ltb→lt _ _ lt in
      let got = read-pos n p l (omega arith) (omega (arith, length-split acc p e)) in
      let grown = length-append acc (read n p).0 in
      rw (fill-more want f acc p lt' got) (
        fill-full f want (acc ++ (read n p).0) all (read n p).1 (regroup n acc all p e)
          (read-IsLive n p l) (omega (arith, grown)) (omega (arith, grown, read-le n p)) b)
  | inr ge ↦
      let w : length acc ≡ want = omega (arith, ltb→le _ _ ge) in
      let taken : take want all ≡ acc = rw (← e, ← w) (take-length-append acc (flat p)) in
      let dropped : drop want all ≡ flat p = rw (← e, ← w) (drop-length-append acc (flat p)) in
      (p, fill-done want f acc p (omega arith) ∙ ap (λ t. full t p) (sym taken), sym dropped, l)
]

-- Too few bytes: the loop ends at the end of the pipe.
pub fill_short :
    (f want : ℕ) (acc all : Bytes) (p : Pipe)
    → acc ++ flat p ≡ all
    → IsLive p
    → want < f + length acc
    → length all < want
    → fill f want acc p ≡ closed
fill_short zero want acc all p e l h b = absurd (omega (arith, length-split acc p e))
fill_short (suc f) want acc all p e l h b = elim (Bool-cases (ltb 0 (length (flat p)))) [
  | inl lt ↦
      let n = want - length acc in
      let few : length acc < want = omega (arith, length-split acc p e) in
      let got = read-pos n p l (omega arith) (ltb→lt _ _ lt) in
      rw (fill-more want f acc p few got) (
        fill_short f want (acc ++ (read n p).0) all (read n p).1 (regroup n acc all p e)
          (read-IsLive n p l) (omega (arith, length-append acc (read n p).0)) b)
  | inr ge ↦
      let few : length acc < want = omega (arith, length-split acc p e) in
      fill-closed want f acc p few (read-nil _ p (omega (arith, ltb→le _ _ ge)))
]
