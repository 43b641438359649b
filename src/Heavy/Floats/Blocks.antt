-- ===== src/Heavy/Floats/Blocks.antt =====
-- `swap_float_cmds` of scripts/smoke_heavy2.py, on the floats of a layout.
use hexe.Prelude.{
  ℕ, zero, suc, ◌≤◌, ◌<◌, ◌≡◌, refl, sym, ap, subst, ◌∙◌, ◌⊎◌, inl, inr, Bool, true, false, ◌&&◌,
  not, Option, none, some, List, [], ◌∷◌, ◌++◌, append_assoc, append-nil, arith, Text, codes,
  starts_with, ◌==◌, succ, find_at, if-true, if-false, Bool-cases, length, take, drop, length-drop,
  take-append-drop, take-length,
}
use hexe.Film.{contains}
use hexe.Heavy.Looks.{starts_with-append}
use hexe.Heavy.Floats.{
  float, block_length, first_length, prepended, swap_found, swap_blocks, IsBlock, AreBlocks, concat,
  changed,
}

-- What the search tells: the first place, or that there is none.
abbrev Found : Text → Text → Option ℕ → Type 0
Found piece s none = contains piece s ≡ false
Found piece s (some m) =
    (m ≤ length s) × ((starts_with (drop m s) piece ≡ true) × (contains piece (take m s) ≡ false))

contains-take :
    (piece : Text) (c : ℕ) (m : ℕ) (s : Text)
    → starts_with (c ∷ s) piece ≡ false
    → contains piece (take m s) ≡ false
    → contains piece (c ∷ take m s) ≡ false
unfolding contains
contains-take piece c m s front rest = elim (Bool-cases (starts_with (c ∷ take m s) piece)) [
  | inr no_front ↦ ground (arith, no_front, rest)
  | inl yes_front ↦ absurd (
      ground (
        arith,
        front,
        sym (ap (λ t. starts_with (c ∷ t) piece) (take-append-drop m s))
            ∙ starts_with-append (c ∷ take m s) piece (drop m s) yes_front,
      ))
]

succ-Found :
    (piece : Text) (c : ℕ) (s : Text) (o : Option ℕ)
    → starts_with (c ∷ s) piece ≡ false
    → Found piece s o
    → Found piece (c ∷ s) (succ o)
unfolding succ contains
succ-Found piece c s none front h = ground (arith, front, h)
succ-Found piece c s (some m) front (le, (there, before)) =
    (omega (arith, le), (there, contains-take piece c m s front before))

find_at-Found : (p : ℕ) (ps s : Text) → Found (p ∷ ps) s (find_at (p ∷ ps) s)
unfolding find_at contains starts_with
find_at-Found p ps [] = refl
find_at-Found p ps (c ∷ s) = elim (Bool-cases (starts_with (c ∷ s) (p ∷ ps))) [
  | inl front ↦
      subst (Found (p ∷ ps) (c ∷ s)) (sym (if-true (starts_with (c ∷ s) (p ∷ ps)) _ _ front))
        (omega arith, (front, refl))
  | inr other ↦
      subst (Found (p ∷ ps) (c ∷ s)) (sym (if-false (starts_with (c ∷ s) (p ∷ ps)) _ _ other))
        (succ-Found (p ∷ ps) c s (find_at (p ∷ ps) s) other (find_at-Found p ps s))
]

starts_with-take :
    (s p : Text) (k : ℕ) → starts_with s p ≡ true → length p ≤ k → starts_with (take k s) p ≡ true
unfolding starts_with
starts_with-take s [] k h le = starts_with-append [] [] (take k s) refl
starts_with-take [] (p ∷ ps) k h le = absurd (ground arith)
starts_with-take (c ∷ s) (p ∷ ps) zero h le = absurd (omega arith)
starts_with-take (c ∷ s) (p ∷ ps) (suc k) h le = ground (arith, starts_with-take s ps k)

abbrev lacks : ℕ → Text → Bool
lacks p [] = true
lacks p (c ∷ s) = not (c == p) && lacks p s

-- A piece starts at no place of a text that lacks its first character.
lacks-le :
    (p : ℕ) (ps front : Text) (n : ℕ) (s : Text)
    → lacks p ps ≡ true
    → starts_with s ps ≡ true
    → starts_with (drop n s) (p ∷ front) ≡ true
    → length ps ≤ n
unfolding starts_with
lacks-le p [] front n s l h k = omega arith
lacks-le p (q ∷ qs) front n [] l h k = absurd (ground arith)
lacks-le p (q ∷ qs) front zero (c ∷ s) l h k = absurd (ground arith)
lacks-le p (q ∷ qs) front (suc n) (c ∷ s) l h k = ground (arith, lacks-le p qs front n s)

drop-length : (s : Text) → drop (length s) s ≡ []
drop-length [] = refl
drop-length (c ∷ s) = drop-length s

-- The length of the first block, and what is behind it.
IsFirst : Text → ℕ → Type 0
IsFirst b k =
    (k ≤ length b)
    × ((0 < k) × (IsBlock (take k b) × ((drop k b ≡ []) ⊎ (starts_with (drop k b) float ≡ true))))

first_length-IsFirst :
    (c : ℕ) (s : Text) (o : Option ℕ)
    → starts_with (c ∷ s) float ≡ true
    → Found float s o
    → IsFirst (c ∷ s) (first_length (length (c ∷ s)) o)
unfolding first_length starts_with IsFirst
first_length-IsFirst c s none h lone = (
  omega arith,
  (
    omega arith,
    (
      (
        ap (λ t. starts_with (c ∷ t) float) (take-length s) ∙ h,
        ap (contains float) (take-length s) ∙ lone,
      ),
      inl (drop-length s),
    ),
  ),
)
first_length-IsFirst c s (some n) h (le, (there, before)) =
    let far =
      lacks-le b'h' (codes "exe.float(") (codes "exe.float(") n s refl (ground (arith, h)) there in
    (
      omega (arith, le),
      (
        omega arith,
        ((starts_with-take (c ∷ s) float (suc n) h (omega (arith, far)), before), inr there),
      ),
    )

block_length-IsFirst : (b : Text) → starts_with b float ≡ true → IsFirst b (block_length b)
unfolding block_length starts_with first_length
block_length-IsFirst [] h = absurd (ground arith)
block_length-IsFirst (c ∷ s) h =
    first_length-IsFirst c s (find_at float s) h (find_at-Found b'h' (codes "exe.float(") s)

prepended-append :
    (a b : Text) (o : Option Text) → prepended (a ++ b) o ≡ prepended a (prepended b o)
unfolding prepended
prepended-append a b none = refl
prepended-append a b (some s) = ap some (append_assoc a b s)

-- What the loop makes of a text that is a row of blocks.
Swapped : (Text → Text) → Text → Option Text → Type 0
Swapped change s out =
    (bs : List Text) × (AreBlocks bs × ((s ≡ concat bs) × (out ≡ some (changed change bs))))

first_block :
    (change : Text → Text) (b : Text) (out : Option Text)
    → starts_with b float ≡ true
    → Swapped change (drop (block_length b) b) out
    → Swapped change b (prepended (change (take (block_length b) b)) out)
unfolding Swapped prepended IsFirst
first_block change b out h (bs, (blocks, (e, o))) =
    let k = block_length b in
    let (le, (pos, (is_block, next))) = block_length-IsFirst b h in
    (
      take k b ∷ bs,
      (
        (is_block, blocks),
        (
          sym (take-append-drop k b) ∙ ap (λ t. take k b ++ t) e,
          ap (prepended (change (take k b))) o,
        ),
      ),
    )

find_at-front : (piece s : Text) → starts_with s piece ≡ true → find_at piece s ≡ some 0
unfolding find_at
find_at-front piece [] h = if-true (starts_with [] piece) _ _ h
find_at-front piece (c ∷ s) h = if-true (starts_with (c ∷ s) piece) _ _ h

swap_blocks-Swapped :
    (change : Text → Text) (fuel : ℕ) (s : Text)
    → length s < fuel
    → (s ≡ []) ⊎ (starts_with s float ≡ true)
    → Swapped change s (swap_blocks change fuel s)
unfolding Swapped swap_blocks swap_found find_at starts_with IsFirst
swap_blocks-Swapped change zero s le h = absurd (omega arith)
swap_blocks-Swapped change (suc fuel) s le (inl e) = rw e ([], (tt, (refl, refl)))
swap_blocks-Swapped change (suc fuel) s le (inr h) =
    let k = block_length s in
    let (short, (pos, (is_block, next))) = block_length-IsFirst s h in
    let rest =
      swap_blocks-Swapped change fuel (drop k s) (omega (arith, le, length-drop k s, pos, short))
        next in
    subst (Swapped change s)
      (sym (ap (swap_found change (swap_blocks change fuel) s) (find_at-front float s h)))
      (first_block change s (swap_blocks change fuel (drop k s)) h rest)

-- Where the text has a float, the loop starts with the first one.
swap_found-Swapped :
    (change : Text → Text) (fuel : ℕ) (s : Text) (o : Option ℕ)
    → length s ≤ fuel
    → Found float s o
    → (before : Text) × ((bs : List Text) × ((contains float before ≡ false)
          × (AreBlocks bs
              × ((s ≡ before ++ concat bs)
                  × (swap_found change (swap_blocks change fuel) s o
                      ≡ some (before ++ changed change bs))))))
unfolding swap_found Swapped prepended IsFirst
swap_found-Swapped change fuel s none le h =
    (s, ([], (h, (tt, (sym (append-nil s), ap some (sym (append-nil s)))))))
swap_found-Swapped change fuel s (some j) le (short, (there, before)) =
    let block = drop j s in
    let k = block_length block in
    let (fits, (pos, (is_block, next))) = block_length-IsFirst block there in
    let (bs, (blocks, (e, o))) =
      first_block change block (swap_blocks change fuel (drop k block)) there (
        swap_blocks-Swapped change fuel (drop k block)
          (omega (arith, le, length-drop k block, length-drop j s, pos, fits)) next) in
    (
      take j s,
      (
        bs,
        (
          before,
          (
            blocks,
            (
              sym (take-append-drop j s) ∙ ap (◌++◌ (take j s)) e,
              prepended-append (take j s) (change (take k block))
                    (swap_blocks change fuel (drop k block))
                  ∙ ap (prepended (take j s)) o,
            ),
          ),
        ),
      ),
    )

-- A layout is the text before its first float and its floats' blocks, each up to the next float;
-- the loop ends, keeps what is before, and changes each block on its own.
pub swap_blocks_blocks :
    (change : Text → Text) (s : Text)
    → (before : Text) × ((bs : List Text) × ((contains float before ≡ false)
          × (AreBlocks bs
              × ((s ≡ before ++ concat bs)
                  × (swap_blocks change (suc (length s)) s ≡ some (before ++ changed change bs))))))
unfolding swap_blocks
swap_blocks_blocks change s =
    swap_found-Swapped change (length s) s (find_at float s) (omega arith)
      (find_at-Found b'h' (codes "exe.float(") s)
