-- ===== src/Replies/Once.antt =====
-- What the terminals of the query tests keep of a buffer: nothing that they have answered.
use hexe.Prelude.{
  ℕ, zero, suc, ◌+◌, ◌-◌, ◌<◌, ◌≤◌, ◌≡◌, refl, ap, subst, is_digit, ◌∙◌, inl, inr, Option, none,
  some, List, [], ◌∷◌, arith, and_then, expect, or_else, digits, next_found, find_all, length, drop,
  Bool-cases, ◌==◌,
}
use hexe.Replies.{
  Bytes, Match, match_colour, match_mode, match_keys, match_device, consumed, digits_of, not_empty,
  match_entry, match_one, match_end,
}

-- What a match at the front leaves is shorter than this.
abbrev Less : {A : Type 0} → ℕ → Option (A × Bytes) → Type 0
Less n none = Unit
Less n (some (a, t)) = length t < n

abbrev Shrinks : {A : Type 0} → Match A → Type 0
Shrinks match = (s : Bytes) → Less (length s) (match s)

-- Every match ends this far into the text, or earlier.
abbrev Within : {A : Type 0} → ℕ → ℕ → List (A × Bytes) → Type 0
Within k n [] = Unit
Within k n ((a, t) ∷ ms) = (n ≤ k + length t) × Within k n ms

Within-consumed : {A : Type 0} (n k : ℕ) (ms : List (A × Bytes)) → consumed n ms ≤ k → Within k n ms
unfolding consumed
Within-consumed n k [] h = tt
Within-consumed n k ((a, t) ∷ ms) h = (omega (arith, h), Within-consumed n k ms (omega (arith, h)))

Within-suc :
    {A : Type 0} (k n : ℕ) (ms : List (A × Bytes)) → Within (suc k) (suc n) ms → Within k n ms
Within-suc k n [] h = tt
Within-suc k n ((a, t) ∷ ms) (le, more) = (omega (arith, le), Within-suc k n ms more)

Within-less : {A : Type 0} (k n : ℕ) (ms : List (A × Bytes)) → Within k (suc n) ms → Within k n ms
Within-less k n [] h = tt
Within-less k n ((a, t) ∷ ms) (le, more) = (omega (arith, le), Within-less k n ms more)

module _ {A : Type 0} (match : Match A) (shrinks : Shrinks match) where
  -- Behind the end of every match there is none.
  abbrev Behind : Bytes → Type 0
  Behind s =
      (skip k : ℕ)
      → skip ≤ k
      → Within k (length s) (find_all match skip s)
      → find_all match 0 (drop k s) ≡ []

  at_front :
      (c : ℕ) (s : Bytes) (o : Option (A × Bytes))
      → Behind s
      → match (c ∷ s) ≡ o
      → Within 0 (suc (length s)) (next_found (λ skip. find_all match skip s) (length s) o)
      → find_all match 0 (c ∷ s) ≡ []
  unfolding find_all next_found
  at_front c s none behind e w =
      ap (next_found (λ skip. find_all match skip s) (length s)) e
      ∙ behind 0 0 (omega arith) (Within-less 0 (length s) _ w)
  at_front c s (some (a, t)) behind e (le, more) = absurd (
      let less : length t < suc (length s) = subst (Less (suc (length s))) e (shrinks (c ∷ s)) in
      omega (arith, le, less))

  past_front :
      (k : ℕ) (s : Bytes) (o : Option (A × Bytes))
      → Behind s
      → Within (suc k) (suc (length s)) (next_found (λ skip. find_all match skip s) (length s) o)
      → find_all match 0 (drop k s) ≡ []
  unfolding next_found
  past_front k s none behind w = behind 0 k (omega arith) (Within-suc k (length s) _ w)
  past_front k s (some (a, t)) behind (le, more) =
      behind (length s - length t) k (omega (arith, le)) (Within-suc k (length s) _ more)

  find_all-Behind : (s : Bytes) → Behind s
  unfolding find_all
  find_all-Behind [] skip zero h w = refl
  find_all-Behind [] skip (suc k) h w = refl
  find_all-Behind (c ∷ s) (suc skip) zero h w = absurd (omega arith)
  find_all-Behind (c ∷ s) (suc skip) (suc k) h w =
      find_all-Behind s skip k (omega (arith, h)) (Within-suc k (length s) _ w)
  find_all-Behind (c ∷ s) zero zero h w = at_front c s (match (c ∷ s)) (find_all-Behind s) refl w
  find_all-Behind (c ∷ s) zero (suc k) h w = past_front k s (match (c ∷ s)) (find_all-Behind s) w

  pub find_all-drop :
      (s : Bytes) (k : ℕ)
      → consumed (length s) (find_all match 0 s) ≤ k
      → find_all match 0 (drop k s) ≡ []
  find_all-drop s k h =
      find_all-Behind s 0 k (omega arith) (Within-consumed (length s) k (find_all match 0 s) h)

-- One character of a pattern, and what follows it.
expect-Less :
    {A : Type 0} (n d : ℕ) (s : Bytes) (f : Bytes → Option (A × Bytes))
    → length s ≤ n
    → ((t : Bytes) → length t < n → Less n (f t))
    → Less n (and_then (expect d s) f)
unfolding expect
expect-Less n d [] f h k = tt
expect-Less n d (c ∷ s) f h k = elim (Bool-cases (c == d)) [
  | inl same ↦ rw same (k s (omega (arith, h)))
  | inr other ↦ rw other tt
]

-- A part of a pattern with its own match.
match-Less :
    {A B : Type 0} (n : ℕ) (o : Option (B × Bytes)) (f : B × Bytes → Option (A × Bytes))
    → Less n o
    → ((b : B) (t : Bytes) → length t < n → Less n (f (b, t)))
    → Less n (and_then o f)
match-Less n none f h k = tt
match-Less n (some (b, t)) f h k = k b t h

or_else-Less :
    {A : Type 0} (n : ℕ) (o p : Option (A × Bytes)) → Less n o → Less n p → Less n (or_else o p)
or_else-Less n none p h k = k
or_else-Less n (some (a, t)) p h k = h

digits-le : (s : Bytes) → length (digits s).1 ≤ length s
unfolding digits
digits-le [] = omega arith
digits-le (c ∷ s) = elim (Bool-cases (is_digit c)) [
  | inl d ↦ rw d (omega (arith, digits-le s))
  | inr d ↦ rw d (omega arith)
]

digits_of-Less : (n : ℕ) (s : Bytes) → length s < n → Less n (digits_of s)
unfolding digits_of
digits_of-Less n s h = of (digits s) (digits-le s)
  where
    of : (p : Bytes × Bytes) → length p.1 ≤ length s → Less n (not_empty p)
    of ([], t) le = tt
    of (d ∷ ds, t) le = omega (arith, le, h)

pub match_keys-Less : Shrinks match_keys
unfolding match_keys
match_keys-Less s =
    let n = length s in
    expect-Less n 0x1b s _ (omega arith) (λ t h. expect-Less n b'[' t _ (omega (arith, h)) (λ u k.
      expect-Less n b'?' u _ (omega (arith, k))
        (λ v j. expect-Less n b'u' v _ (omega (arith, j)) (λ w i. i))))

pub match_device-Less : Shrinks match_device
unfolding match_device
match_device-Less s =
    let n = length s in
    expect-Less n 0x1b s _ (omega arith) (λ t h.
      expect-Less n b'[' t _ (omega (arith, h))
        (λ u k. expect-Less n b'c' u _ (omega (arith, k)) (λ w i. i)))

pub match_mode-Less : Shrinks match_mode
unfolding match_mode
match_mode-Less s =
    let n = length s in
    expect-Less n 0x1b s _ (omega arith) (λ t h. expect-Less n b'[' t _ (omega (arith, h)) (λ u k.
      expect-Less n b'?' u _ (omega (arith, k)) (λ v j.
        match-Less n (digits_of v) _ (digits_of-Less n v j) (λ ds w i.
          expect-Less n b'$' w _ (omega (arith, i))
            (λ x g. expect-Less n b'p' x _ (omega (arith, g)) (λ y f. f))))))

match_entry-Less : (n : ℕ) (s : Bytes) → length s < n → Less n (match_entry s)
unfolding match_entry
match_entry-Less n s h = expect-Less n b'4' s _ (omega (arith, h)) (λ t h.
    expect-Less n b';' t _ (omega (arith, h))
      (λ u k. match-Less n (digits_of u) _ (digits_of-Less n u k) (λ ds w i. i)))

match_one-Less : (n d : ℕ) (s : Bytes) → length s < n → Less n (match_one d s)
unfolding match_one
match_one-Less n d s h =
    expect-Less n b'1' s _ (omega (arith, h))
      (λ t h. expect-Less n d t _ (omega (arith, h)) (λ u k. k))

-- The same for a part of a pattern that is not remembered.
abbrev LessBytes : ℕ → Option Bytes → Type 0
LessBytes n none = Unit
LessBytes n (some t) = length t < n

expect-LessBytes : (n d : ℕ) (s : Bytes) → length s ≤ n → LessBytes n (expect d s)
unfolding expect
expect-LessBytes n d [] h = tt
expect-LessBytes n d (c ∷ s) h = elim (Bool-cases (c == d)) [
  | inl same ↦ rw same (omega (arith, h))
  | inr other ↦ rw other tt
]

match_end-LessBytes : (n : ℕ) (s : Bytes) → length s ≤ n → LessBytes n (match_end s)
unfolding match_end
match_end-LessBytes n s h = either (expect 0x1b s) (expect-LessBytes n 0x1b s h)
  where
    other : LessBytes n (expect 0x07 s)
    other = expect-LessBytes n 0x07 s h

    second : (o : Option Bytes) → LessBytes n o → LessBytes n (or_else o (expect 0x07 s))
    second none l = other
    second (some t) l = l

    either :
        (o : Option Bytes)
        → LessBytes n o
        → LessBytes n (or_else (and_then o (λ s. expect b'\\' s)) (expect 0x07 s))
    either none l = other
    either (some t) l = second (expect b'\\' t) (expect-LessBytes n b'\\' t (omega (arith, l)))

end-Less :
    {A : Type 0} (n : ℕ) (a : A) (o : Option Bytes)
    → LessBytes n o
    → Less n (and_then o (λ s. some (a, s)))
end-Less n a none h = tt
end-Less n a (some t) h = h

pub match_colour-Less : Shrinks match_colour
unfolding match_colour
match_colour-Less s =
    let n = length s in
    expect-Less n 0x1b s _ (omega arith) (λ t h. expect-Less n b']' t _ (omega (arith, h)) (λ u k.
      match-Less n _ _
        (or_else-Less n _ _ (match_entry-Less n u k) (
          or_else-Less n _ _ (match_one-Less n b'0' u k)
            (or_else-Less n _ _ (match_one-Less n b'1' u k) (match_one-Less n b'2' u k))))
        (λ what v j. expect-Less n b';' v _ (omega (arith, j)) (λ w i.
          expect-Less n b'?' w _ (omega (arith, i))
            (λ x g. end-Less n what (match_end x) (match_end-LessBytes n x (omega (arith, g))))))))
