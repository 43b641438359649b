-- ===== src/Frame/Address.antt =====
-- The cursor addresses that `csi` reads.
use hexe.Prelude.{
  ℕ, codes, append-nil, append_assoc, sym, ◌+◌, ◌-◌, ◌<◌, ◌≡◌, refl, ap, ap₂, ◌∙◌, true, false,
  ◌||◌, some, List, [], ◌∷◌, ◌++◌, Text, arith, ◌==◌, length, show, all_digits, all_digits-show,
  length-show, value_from, value_from-show, starts_with, pos, negsuc, sub_ℕ, min_ℤ,
}
use hexe.Frame.{Screen, index_of}
use hexe.Frame.Feed.{csi, numbers, split_params, last_index, match_csi, is_param, Match}

split_params-digits :
    (s t : Text) → all_digits s ≡ true → split_params (s ++ b';' ∷ t) ≡ s ∷ split_params t
unfolding split_params
split_params-digits [] t h = refl
split_params-digits (c ∷ s) t h =
    let rest : all_digits s ≡ true = ground arith in
    let no_sep : (c == b';' || c == b':') ≡ false = ground arith in
    rw no_sep (rw (split_params-digits s t rest))

pub split_params-last : (s : Text) → all_digits s ≡ true → split_params s ≡ s ∷ []
unfolding split_params
split_params-last [] h = refl
split_params-last (c ∷ s) h =
    let rest : all_digits s ≡ true = ground arith in
    let no_sep : (c == b';' || c == b':') ≡ false = ground arith in
    rw no_sep (rw (split_params-last s rest))

numbers-cons :
    (s : Text) (ps : List Text)
    → all_digits s ≡ true
    → 0 < length s
    → numbers (s ∷ ps) ≡ value_from 0 s ∷ numbers ps
unfolding numbers
numbers-cons [] ps h k = absurd (omega arith)
numbers-cons (c ∷ s) ps h k = rw h

pub numbers-show : (n : ℕ) (ps : List Text) → numbers (show n ∷ ps) ≡ n ∷ numbers ps
numbers-show n ps =
    numbers-cons (show n) ps (all_digits-show n) (length-show n)
    ∙ ap (λ k. k ∷ numbers ps) (value_from-show n)

-- The two numbers of an address come back from their decimal text.
pub address_numbers : (r c : ℕ) → numbers (split_params (show r ++ b';' ∷ show c)) ≡ r ∷ c ∷ []
address_numbers r c =
    ap numbers (
      split_params-digits (show r) (show c) (all_digits-show r)
      ∙ ap (◌∷◌ (show r)) (split_params-last (show c) (all_digits-show c)))
    ∙ numbers-show r (show c ∷ [])
    ∙ ap (◌∷◌ r) (numbers-show c [] ∙ unfold numbers in refl)

-- Digits in front of a control sequence's rest go to its parameters.
pub match_csi-digits :
    (seen s t : Text) → all_digits s ≡ true → match_csi seen (s ++ t) ≡ match_csi (seen ++ s) t
unfolding match_csi
match_csi-digits seen [] t h = ap (λ p. match_csi p t) (sym (append-nil seen))
match_csi-digits seen (c ∷ s) t h =
    let rest : all_digits s ≡ true = ground arith in
    let param : is_param c ≡ true = ground arith in
    rw param (
      match_csi-digits (seen ++ c ∷ []) s t rest
      ∙ ap (λ p. match_csi p t) (append_assoc seen (c ∷ []) s))

-- The rest of a control sequence, read to its end: the final byte and the numbers.
abbrev pub ReadsAs : Text → ℕ → List ℕ → Type 0
ReadsAs body final nums =
    (m : Match) × (match_csi [] body ≡ some m)
    × (m.final ≡ final)
    × (m.rest ≡ [])
    × (numbers (split_params m.params) ≡ nums)

-- Numbers as the parameters of a control sequence.
abbrev pub params_of : ℕ → List ℕ → Text
params_of n [] = show n
params_of n (m ∷ ns) = show n ++ b';' ∷ params_of m ns

pub numbers-params_of : (n : ℕ) (ns : List ℕ) → numbers (split_params (params_of n ns)) ≡ n ∷ ns
numbers-params_of n [] =
    ap numbers (split_params-last (show n) (all_digits-show n))
    ∙ numbers-show n []
    ∙ unfold numbers in refl
numbers-params_of n (m ∷ ns) =
    ap numbers (split_params-digits (show n) (params_of m ns) (all_digits-show n))
    ∙ numbers-show n (split_params (params_of m ns))
    ∙ ap (◌∷◌ n) (numbers-params_of m ns)

match_csi-params_of :
    (seen : Text) (n : ℕ) (ns : List ℕ) (t : Text)
    → match_csi seen (params_of n ns ++ t) ≡ match_csi (seen ++ params_of n ns) t
unfolding match_csi
match_csi-params_of seen n [] t = match_csi-digits seen (show n) t (all_digits-show n)
match_csi-params_of seen n (m ∷ ns) t =
    ap (match_csi seen) (append_assoc (show n) (b';' ∷ params_of m ns) t)
    ∙ match_csi-digits seen (show n) (b';' ∷ (params_of m ns ++ t)) (all_digits-show n)
    ∙ match_csi-params_of ((seen ++ show n) ++ b';' ∷ []) m ns t
    ∙ ap (λ p. match_csi p t)
        (append_assoc (seen ++ show n) (b';' ∷ []) (params_of m ns)
          ∙ append_assoc seen (show n) (b';' ∷ params_of m ns))

-- The parameters read back, with `m` for their final byte.
pub params_of-ReadsAs : (n : ℕ) (ns : List ℕ) → ReadsAs (params_of n ns ++ codes "m") b'm' (n ∷ ns)
unfolding match_csi
params_of-ReadsAs n ns = (
  record { params = params_of n ns; final = b'm'; rest = [] },
  match_csi-params_of [] n ns (codes "m"),
  refl,
  refl,
  numbers-params_of n ns,
)

no_question :
    (s t : Text) → all_digits s ≡ true → 0 < length s → starts_with (s ++ t) (b'?' ∷ []) ≡ false
unfolding starts_with
no_question [] t h k = absurd (omega arith)
no_question (c ∷ s) t h k = ground arith

address :
    (r c : ℕ) (s : Screen)
    → csi (show r ++ b';' ∷ show c) b'H' s
      ≡ some (record s {
        y = min_ℤ (last_index s.rows) (sub_ℕ r 1);
        x = min_ℤ (last_index s.cols) (sub_ℕ c 1);
      })
unfolding csi
address r c s =
    rw (no_question (show r) (b';' ∷ show c) (all_digits-show r) (length-show r))
      (rw (address_numbers r c))

clamp-within : (n r : ℕ) → r < n → min_ℤ (last_index n) (sub_ℕ (r + 1) 1) ≡ pos r
clamp-within n r h = ground arith

clamp-zero : (n : ℕ) → 0 < n → min_ℤ (last_index n) (sub_ℕ 0 1) ≡ negsuc 0
clamp-zero n h = ground arith

-- An address within the screen, its row and column counted from 1, is where the cursor goes.
csi-address :
    (r c : ℕ) (s : Screen)
    → r < s.rows
    → c < s.cols
    → csi (show (r + 1) ++ b';' ∷ show (c + 1)) b'H' s ≡ some (record s { x = pos c; y = pos r })
csi-address r c s hr hc =
    address (r + 1) (c + 1) s
    ∙ ap₂ (λ x y. some (record s { x = x; y = y })) (clamp-within s.cols c hc)
        (clamp-within s.rows r hr)

-- An address in row 0, at any column of the screen counted from 1, leaves the cursor in row -1,
-- which indexes the last row of the screen, and not the first.
pub csi-address_zero :
    (c : ℕ) (s : Screen)
    → 0 < s.rows
    → c < s.cols
    → (csi (show 0 ++ b';' ∷ show (c + 1)) b'H' s ≡ some (record s { x = pos c; y = negsuc 0 }))
      × (index_of s.rows (negsuc 0) ≡ some (s.rows - 1))
unfolding index_of
csi-address_zero c s hr hc = (
  address 0 (c + 1) s
      ∙ ap₂ (λ x y. some (record s { x = x; y = y })) (clamp-within s.cols c hc)
          (clamp-zero s.rows hr),
  ground arith,
)
