-- ===== src/Decor/Ends.antt =====
-- How much of the data each step of `feed` takes, and the sequences that the data breaks off.
use hexe.Prelude.{
  ℕ, zero, suc, ◌≤◌, ◌≡◌, refl, Bool, true, false, ◌&&◌, ◌||◌, Option, none, some, [], ◌∷◌, ◌++◌,
  Text, arith, length, ltb, leb, ◌==◌, if◌then◌else◌,
}
use hexe.Film.{Bytes}
use hexe.Decor.{Screen}
use hexe.Decor.Feed.{
  Csi, Step, go, waits, on_csi, skipped, escape, match_final, match_csi, match_osc, match_st,
  is_printed, span_printed, step, after_step, run,
}

-- What a match or a step leaves is no longer than a bound.
abbrev LeavesCsi : ℕ → Option Csi → Type 0
LeavesCsi n none = Unit
LeavesCsi n (some m) = length m.rest ≤ n

abbrev Leaves : ℕ → Option Bytes → Type 0
Leaves n none = Unit
Leaves n (some rest) = length rest ≤ n

abbrev Shrinks : ℕ → Step → Type 0
Shrinks n (go s rest) = length rest ≤ n
Shrinks n waits = Unit

if_under {ℓ κ} :
    {A : Type ℓ} (P : A → Type κ) (b : Bool) (x y : A)
    → (b ≡ true → P x)
    → (b ≡ false → P y)
    → P (if b then x else y)
if_under P true x y h k = h refl
if_under P false x y h k = k refl

if_both {ℓ κ} :
    {A : Type ℓ} (P : A → Type κ) (b : Bool) (x y : A) → P x → P y → P (if b then x else y)
if_both P b x y h k = if_under P b x y (λ e. h) (λ e. k)

LeavesCsi-le : (n m : ℕ) (o : Option Csi) → n ≤ m → LeavesCsi n o → LeavesCsi m o
LeavesCsi-le n m none h k = tt
LeavesCsi-le n m (some c) h k = omega (arith, h, k)

Leaves-le : (n m : ℕ) (o : Option Bytes) → n ≤ m → Leaves n o → Leaves m o
Leaves-le n m none h k = tt
Leaves-le n m (some c) h k = omega (arith, h, k)

match_final-LeavesCsi : (params : Text) (s : Bytes) → LeavesCsi (length s) (match_final params s)
unfolding match_final
match_final-LeavesCsi params [] = tt
match_final-LeavesCsi params (c ∷ s) =
    if_both (LeavesCsi (suc (length s))) (leb 0x20 c && leb c 0x2F) _ _
      (LeavesCsi-le (length s) _ _ (omega arith) (match_final-LeavesCsi params s))
      (if_both (LeavesCsi (suc (length s))) (leb 0x40 c && leb c 0x7E) _ none (omega arith) tt)

match_csi-LeavesCsi : (seen : Text) (s : Bytes) → LeavesCsi (length s) (match_csi seen s)
unfolding match_csi
match_csi-LeavesCsi seen [] = tt
match_csi-LeavesCsi seen (c ∷ s) =
    if_both (LeavesCsi (suc (length s))) (leb 0x30 c && leb c 0x3F) _ _
      (LeavesCsi-le (length s) _ _ (omega arith) (match_csi-LeavesCsi (seen ++ c ∷ []) s))
      (match_final-LeavesCsi seen (c ∷ s))

match_osc-Leaves : (s : Bytes) → Leaves (length s) (match_osc s)
unfolding match_osc
match_osc-Leaves [] = tt
match_osc-Leaves (c ∷ []) = if_both (Leaves 1) (c == 7) (some []) none (omega arith) tt
match_osc-Leaves (c ∷ d ∷ s) =
    let n = suc (suc (length s)) in
    if_both (Leaves n) (c == 7) _ _ (omega arith) (
      if_both (Leaves n) (c == 27) _ _
        (if_both (Leaves n) (d == b'\\') (some s) none (omega arith) tt)
        (Leaves-le (suc (length s)) n _ (omega arith) (match_osc-Leaves (d ∷ s))))

match_st-Leaves : (s : Bytes) → Leaves (length s) (match_st s)
unfolding match_st
match_st-Leaves [] = tt
match_st-Leaves (c ∷ []) = tt
match_st-Leaves (c ∷ d ∷ s) =
    let n = suc (suc (length s)) in
    if_both (Leaves n) (c == 27 && d == b'\\') _ _ (omega arith)
      (Leaves-le (suc (length s)) n _ (omega arith) (match_st-Leaves (d ∷ s)))

on_csi-Shrinks :
    (n : ℕ) (s : Screen) (o : Option Csi) → LeavesCsi n o → Shrinks (suc n) (on_csi s o)
on_csi-Shrinks n s none h = tt
on_csi-Shrinks n s (some m) h = omega (arith, h)

skipped-Shrinks :
    (n : ℕ) (s : Screen) (o : Option Bytes) → Leaves n o → Shrinks (suc n) (skipped s o)
skipped-Shrinks n s none h = tt
skipped-Shrinks n s (some rest) h = omega (arith, h)

escape-Shrinks : (rest : Bytes) (s : Screen) → Shrinks (length rest) (escape rest s)
unfolding escape
escape-Shrinks [] s = tt
escape-Shrinks (c ∷ rest) s =
    let n = suc (length rest) in
    if_both (Shrinks n) (c == b'[') _ _
      (on_csi-Shrinks (length rest) s (match_csi [] rest) (match_csi-LeavesCsi [] rest))
      (if_both (Shrinks n) (c == b']') _ _
        (skipped-Shrinks (length rest) s (match_osc rest) (match_osc-Leaves rest))
        (if_both (Shrinks n) (c == b'P' || c == b'^' || c == b'_') _ _
          (skipped-Shrinks (length rest) s (match_st rest) (match_st-Leaves rest)) (omega arith)))

span_printed-le : (s : Bytes) → length (span_printed s).1 ≤ length s
unfolding span_printed
span_printed-le [] = omega arith
span_printed-le (c ∷ s) =
    if_both (λ (p : Bytes × Bytes). length p.1 ≤ suc (length s)) (is_printed c) _ _
      (omega (arith, span_printed-le s)) (omega arith)

-- A run of printable bytes takes its first byte.
span_printed-shrinks :
    (c : ℕ) (s : Bytes) → is_printed c ≡ true → length (span_printed (c ∷ s)).1 ≤ length s
unfolding span_printed
span_printed-shrinks c s h = rw h (span_printed-le s)

step-Shrinks : (c : ℕ) (rest : Bytes) (s : Screen) → Shrinks (length rest) (step c rest s)
unfolding step
step-Shrinks c rest s =
    let n = length rest in
    if_under (Shrinks n) (c == 0x1B) _ _ (λ is. escape-Shrinks rest s)
      (λ no_escape. if_both (Shrinks n) (c == 0x0D) _ _ (omega arith) (
        if_both (Shrinks n) (c == 0x0A) _ _ (omega arith) (
          if_both (Shrinks n) (c == 0x08) _ _ (omega arith) (
            if_under (Shrinks n) (ltb c 0x20) _ _ (λ is. omega arith)
              (λ no_control.
                span_printed-shrinks c rest (ground (arith, no_escape, no_control)))))))

after_step_enough :
    (k l : Bytes → Screen → Screen) (buf : Bytes) (s : Screen) (n : ℕ) (p : Step)
    → Shrinks n p
    → ((rest : Bytes) (t : Screen) → length rest ≤ n → k rest t ≡ l rest t)
    → after_step k buf s p ≡ after_step l buf s p
after_step_enough k l buf s n (go t rest) h e = e rest t h
after_step_enough k l buf s n waits h e = refl

-- Any two amounts of fuel that are no less than the length of the data give the same screen.
pub run_enough :
    (f g : ℕ) (buf : Bytes) (s : Screen)
    → length buf ≤ f
    → length buf ≤ g
    → run f buf s ≡ run g buf s
unfolding run
run_enough zero zero buf s h k = refl
run_enough zero (suc g) [] s h k = refl
run_enough zero (suc g) (c ∷ rest) s h k = absurd (omega arith)
run_enough (suc f) zero [] s h k = refl
run_enough (suc f) zero (c ∷ rest) s h k = absurd (omega arith)
run_enough (suc f) (suc g) [] s h k = refl
run_enough (suc f) (suc g) (c ∷ rest) s h k =
    after_step_enough (run f) (run g) (c ∷ rest) s (length rest) (step c rest s)
      (step-Shrinks c rest s)
      (λ more t less. run_enough f g more t (omega (arith, less, h)) (omega (arith, less, k)))
