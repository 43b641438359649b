-- ===== src/Heavy/Writes.antt =====
-- The writes of scripts/smoke_heavy2.py: what the frontend has got when one ends.
use hexe.Prelude.{
  ℕ, zero, suc, ◌+◌, ◌-◌, ◌*◌, ◌/◌, ◌≤◌, ◌≡◌, refl, sym, ap, ◌∙◌, inl, inr, false, Option, none,
  some, List, [], ◌∷◌, ◌++◌, append_assoc, append-nil, arith, codes, ltb, length, take, drop,
  length-append, length-take, length-drop, take-length, length-replicate, replicate, subst,
  Bool-cases, ltb→le,
}
use hexe.Heavy.{
  Bytes, Poll, Pty, Written, sent, wedged, running, offered, taken, taken_of, progress, write_loop,
  safe_write, lines, Rounds, and_then, paste,
}

take-nil : (n : ℕ) → take {A = ℕ} n [] ≡ []
take-nil zero = refl
take-nil (suc n) = refl

pub take_add : (n k : ℕ) (xs : Bytes) → take n xs ++ take k (drop n xs) ≡ take (n + k) xs
take_add zero k xs = ap (λ m. take m xs) (omega arith)
take_add (suc n) k [] = take-nil k ∙ sym (take-nil (suc n + k))
take_add (suc n) k (x ∷ xs) =
    let e : suc (n + k) ≡ suc n + k = omega arith in
    ap (◌∷◌ x) (take_add n k xs) ∙ ap (λ m. take m (x ∷ xs)) e

take-take : (n k : ℕ) (xs : Bytes) → n ≤ length (take k xs) → take n (take k xs) ≡ take n xs
take-take zero k xs h = refl
take-take (suc n) zero xs h = absurd (omega arith)
take-take (suc n) (suc k) [] h = refl
take-take (suc n) (suc k) (x ∷ xs) h = ap (◌∷◌ x) (take-take n k xs (omega arith))

taken_of-le : (room : Option ℕ) (offer : Bytes) → taken_of room offer ≤ length offer
unfolding taken_of
taken_of-le none offer = omega arith
taken_of-le (some n) offer = omega arith

pub taken-le : (p : Poll) (offer : Bytes) → taken p offer ≤ length offer
unfolding taken
taken-le p offer = taken_of-le p.room offer

offered-take :
    (chunk : Option ℕ) (rest : Bytes) (n : ℕ)
    → n ≤ length (offered chunk rest)
    → take n (offered chunk rest) ≡ take n rest
unfolding offered
offered-take none rest n h = refl
offered-take (some k) rest n h = take-take n k rest h

offered-le : (chunk : Option ℕ) (rest : Bytes) → length (offered chunk rest) ≤ length rest
unfolding offered
offered-le none rest = omega arith
offered-le (some k) rest = omega (arith, length-take k rest)

-- What the frontend has got beyond what it had before: everything, or the part before the failure.
abbrev pub Delivers : Bytes → Bytes → Written → Type 0
Delivers before bytes (sent u) = u.got ≡ before ++ bytes
Delivers before bytes (wedged off u) = (off ≤ length bytes) × (u.got ≡ before ++ take off bytes)
Delivers before bytes running = Unit

-- One round keeps the bytes in step with the offset.
round-take :
    (chunk : Option ℕ) (before bytes got : Bytes) (off : ℕ) (p : Poll)
    → got ≡ before ++ take off bytes
    → let n = taken p (offered chunk (drop off bytes)) in
      got ++ take n (offered chunk (drop off bytes)) ≡ before ++ take (off + n) bytes
round-take chunk before bytes got off p e =
    let rest = drop off bytes in
    let n = taken p (offered chunk rest) in
    ap (λ g. g ++ take n (offered chunk rest)) e
    ∙ append_assoc before (take off bytes) _
    ∙ ap (λ t. before ++ (take off bytes ++ t))
        (offered-take chunk rest n (taken-le p (offered chunk rest)))
    ∙ ap (◌++◌ before) (take_add off n bytes)

round-le :
    (chunk : Option ℕ) (bytes : Bytes) (off : ℕ) (p : Poll)
    → off ≤ length bytes
    → off + taken p (offered chunk (drop off bytes)) ≤ length bytes
round-le chunk bytes off p h = omega (
  arith,
  taken-le p (offered chunk (drop off bytes)),
  offered-le chunk (drop off bytes),
  length-drop off bytes,
)

all_taken :
    (before bytes got : Bytes) (off : ℕ)
    → off ≤ length bytes
    → ltb off (length bytes) ≡ false
    → got ≡ before ++ take off bytes
    → got ≡ before ++ bytes
all_taken before bytes got off h k e =
    e
    ∙ ap (◌++◌ before)
        (ap (λ n. take n bytes) (omega (arith, h, ltb→le off (length bytes) k)) ∙ take-length bytes)

pub write_loop-Delivers :
    (chunk : Option ℕ) (timeout : ℕ) (before bytes : Bytes) (off last : ℕ) (t : Pty)
    (ps : List Poll)
    → off ≤ length bytes
    → t.got ≡ before ++ take off bytes
    → Delivers before bytes (write_loop chunk timeout bytes off last t ps)
unfolding write_loop
write_loop-Delivers chunk timeout before bytes off last t [] h e =
    elim (Bool-cases (ltb off (length bytes))) [
      | inl more ↦ rw more tt
      | inr done ↦ rw done (all_taken before bytes t.got off h done e)
    ]
write_loop-Delivers chunk timeout before bytes off last t (p ∷ ps) h e =
    let offer = offered chunk (drop off bytes) in
    let n = taken p offer in
    let now = progress p n last in
    let le = round-le chunk bytes off p h in
    let got = round-take chunk before bytes t.got off p e in
    elim (Bool-cases (ltb off (length bytes))) [
      | inr done ↦ rw done (all_taken before bytes t.got off h done e)
      | inl more ↦ elim (Bool-cases (ltb timeout (p.time_checked - now))) [
        | inl late ↦ rw (more, late) (le, got)
        | inr soon ↦
            rw (more, soon)
              (write_loop-Delivers chunk timeout before bytes (off + n) now _ ps le got)
      ]
    ]

-- What is reported as sent has arrived, byte for byte and once; where the frontend is reported
-- as frozen, exactly as many bytes as the report names have.
pub safe_write-Delivers :
    (timeout : ℕ) (bytes : Bytes) (start : ℕ) (t : Pty) (ps : List Poll)
    → Delivers t.got bytes (safe_write timeout bytes start t ps)
unfolding safe_write
safe_write-Delivers timeout bytes start t ps =
    write_loop-Delivers none timeout t.got bytes 0 start t ps (omega arith) (sym (append-nil t.got))

-- The part of `Delivers` about a write that ends well.
abbrev Sends : Bytes → Bytes → Written → Type 0
Sends before bytes (sent u) = u.got ≡ before ++ bytes
Sends before bytes (wedged off u) = Unit
Sends before bytes running = Unit

Delivers-Sends :
    (before bytes : Bytes) (r : Written) → Delivers before bytes r → Sends before bytes r
Delivers-Sends before bytes (sent u) h = h
Delivers-Sends before bytes (wedged off u) h = tt
Delivers-Sends before bytes running h = tt

write_loop-Sends :
    (chunk : Option ℕ) (timeout : ℕ) (bytes : Bytes) (start : ℕ) (t : Pty) (ps : List Poll)
    → Sends t.got bytes (write_loop chunk timeout bytes 0 start t ps)
write_loop-Sends chunk timeout bytes start t ps = Delivers-Sends t.got bytes _ (
    write_loop-Delivers chunk timeout t.got bytes 0 start t ps (omega arith)
      (sym (append-nil t.got)))

safe_write-Sends :
    (timeout : ℕ) (bytes : Bytes) (start : ℕ) (t : Pty) (ps : List Poll)
    → Sends t.got bytes (safe_write timeout bytes start t ps)
safe_write-Sends timeout bytes start t ps =
    Delivers-Sends t.got bytes _ (safe_write-Delivers timeout bytes start t ps)

and_then-Sends :
    (before first more : Bytes) (r : Written) (k : Pty → Written)
    → Sends before first r
    → ((u : Pty) → Sends u.got more (k u))
    → Sends before (first ++ more) (and_then r k)
and_then-Sends before first more (sent u) k h g = after (k u) (g u)
  where
    after : (r : Written) → Sends u.got more r → Sends before (first ++ more) r
    after (sent v) e = e ∙ ap (λ b. b ++ more) h ∙ append_assoc before first more
    after (wedged off v) e = tt
    after running e = tt
and_then-Sends before first more (wedged off u) k h g = tt
and_then-Sends before first more running k h g = tt

pub length-lines : (n : ℕ) → length (lines n) ≡ n * 100
unfolding lines
length-lines zero = refl
length-lines (suc n) = omega (
  arith,
  length-append (replicate 99 b'p') (10 ∷ lines n),
  length-replicate {A = ℕ} 99 b'p',
  length-lines n,
)

-- A paste that ends well has given the shell a here-document whose lines come to the size asked
-- for, rounded down to a whole line.
paste-lines :
    (nbytes : ℕ) (t : Pty) (r : Rounds) (u : Pty)
    → paste nbytes t r ≡ sent u
    → (u.got
        ≡ t.got ++ (codes "cat > /dev/null <<'PEOF'\r" ++ (lines (nbytes / 100) ++ codes "PEOF\r")))
      × (length (lines (nbytes / 100)) ≡ nbytes / 100 * 100)
unfolding paste
paste-lines nbytes t r u e =
    let heredoc = codes "cat > /dev/null <<'PEOF'\r" in
    let body = lines (nbytes / 100) in
    let end = codes "PEOF\r" in
    let closes = λ (w : Pty). safe_write-Sends 20 end r.close_start w r.close_polls in
    let fills = λ (v : Pty).
      and_then-Sends v.got body end (write_loop (some 32768) 30 body 0 r.body_start v r.body_polls)
        _ (write_loop-Sends (some 32768) 30 body r.body_start v r.body_polls) closes in
    let opens =
      and_then-Sends t.got heredoc (body ++ end) (safe_write 20 heredoc r.open_start t r.open_polls)
        _ (safe_write-Sends 20 heredoc r.open_start t r.open_polls) fills in
    (subst (Sends t.got (heredoc ++ (body ++ end))) e opens, length-lines (nbytes / 100))
