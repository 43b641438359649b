-- ===== src/Heavy/Drains.antt =====
-- The writes of scripts/smoke_heavy2.py against a frontend that goes on reading, and against one
-- that has stopped.
use hexe.Prelude.{
  ℕ, zero, suc, ◌+◌, ◌-◌, ◌≤◌, ◌<◌, ◌≡◌, refl, sym, subst, ap, ◌∙◌, inl, inr, Bool, true, false,
  Option, ◌⊎◌, none, some, List, [], ◌∷◌, ◌++◌, arith, ltb, length, take, drop, append-nil,
  length-drop, length-take, Bool-cases, if◌then◌else◌, if-true, if-false, ltb→lt, ltb→le, lt→ltb,
}
use hexe.Heavy.{
  Bytes, Poll, Pty, sent, wedged, logged, offered, taken, taken_of, progress, write_loop,
  safe_write,
}
use hexe.Heavy.Writes.{Delivers, safe_write-Delivers}

-- Whether a write of this round takes a byte.
abbrev pub has_room : Option ℕ → Bool
has_room none = false
has_room (some n) = ltb 0 n

abbrev pub rounds_with_room : List Poll → ℕ
rounds_with_room [] = 0
rounds_with_room (p ∷ ps) =
    if has_room p.room then suc (rounds_with_room ps) else rounds_with_room ps

abbrev pub since : Poll → ℕ → ℕ
since p last = if has_room p.room then p.time_sent else last

-- No look at the clock is later than the timeout after the last round that took a byte.
abbrev pub IsDraining : ℕ → ℕ → List Poll → Type 0
IsDraining timeout last [] = Unit
IsDraining timeout last (p ∷ ps) =
    (p.time_checked ≤ since p last + timeout) × IsDraining timeout (since p last) ps

-- No round takes a byte.
abbrev pub IsStopped : List Poll → Type 0
IsStopped [] = Unit
IsStopped (p ∷ ps) = (has_room p.room ≡ false) × IsStopped ps

-- Some look at the clock is later than this.
abbrev pub Passes : ℕ → List Poll → Type 0
Passes limit [] = ⊥
Passes limit (p ∷ ps) = (limit < p.time_checked) ⊎ Passes limit ps

offered-pos :
    (chunk : Option ℕ) (rest : Bytes)
    → (chunk ≡ none) ⊎ ((k : ℕ) × (chunk ≡ some (suc k)))
    → 0 < length rest
    → 0 < length (offered chunk rest)
unfolding offered
offered-pos chunk rest (inl e) h = rw e h
offered-pos chunk rest (inr (k, e)) h = rw e (omega (arith, length-take (suc k) rest))

taken_of-room :
    (room : Option ℕ) (offer : Bytes)
    → 0 < length offer
    → has_room room ≡ true
    → 0 < taken_of room offer
unfolding taken_of
taken_of-room none offer h k = ground arith
taken_of-room (some n) offer h k = ground arith

taken_of-stopped :
    (room : Option ℕ) (offer : Bytes) → has_room room ≡ false → taken_of room offer ≡ 0
unfolding taken_of
taken_of-stopped none offer k = refl
taken_of-stopped (some n) offer k = ground arith

progress-pos : (p : Poll) (n last : ℕ) → 0 < n → progress p n last ≡ p.time_sent
unfolding progress
progress-pos p zero last h = absurd (omega arith)
progress-pos p (suc n) last h = refl

-- The clock of the loop goes by the rounds that take a byte.
progress-since :
    (p : Poll) (offer : Bytes) (last : ℕ)
    → 0 < length offer
    → progress p (taken p offer) last ≡ since p last
unfolding taken progress
progress-since p offer last h = elim (Bool-cases (has_room p.room)) [
  | inl e ↦
      progress-pos p _ last (taken_of-room p.room offer h e) ∙ sym (if-true (has_room p.room) _ _ e)
  | inr e ↦
      ap (λ n. progress p n last) (taken_of-stopped p.room offer e)
      ∙ sym (if-false (has_room p.room) _ _ e)
]

rounds-taken :
    (p : Poll) (ps : List Poll) (offer : Bytes) (n off : ℕ)
    → 0 < length offer
    → n ≤ off + rounds_with_room (p ∷ ps)
    → n ≤ (off + taken p offer) + rounds_with_room ps
unfolding taken
rounds-taken p ps offer n off some_left h = elim (Bool-cases (has_room p.room)) [
  | inl e ↦ omega (
    arith,
    h,
    if-true (has_room p.room) (suc (rounds_with_room ps)) (rounds_with_room ps) e,
    taken_of-room p.room offer some_left e,
  )
  | inr e ↦
      omega
        (arith, h, if-false (has_room p.room) (suc (rounds_with_room ps)) (rounds_with_room ps) e)
]

-- A frontend that takes at least one byte within every timeout, for as many rounds as there are
-- bytes, gets all of them.
pub write_loop-sent :
    (chunk : Option ℕ) (timeout : ℕ) (bytes : Bytes) (off last : ℕ) (t : Pty) (ps : List Poll)
    → (chunk ≡ none) ⊎ ((k : ℕ) × (chunk ≡ some (suc k)))
    → IsDraining timeout last ps
    → length bytes ≤ off + rounds_with_room ps
    → (u : Pty) × (write_loop chunk timeout bytes off last t ps ≡ sent u)
unfolding write_loop
write_loop-sent chunk timeout bytes off last t [] c d h =
    (t, if-false (ltb off (length bytes)) _ _ (ground arith))
write_loop-sent chunk timeout bytes off last t (p ∷ ps) c (soon, d) h =
    elim (Bool-cases (ltb off (length bytes))) [
      | inr done ↦ (t, if-false (ltb off (length bytes)) _ _ done)
      | inl more ↦
          let offer = offered chunk (drop off bytes) in
          let some_left =
            offered-pos chunk (drop off bytes) c
              (omega (arith, length-drop off bytes, ltb→lt off (length bytes) more)) in
          let n = taken p offer in
          let now : progress p n last ≡ since p last = progress-since p offer last some_left in
          let (u, e) =
            write_loop-sent chunk timeout bytes (off + n) (progress p n last) _ ps c
              (subst (λ l. IsDraining timeout l ps) (sym now) d)
              (rounds-taken p ps offer (length bytes) off some_left h) in
          (
            u,
            if-true (ltb off (length bytes)) _ _ more
                ∙ if-false (ltb timeout (p.time_checked - progress p n last)) _ _
                    (ground (arith, now, soon))
                ∙ e,
          )
    ]

-- Against a frontend that takes at least one byte within every timeout, for as many rounds as
-- there are bytes, a write ends, and all of its bytes have arrived in order.
pub safe_write-sent :
    (timeout : ℕ) (bytes : Bytes) (start : ℕ) (t : Pty) (ps : List Poll)
    → IsDraining timeout start ps
    → length bytes ≤ rounds_with_room ps
    → (u : Pty) × ((safe_write timeout bytes start t ps ≡ sent u) × (u.got ≡ t.got ++ bytes))
unfolding safe_write
safe_write-sent timeout bytes start t ps d h =
    let (u, e) = write_loop-sent none timeout bytes 0 start t ps (inl refl) d (omega (arith, h)) in
    (u, (e, subst (Delivers t.got bytes) e (safe_write-Delivers timeout bytes start t ps)))

-- One round of a frontend that takes nothing: what the loop does next.
stopped_round :
    (timeout : ℕ) (bytes : Bytes) (start : ℕ) (t : Pty) (p : Poll) (ps : List Poll)
    → has_room p.room ≡ false
    → 0 < length bytes
    → let u : Pty = record { log = logged p t.log; got = t.got ++ [] } in
      write_loop none timeout bytes 0 start t (p ∷ ps) ≡ (
        if ltb timeout (p.time_checked - start)
        then wedged 0 u
        else write_loop none timeout bytes 0 start u ps)
unfolding write_loop offered
stopped_round timeout bytes start t p ps stopped more =
    let u =
      λ (n : ℕ). let v : Pty = record { log = logged p t.log; got = t.got ++ take n bytes } in v in
    if-true (ltb 0 (length bytes)) _ _ (lt→ltb 0 (length bytes) more)
    ∙ ap
        (λ n.
          if ltb timeout (p.time_checked - progress p n start)
          then wedged (0 + n) (u n)
          else write_loop none timeout bytes (0 + n) (progress p n start) (u n) ps)
        (taken_of-stopped p.room bytes stopped)

-- A frontend that takes nothing is reported as frozen once a look at the clock is later than the
-- timeout after the start, and nothing has reached it.
pub safe_write-wedged :
    (timeout : ℕ) (bytes : Bytes) (start : ℕ) (t : Pty) (ps : List Poll)
    → IsStopped ps
    → 0 < length bytes
    → Passes (start + timeout) ps
    → (u : Pty) × ((safe_write timeout bytes start t ps ≡ wedged 0 u) × (u.got ≡ t.got))
unfolding safe_write
safe_write-wedged timeout bytes start t [] stopped h late = absurd late
safe_write-wedged timeout bytes start t (p ∷ ps) (stopped, more) h late =
    let u : Pty = record { log = logged p t.log; got = t.got ++ [] } in
    let round = stopped_round timeout bytes start t p ps stopped h in
    elim (Bool-cases (ltb timeout (p.time_checked - start))) [
      | inl now ↦ (u, (round ∙ if-true _ _ _ now, append-nil t.got))
      | inr soon ↦ elim late [
        | inl now ↦ absurd (omega (arith, now, ltb→le timeout (p.time_checked - start) soon))
        | inr later ↦
            let (v, (e, got)) = safe_write-wedged timeout bytes start u ps more h later in
            (v, (round ∙ if-false _ _ _ soon ∙ e, got ∙ append-nil t.got))
      ]
    ]
