-- ===== src/Heavy/Looks.antt =====
-- scripts/smoke_heavy2.py: `read_until` and `drain`, which read what the frontend draws until a
-- deadline, and `shell_ready`, which asks until it answers.
use hexe.Prelude.{
  ℕ, ◌≤◌, ◌≡◌, refl, sym, ap, ◌∙◌, ◌⊎◌, inl, inr, Bool, true, false, ◌&&◌, Option, none, some, List,
  [], ◌∷◌, ◌++◌, append_assoc, append-nil, arith, Text, codes, starts_with, ltb, if◌then◌else◌,
  subst, if-true, if-false, Bool-cases, ltb→lt,
}
use hexe.Film.{contains, encode}
use hexe.Film.Script.Laws.{contains-front}
use hexe.Heavy.{Bytes, Pty, Poll, Written, sent, wedged, running, safe_write}

-- One round: the clock, whether `select` reports the pty, and what the read gives then, nothing
-- for an `OSError`.
pub record Look : Type 0 where
  pub now : ℕ
  pub ready : Bool
  pub reads : Option Bytes

-- `watching` means that no further round was given.
pub data Seen : Type 0 where
  seen : Bool → Bytes → Seen
  watching : Seen

unfoldable pub chunk_of : Option Bytes → Bytes
chunk_of none = []
chunk_of (some b) = b

-- The pty is gone, or at its end.
unfoldable pub is_closed : Option Bytes → Bool
is_closed none = true
is_closed (some []) = true
is_closed (some (c ∷ b)) = false

unfoldable pub arrived : Look → Bytes
unfolding chunk_of
arrived l = if l.ready then chunk_of l.reads else []

-- `read_until(fd, marker, timeout_s)`, with what it has read and what it has logged.
unfoldable pub read_until : Bytes → ℕ → Bytes → Bytes → List Look → Seen
unfolding arrived is_closed
read_until marker deadline buf log [] = watching
read_until marker deadline buf log (l ∷ ls) =
    let bigger = buf ++ arrived l in
    let longer = log ++ arrived l in
    let rest = read_until marker deadline bigger longer ls in
    if ltb l.now deadline
    then (if l.ready
        then (if is_closed l.reads
            then seen false log
            else if contains marker bigger
            then seen true longer
            else rest)
        else rest)
    else seen false log

-- `drain(fd, seconds)`: the log at its end, where it has ended.
unfoldable pub drain : ℕ → Bytes → List Look → Option Bytes
unfolding arrived is_closed
drain deadline log [] = none
drain deadline log (l ∷ ls) =
    let rest = drain deadline (log ++ arrived l) ls in
    if ltb l.now deadline
    then (if l.ready && is_closed l.reads then some log else rest)
    else some log

-- One round of asking: the clock, the writes, and the looks with their deadline.
pub record Attempt : Type 0 where
  pub now : ℕ
  pub start : ℕ
  pub polls : List Poll
  pub until : ℕ
  pub looks : List Look

-- How the asking ends: with an answer, with the test's failure, or for want of rounds.
pub data Asked : Type 0 where
  asked : Bool → Pty → Asked
  frozen : Asked
  asking : Asked

after_look : (Pty → Asked) → Pty → Seen → Asked
after_look k t (seen true log) = asked true (record t { log = log })
after_look k t (seen false log) = k (record t { log = log })
after_look k t watching = asking

after_write : Bytes → Attempt → (Pty → Asked) → Written → Asked
unfolding read_until after_look
after_write marker a k (sent t) = after_look k t (read_until marker a.until [] t.log a.looks)
after_write marker a k (wedged off t) = frozen
after_write marker a k running = asking

-- `while time.time() < deadline: safe_write(m, probe); if read_until(m, marker, 4): return True`
unfoldable pub ask : Bytes → Bytes → ℕ → Pty → List Attempt → Asked
unfolding after_write safe_write
ask probe marker deadline t [] = asking
ask probe marker deadline t (a ∷ more) =
    let rest = λ (u : Pty). ask probe marker deadline u more in
    if ltb a.now deadline
    then after_write marker a rest (safe_write 20 probe a.start t a.polls)
    else asked false t

-- `shell_ready(m, tag)`
unfoldable pub shell_ready : Text → ℕ → Pty → List Attempt → Asked
unfolding ask encode
shell_ready tag deadline t attempts =
    ask (encode (codes "echo RDY_" ++ tag ++ codes "\r")) (encode (codes "RDY_" ++ tag)) deadline t
      attempts

-- What arrives in time: until the deadline, or the end of the pty.
abbrev in_time : ℕ → Look → Bytes → Bytes
in_time deadline l more =
    if ltb l.now deadline
    then (if l.ready && is_closed l.reads then [] else arrived l ++ more)
    else []

abbrev pub stream : ℕ → List Look → Bytes
stream deadline [] = []
stream deadline (l ∷ ls) = in_time deadline l (stream deadline ls)

-- Some round comes after the deadline.
abbrev pub Expires : ℕ → List Look → Type 0
Expires deadline [] = ⊥
Expires deadline (l ∷ ls) = (deadline ≤ l.now) ⊎ Expires deadline ls

pub starts_with-append : (s p t : Bytes) → starts_with s p ≡ true → starts_with (s ++ t) p ≡ true
unfolding starts_with
starts_with-append s [] t h = starts_with-nil (s ++ t)
  where
    starts_with-nil : (s : Bytes) → starts_with s [] ≡ true
    starts_with-nil [] = refl
    starts_with-nil (c ∷ s) = refl
starts_with-append [] (p ∷ ps) t h = absurd (ground arith)
starts_with-append (c ∷ s) (p ∷ ps) t h = ground (arith, starts_with-append s ps t)

contains-append_front :
    (piece s t : Bytes) → contains piece s ≡ true → contains piece (s ++ t) ≡ true
unfolding contains
contains-append_front piece [] t h = contains-front piece t (starts_with-append [] piece t h)
contains-append_front piece (c ∷ s) t h =
    ground (arith, starts_with-append (c ∷ s) piece t, contains-append_front piece s t)

-- What the caller of `read_until` learns.
abbrev pub Tells : Bytes → Bytes → Seen → Type 0
Tells marker all r = (b : Bool) × ((log : Bytes) × ((r ≡ seen b log) × (b ≡ contains marker all)))

-- A round before the deadline that does not end the loop.
later :
    (marker buf more : Bytes) (deadline : ℕ) (l : Look) (r : Seen)
    → ltb l.now deadline ≡ true
    → (l.ready && is_closed l.reads) ≡ false
    → Tells marker ((buf ++ arrived l) ++ more) r
    → Tells marker (buf ++ in_time deadline l more) r
later marker buf more deadline l r early stays h =
    subst (λ all. Tells marker all r)
      (append_assoc buf (arrived l) more
        ∙ ap (◌++◌ buf) (
            sym (
              if-true (ltb l.now deadline) _ _ early
              ∙ if-false (l.ready && is_closed l.reads) _ _ stays)))
      h

on_later :
    (marker buf more : Bytes) (deadline : ℕ) (l : Look) (all r : Seen)
    → ltb l.now deadline ≡ true
    → (l.ready && is_closed l.reads) ≡ false
    → all ≡ r
    → Tells marker ((buf ++ arrived l) ++ more) r
    → Tells marker (buf ++ in_time deadline l more) all
on_later marker buf more deadline l all r early stays e h =
    subst (λ q. Tells marker (buf ++ in_time deadline l more) q) (sym e)
      (later marker buf more deadline l r early stays h)

still :
    (l : Look) (ls : List Look) (deadline : ℕ)
    → ltb l.now deadline ≡ true
    → Expires deadline (l ∷ ls)
    → Expires deadline ls
still l ls deadline early (inl late) = absurd (omega (arith, late, ltb→lt l.now deadline early))
still l ls deadline early (inr e) = e

idle-contains :
    (marker buf : Bytes) (l : Look)
    → l.ready ≡ false
    → contains marker buf ≡ false
    → contains marker (buf ++ arrived l) ≡ false
unfolding arrived
idle-contains marker buf l idle h =
    ap (λ b. contains marker (buf ++ b)) (if-false l.ready _ _ idle)
    ∙ ap (contains marker) (append-nil buf)
    ∙ h

-- Where the marker has not been read before and some round comes after the deadline, the wait
-- ends and tells whether the marker is in what arrives in time, however the reads divide it.
pub read_until-Tells :
    (marker : Bytes) (deadline : ℕ) (buf log : Bytes) (ls : List Look)
    → contains marker buf ≡ false
    → Expires deadline ls
    → Tells marker (buf ++ stream deadline ls) (read_until marker deadline buf log ls)
unfolding read_until
read_until-Tells marker deadline buf log [] h e = absurd e
read_until-Tells marker deadline buf log (l ∷ ls) h e =
    let more = stream deadline ls in
    let bigger = buf ++ arrived l in
    let nothing = sym (ap (contains marker) (append-nil buf) ∙ h) in
    elim (Bool-cases (ltb l.now deadline)) [
      | inr late ↦ rw late (false, (log, (refl, nothing)))
      | inl early ↦ elim (Bool-cases l.ready) [
        | inr idle ↦
            on_later marker buf more deadline l _ _ early (ground (arith, idle))
              (if-true (ltb l.now deadline) _ _ early ∙ if-false l.ready _ _ idle)
              (read_until-Tells marker deadline bigger _ ls (idle-contains marker buf l idle h)
                (still l ls deadline early e))
        | inl ready ↦ elim (Bool-cases (is_closed l.reads)) [
          | inl closed ↦ rw (early, ready, closed) (false, (log, (refl, nothing)))
          | inr alive ↦
              let to_marker : read_until marker deadline buf log (l ∷ ls) ≡ (
                  if contains marker bigger
                  then seen true (log ++ arrived l)
                  else read_until marker deadline bigger (log ++ arrived l) ls) =
                if-true (ltb l.now deadline) _ _ early
                ∙ if-true l.ready _ _ ready
                ∙ if-false (is_closed l.reads) _ _ alive in
              elim (Bool-cases (contains marker bigger)) [
                | inl found ↦
                    on_later marker buf more deadline l _ _ early (ground (arith, alive))
                      (to_marker ∙ if-true (contains marker bigger) _ _ found)
                      (
                        true,
                        (
                          log ++ arrived l,
                          (refl, sym (contains-append_front marker bigger more found)),
                        ),
                      )
                | inr missing ↦
                    on_later marker buf more deadline l _ _ early (ground (arith, alive))
                      (to_marker ∙ if-false (contains marker bigger) _ _ missing)
                      (read_until-Tells marker deadline bigger _ ls missing
                        (still l ls deadline early e))
              ]
        ]
      ]
    ]
