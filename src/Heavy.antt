-- ===== src/Heavy.antt =====
-- scripts/smoke_heavy2.py: the pty through which the test drives a frontend, and how it writes to
-- it. One round of a loop is what `select`, the reads, the writes and the clock give it.
pub mod Writes
pub mod Drains
pub mod Looks
pub mod Floats
use hexe.Prelude.{
  ℕ, zero, suc, ◌+◌, ◌-◌, ◌*◌, ◌/◌, min, Bool, true, false, Option, none, some, List, [], ◌∷◌, ◌++◌,
  codes, ltb, if◌then◌else◌, length, take, drop, replicate,
}

abbrev pub Bytes : Type 0
Bytes = List ℕ

-- `readable` is `m in r`, `reads` what `os.read` gives then (nothing for an `OSError`), `room` how
-- much a write takes where `m in w`, and the clock as the round reads it: after a write, and last.
pub record Poll : Type 0 where
  pub readable : Bool
  pub reads : Option Bytes
  pub room : Option ℕ
  pub time_sent : ℕ
  pub time_checked : ℕ

-- The log file, and what the frontend has been given.
pub record Pty : Type 0 where
  pub log : Bytes
  pub got : Bytes

-- How a write ends: `wedged` is the test's failure, with the bytes written until then, and
-- `running` means that no further round was given.
pub data Written : Type 0 where
  sent : Pty → Written
  wedged : ℕ → Pty → Written
  running : Written

or_same : Bytes → Option Bytes → Bytes
or_same log none = log
or_same log (some b) = log ++ b

-- `if m in r: try: log.write(os.read(m, 262144)) except OSError: pass`
unfoldable pub logged : Poll → Bytes → Bytes
unfolding or_same
logged p log = if p.readable then or_same log p.reads else log

-- What a round offers: `data[off:]`, or at most a chunk of it.
unfoldable pub offered : Option ℕ → Bytes → Bytes
offered none rest = rest
offered (some k) rest = take k rest

unfoldable pub taken_of : Option ℕ → Bytes → ℕ
taken_of none offer = 0
taken_of (some n) offer = min n (length offer)

-- How much of it the write takes.
unfoldable pub taken : Poll → Bytes → ℕ
unfolding taken_of
taken p offer = taken_of p.room offer

-- `if n: last = time.time()`
unfoldable pub progress : Poll → ℕ → ℕ → ℕ
progress p zero last = last
progress p (suc n) last = p.time_sent

-- The loop of `safe_write`, which offers all that is left, and of `paste`, which offers a chunk.
unfoldable pub write_loop : Option ℕ → ℕ → Bytes → ℕ → ℕ → Pty → List Poll → Written
unfolding logged offered taken progress
write_loop chunk timeout bytes off last t [] = if ltb off (length bytes) then running else sent t
write_loop chunk timeout bytes off last t (p ∷ ps) =
    let offer = offered chunk (drop off bytes) in
    let n = taken p offer in
    let now = progress p n last in
    let u : Pty = record { log = logged p t.log; got = t.got ++ take n offer } in
    let rest = write_loop chunk timeout bytes (off + n) now u ps in
    if ltb off (length bytes)
    then (if ltb timeout (p.time_checked - now) then wedged (off + n) u else rest)
    else sent t

-- `safe_write(m, data)`, from the time at which it starts.
unfoldable pub safe_write : ℕ → Bytes → ℕ → Pty → List Poll → Written
safe_write timeout bytes start t polls = write_loop none timeout bytes 0 start t polls

-- `(b"p" * 99 + b"\n") * (nbytes // 100)`
unfoldable pub lines : ℕ → Bytes
lines zero = []
lines (suc n) = replicate 99 b'p' ++ 10 ∷ lines n

-- The rounds of a paste's three writes, and the times at which they start.
pub record Rounds : Type 0 where
  pub open_start : ℕ
  pub open_polls : List Poll
  pub body_start : ℕ
  pub body_polls : List Poll
  pub close_start : ℕ
  pub close_polls : List Poll

abbrev pub and_then : Written → (Pty → Written) → Written
and_then (sent t) k = k t
and_then (wedged n t) k = wedged n t
and_then running k = running

-- `paste(m, nbytes)`
unfoldable pub paste : ℕ → Pty → Rounds → Written
unfolding safe_write lines
paste nbytes t r =
    and_then (safe_write 20 (codes "cat > /dev/null <<'PEOF'\r") r.open_start t r.open_polls) (λ u.
      and_then (write_loop (some 32768) 30 (lines (nbytes / 100)) 0 r.body_start u r.body_polls)
        (λ v. safe_write 20 (codes "PEOF\r") r.close_start v r.close_polls))
