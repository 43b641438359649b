-- ===== src/Tests/Ptys.antt =====
-- The pty of scripts/smoke_heavy2.py.
use hexe.Prelude.{
  ℕ, ◌+◌, ◌≤◌, ◌≡◌, refl, inl, inr, Bool, true, false, some, none, List, [], ◌∷◌, ◌++◌, Text, codes,
  length, arith,
}
use hexe.Film.{contains}
use hexe.Heavy.{Bytes, Poll, Pty, Written, sent, wedged, running, safe_write, Rounds, paste, lines}
use hexe.Heavy.Writes.{Delivers, safe_write-Delivers}
use hexe.Heavy.Drains.{safe_write-sent, safe_write-wedged}
use hexe.Heavy.Looks.{Look, read_until, stream, Tells, read_until-Tells}
use hexe.Heavy.Floats.{swap_float_cmds}

abbrev pty : Pty
pty = record { log = []; got = codes "x" }

-- A byte at a time, with something to read the first time.
abbrev slow : List Poll
slow =
    record {
      readable = true;
      reads = some (codes "~");
      room = some 1;
      time_sent = 105;
      time_checked = 106;
    }
    ∷ record { readable = false; reads = none; room = none; time_sent = 0; time_checked = 120 }
    ∷ record { readable = true; reads = none; room = some 1; time_sent = 124; time_checked = 125 }
    ∷ []

safe_write-slow :
    safe_write 20 (codes "ab") 100 pty slow ≡ sent (record { log = codes "~"; got = codes "xab" })
unfolding safe_write hexe.Heavy.write_loop
safe_write-slow = refl

safe_write-sent_example :
    (u : Pty) × ((safe_write 20 (codes "ab") 100 pty slow ≡ sent u) × (u.got ≡ codes "xab"))
safe_write-sent_example =
    safe_write-sent 20 (codes "ab") 100 pty slow (omega arith, (omega arith, (omega arith, tt)))
      (omega arith)

safe_write-Delivers_example :
    Delivers (codes "x") (codes "ab") (safe_write 20 (codes "ab") 100 pty slow)
safe_write-Delivers_example = safe_write-Delivers 20 (codes "ab") 100 pty slow

-- A frontend that reads nothing, seen once in time and once too late.
abbrev frozen : List Poll
frozen =
    record { readable = false; reads = none; room = none; time_sent = 0; time_checked = 110 }
    ∷ record { readable = false; reads = none; room = some 0; time_sent = 121; time_checked = 121 }
    ∷ []

safe_write-wedged_example :
    (u : Pty) × ((safe_write 20 (codes "ab") 100 pty frozen ≡ wedged 0 u) × (u.got ≡ codes "x"))
safe_write-wedged_example =
    safe_write-wedged 20 (codes "ab") 100 pty frozen (refl, (refl, tt)) (omega arith)
      (inr (inl (omega arith)))

abbrev wide : List Poll
wide =
    record { readable = false; reads = none; room = some 1000; time_sent = 1; time_checked = 1 }
    ∷ []

abbrev rounds : Rounds
rounds = record {
  open_start = 0;
  open_polls = wide;
  body_start = 1;
  body_polls = wide;
  close_start = 2;
  close_polls = wide;
}

abbrev pasted : Bytes
pasted = codes "xcat > /dev/null <<'PEOF'\r" ++ (lines 2 ++ codes "PEOF\r")

-- The marker arrives in two reads, with an idle round between them.
abbrev looks : List Look
looks =
    record { now = 1; ready = true; reads = some (codes "$ FLOAT") }
    ∷ record { now = 2; ready = false; reads = none }
    ∷ record { now = 3; ready = true; reads = some (codes "_OK") }
    ∷ record { now = 9; ready = false; reads = none }
    ∷ []

read_until-Tells_example :
    Tells (codes "FLOAT_OK") (stream 5 looks) (read_until (codes "FLOAT_OK") 5 [] [] looks)
unfolding contains hexe.Prelude.starts_with
read_until-Tells_example =
    read_until-Tells (codes "FLOAT_OK") 5 [] [] looks refl (inr (inr (inr (inl (omega arith)))))

abbrev layout : Text
layout = codes "command = \"a\" hexe.float(1, command = \"b c\") hexe.float(2)"

swap_float_cmds-layout :
    swap_float_cmds layout
    ≡ some (codes "command = \"a\" hexe.float(1, command = \"/bin/sh\") hexe.float(2)")
unfolding swap_float_cmds hexe.Prelude.starts_with
swap_float_cmds-layout = refl
