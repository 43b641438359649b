-- ===== src/Client/Line.antt =====
-- A connection to the control socket under a timeout, and the loop of reads of `recv_frame`.
-- Time, in milliseconds, passes while the client waits.
use hexe.Prelude.{ℕ, zero, suc, ◌+◌, ◌-◌, ◌++◌, ltb, leb, if◌then◌else◌, length, take, drop, []}
use hexe.Wire.{Bytes, is_empty}

-- What the other end does: chunks, each so long after the one before, and then nothing more, or
-- it closes, or the connection breaks.
pub data Line : Type 0 where
  silent hung_up reset : Line
  later : ℕ → Bytes → Line → Line

-- What the other end sends once it has got a request's bytes.
abbrev pub Peer : Type 0
Peer = Bytes → Line

pub record Conn : Type 0 where
  pub now : ℕ
  pub line : Line

pub data Got : Type 0 where
  chunk : Bytes → Conn → Got
  late : Conn → Got
  broken : Got

abbrev pub at : ℕ → Line → Conn
at now l = record { now = now; line = l }

-- `s.recv(n)` under a timeout of t.
unfoldable pub recv_line : ℕ → ℕ → ℕ → Line → Got
recv_line n t now silent = late (at (now + t) silent)
recv_line n t now hung_up = chunk [] (at now hung_up)
recv_line n t now reset = broken
recv_line n t now (later d b l) =
    if ltb d t
    then (if leb (length b) n
        then chunk b (at (now + d) l)
        else chunk (take n b) (at (now + d) (later 0 (drop n b) l)))
    else late (at (now + t) (later (d - t) b l))

unfoldable pub recv : ℕ → ℕ → Conn → Got
unfolding recv_line
recv n t c = recv_line n t c.now c.line

-- How a loop of reads ends: `ended` has what came before the end of the stream, and `spinning`
-- means that the fuel ran out.
pub data Read : Type 0 where
  whole : Bytes → Conn → Read
  ended : Bytes → Read
  expired : Read
  broke : Read
  spinning : Read

abbrev pub after_recv : (Bytes → Conn → Read) → Bytes → Got → Read
after_recv k acc (chunk b c) = if is_empty b then ended acc else k (acc ++ b) c
after_recv k acc (late c) = expired
after_recv k acc broken = broke

-- `while len(acc) < want: chunk = s.recv(want - len(acc)); if not chunk: ...; acc += chunk`
unfoldable pub fill : ℕ → ℕ → ℕ → Bytes → Conn → Read
unfolding recv
fill zero want t acc c = spinning
fill (suc f) want t acc c =
    let more = after_recv (λ a d. fill f want t a d) acc (recv (want - length acc) t c) in
    if ltb (length acc) want then more else whole acc c
