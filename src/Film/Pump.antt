-- ===== src/Film/Pump.antt =====
-- scripts/demo/record.py: `pump`, the thread that reads the pty, between the main thread's start
-- and stop of the recording. The inputs are in the order in which the two threads take effect.
use hexe.Prelude.{ℕ, ◌-◌, Bool, true, false, List, [], ◌∷◌, ◌++◌, if◌then◌else◌}
use hexe.Film.{Bytes, contains}
use hexe.Film.Tables.{query_replies}

-- What the pty delivered, and when.
pub record Chunk : Type 0 where
  pub time : ℕ
  pub bytes : Bytes

pub record Camera : Type 0 where
  pub recording : Bool
  pub t0 : ℕ
  pub events : List Chunk

pub data Input : Type 0 where
  arrives : Chunk → Input
  starts : ℕ → Input
  stops : Input

-- `for query, reply in QUERY_REPLIES: if query in data: os.write(self.master, reply)`
unfoldable pub replies : List (Bytes × Bytes) → Bytes → List Bytes
replies [] bytes = []
replies ((query, reply) ∷ more) bytes =
    if contains query bytes then reply ∷ replies more bytes else replies more bytes

-- One chunk: it is kept while filming, and else its queries are answered.
unfoldable pub on_chunk : Camera → Chunk → Camera × List Bytes
on_chunk s c =
    if s.recording
    then (
      record s { events = s.events ++ record { time = c.time - s.t0; bytes = c.bytes } ∷ [] },
      [],
    )
    else (s, replies query_replies c.bytes)

unfoldable pub on_input : Camera → Input → Camera × List Bytes
unfolding on_chunk
on_input s (arrives c) = on_chunk s c
on_input s (starts t) = (record s { recording = true; t0 = t }, [])
on_input s stops = (record s { recording = false }, [])

-- The camera at the end, and everything that was written back to the pty.
unfoldable pub pump : Camera → List Input → Camera × List Bytes
pump s [] = (s, [])
pump s (i ∷ is) = let (t, out) = on_input s i in let (u, more) = pump t is in (u, out ++ more)

-- The chunks as they are filmed, with times from the start.
abbrev pub filmed : ℕ → List Chunk → List Chunk
filmed t0 [] = []
filmed t0 (c ∷ cs) = record { time = c.time - t0; bytes = c.bytes } ∷ filmed t0 cs

-- The answers to the queries of some chunks, in order.
abbrev pub answered : List Chunk → List Bytes
answered [] = []
answered (c ∷ cs) = replies query_replies c.bytes ++ answered cs
