-- ===== src/Client/Delivers.antt =====
-- The reads under a timeout are the reads of a pipe, as long as the chunks come in time.
use hexe.Prelude.{
  ℕ, zero, suc, ◌+◌, ◌-◌, ◌<◌, ◌≤◌, ◌≡◌, refl, sym, ap, ◌∙◌, inl, inr, true, false, [], ◌∷◌, ◌++◌,
  arith, ltb, leb, length, drop, Bool-cases, lt→ltb, ltb→lt,
}
use hexe.Wire
use hexe.Wire.{Bytes, Pipe, read, full, closed, stuck, is_empty, Filled, unpack, recv_body}
use hexe.Client.Line.{Line, silent, hung_up, reset, later, Conn, at, chunk, recv, whole, fill}

-- The chunks of a line, and how long it takes to deliver them.
abbrev pub pipe : Line → Pipe
pipe (later d b l) = b ∷ pipe l
pipe _ = []

abbrev pub span : Line → ℕ
span (later d b l) = d + span l
span _ = 0

-- The connection that is left once a pipe is left: what it delivers still comes at the same time.
pub record Leaves (c : Conn) (q : Pipe) : Type 0 where
  pub conn : Conn
  pub left : pipe conn.line ≡ q
  pub ahead : c.now ≤ conn.now
  pub on_time : conn.now + span conn.line ≡ c.now + span c.line

record Brings (n t : ℕ) (c : Conn) (p : Bytes × Pipe) : Type 0 where
  is : Leaves c p.1
  got : recv n t c ≡ chunk p.0 is.conn

recv-read :
    (n t now d : ℕ) (b : Bytes) (l : Line)
    → d < t
    → Brings n t (at now (later d b l)) (read n (b ∷ pipe l))
unfolding recv read
recv-read n t now d b l lt = elim (Bool-cases (leb (length b) n)) [
  | inl le ↦ rw le (record {
    is = record { conn = at (now + d) l; left = refl; ahead = omega arith; on_time = omega arith };
    got = rw (lt→ltb _ _ lt) (rw le refl);
  })
  | inr gt ↦ rw gt (record {
    is = record {
      conn = at (now + d) (later 0 (drop n b) l);
      left = refl;
      ahead = omega arith;
      on_time = omega arith;
    };
    got = rw (lt→ltb _ _ lt) (rw gt refl);
  })
]

pub record Fills (f want t : ℕ) (acc : Bytes) (c : Conn) (b : Bytes) (q : Pipe) : Type 0 where
  pub is : Leaves c q
  pub got : fill f want t acc c ≡ whole b is.conn

-- One read that comes back with bytes, then the rest of the loop.
fill-more :
    (f want t : ℕ) (acc : Bytes) (c : Conn) (p : Bytes × Pipe) (b : Bytes) (q : Pipe)
    → length acc < want
    → is_empty p.0 ≡ false
    → (r : Brings (want - length acc) t c p) → Fills f want t (acc ++ p.0) r.is.conn b q
    → Fills (suc f) want t acc c b q
unfolding fill
fill-more f want t acc c p b q lt brings r rest = record {
  is = record {
    conn = rest.is.conn;
    left = rest.is.left;
    ahead = omega (arith, r.is.ahead, rest.is.ahead);
    on_time = rest.is.on_time ∙ r.is.on_time;
  };
  got = rw (lt→ltb _ _ lt) (rw r.got (rw brings rest.got));
}

-- A read of the pipe that brings something is one that comes in time.
recv-some :
    (n t now : ℕ) (l : Line)
    → span l < t
    → is_empty (read n (pipe l)).0 ≡ false
    → Brings n t (at now l) (read n (pipe l))
unfolding read
recv-some n t now silent lt e = absurd cc
recv-some n t now hung_up lt e = absurd cc
recv-some n t now reset lt e = absurd cc
recv-some n t now (later d b l) lt e = recv-read n t now d b l (omega arith)

wire-more :
    (f want : ℕ) (acc : Bytes) (p : Pipe) (b : Bytes) (q : Pipe)
    → ltb (length acc) want ≡ true
    → Wire.fill (suc f) want acc p ≡ full b q
    → (is_empty (read (want - length acc) p).0 ≡ false)
      × (Wire.fill f want (acc ++ (read (want - length acc) p).0) (read (want - length acc) p).1
          ≡ full b q)
unfolding Wire.fill
wire-more f want acc p b q short e = elim (Bool-cases (is_empty (read (want - length acc) p).0)) [
  | inl nothing ↦ let dead : closed ≡ full b q = sym (rw short (rw nothing refl)) ∙ e in absurd cc
  | inr brings ↦ (brings, sym (rw short (rw brings refl)) ∙ e)
]

wire-done :
    (f want : ℕ) (acc : Bytes) (p : Pipe)
    → ltb (length acc) want ≡ false
    → Wire.fill (suc f) want acc p ≡ full acc p
unfolding Wire.fill
wire-done f want acc p ge = rw ge refl

fill-stop :
    (f want t : ℕ) (acc : Bytes) (c : Conn) (b : Bytes) (q : Pipe)
    → ltb (length acc) want ≡ false
    → full acc (pipe c.line) ≡ full b q
    → Fills (suc f) want t acc c b q
unfolding fill
fill-stop f want t acc c b q ge e = record {
  is = record { conn = c; left = cc; ahead = omega arith; on_time = refl };
  got = rw ge cc;
}

-- Where the reads of the pipe fill up, the reads under a timeout do.
pub fill-pipe :
    (f want t : ℕ) (acc : Bytes) (c : Conn) (b : Bytes) (q : Pipe)
    → span c.line < t
    → Wire.fill f want acc (pipe c.line) ≡ full b q
    → Fills f want t acc c b q
unfolding Wire.fill
fill-pipe zero want t acc c b q lt e = absurd cc
fill-pipe (suc f) want t acc c b q lt e = elim (Bool-cases (ltb (length acc) want)) [
  | inr ge ↦ fill-stop f want t acc c b q ge (sym (wire-done f want acc (pipe c.line) ge) ∙ e)
  | inl short ↦
      let (brings, e') = wire-more f want acc (pipe c.line) b q short e in
      let r = recv-some (want - length acc) t c.now c.line lt brings in
      fill-more f want t acc c _ b q (ltb→lt _ _ short) brings r (
        fill-pipe f want t _ r.is.conn b q (omega (arith, r.is.on_time, r.is.ahead))
          (ap (Wire.fill f want _) r.is.left ∙ e'))
]

record Opened (p q : Pipe) (body : Bytes) : Type 0 where
  hdr : Bytes
  rest : Pipe
  head : Wire.fill 5 4 [] p ≡ full hdr rest
  tail : Wire.fill (suc (unpack hdr)) (unpack hdr) [] rest ≡ full body q

open_header :
    (r : Filled) (p q : Pipe) (body : Bytes)
    → Wire.fill 5 4 [] p ≡ r
    → Wire.after_header r ≡ full body q
    → Opened p q body
unfolding Wire.after_header
open_header (full hdr rest) p q body e h = record { hdr = hdr; rest = rest; head = e; tail = h }
open_header closed p q body e h = absurd cc
open_header stuck p q body e h = absurd cc

-- The header and then the body, read under a timeout.
pub record Parts (t : ℕ) (c : Conn) (body : Bytes) (q : Pipe) : Type 0 where
  pub hdr : Bytes
  pub mid : Conn
  pub is : Leaves c q
  pub head : fill 5 4 t [] c ≡ whole hdr mid
  pub tail : fill (suc (unpack hdr)) (unpack hdr) t [] mid ≡ whole body is.conn

pub two_fills :
    (t : ℕ) (c : Conn) (body : Bytes) (q : Pipe)
    → span c.line < t
    → recv_body (pipe c.line) ≡ full body q
    → Parts t c body q
unfolding recv_body
two_fills t c body q lt e =
    let o = open_header _ (pipe c.line) q body refl e in
    let h = fill-pipe 5 4 t [] c o.hdr o.rest lt o.head in
    let b =
      fill-pipe (suc (unpack o.hdr)) (unpack o.hdr) t [] h.is.conn body q
        (omega (arith, h.is.on_time, h.is.ahead))
        (ap (Wire.fill (suc (unpack o.hdr)) (unpack o.hdr) []) h.is.left ∙ o.tail) in
    record {
      hdr = o.hdr;
      mid = h.is.conn;
      is = record {
        conn = b.is.conn;
        left = b.is.left;
        ahead = omega (arith, h.is.ahead, b.is.ahead);
        on_time = b.is.on_time ∙ h.is.on_time;
      };
      head = h.got;
      tail = b.got;
    }
