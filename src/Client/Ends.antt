-- ===== src/Client/Ends.antt =====
-- `collect` ends, whatever comes.
use hexe.Prelude.{
  ℕ, zero, suc, ◌+◌, ◌-◌, ◌<◌, ◌≤◌, ◌≡◌, ◌≢◌, subst, refl, sym, inl, inr, Option, none, some, List,
  [], ◌∷◌, ◌++◌, arith, max, ltb, leb, length, drop, length-append, length-take, length-drop,
  Bool-cases, ltb→lt, ltb→le,
}
use hexe.Wire.{Bytes, unpack}
use hexe.Wire.Reads.{flat}
use hexe.Client.{
  Json, null, boolean, number, other_number, text, array, object, Outcome, returns, raised, failed,
  unfinished, timed_out, os_error, struct_error, value_error, attribute_error, key_error,
  index_error, type_error,
}
use hexe.Client.Line.{
  Line, silent, hung_up, reset, later, Conn, Got, chunk, late, broken, recv_line, recv, Read, whole,
  ended, expired, broke, spinning, after_recv, fill,
}
use hexe.Client.Delivers.{pipe}
use hexe.Client.Events.{
  Codec, Arrived, loaded, after_body, after_header, recv_frame, on_arrival, collect_until, collect,
}

abbrev pub bytes_of : Line → ℕ
bytes_of l = length (flat (pipe l))

-- A chunk that is read is taken off the line.
abbrev IsTaken : ℕ → ℕ → Got → Type 0
IsTaken n k (chunk b c) = (length b + bytes_of c.line ≡ k) × (length b ≤ n)
IsTaken n k _ = Unit

recv_line-IsTaken : (n t now : ℕ) (l : Line) → IsTaken n (bytes_of l) (recv_line n t now l)
unfolding recv_line
recv_line-IsTaken n t now silent = tt
recv_line-IsTaken n t now hung_up = (refl, omega arith)
recv_line-IsTaken n t now reset = tt
recv_line-IsTaken n t now (later d b l) = elim (Bool-cases (ltb d t)) [
  | inr wait ↦ rw wait tt
  | inl prompt ↦ rw prompt (elim (Bool-cases (leb (length b) n)) [
    | inl le ↦ rw le (sym (length-append b (flat (pipe l))), ground arith)
    | inr gt ↦ rw gt (
      omega (
        arith,
        length-take n b,
        length-drop n b,
        length-append b (flat (pipe l)),
        length-append (drop n b) (flat (pipe l)),
      ),
      omega (arith, length-take n b),
    )
  ])
]

-- A loop of reads does not run out of fuel, and what it fills up with is off the line.
abbrev IsFilled : ℕ → ℕ → Read → Type 0
IsFilled want k (whole b c) = (length b + bytes_of c.line ≡ k) × (want ≤ length b)
IsFilled want k spinning = ⊥
IsFilled want k _ = Unit

after_recv-IsFilled :
    (want k n : ℕ) (go : Bytes → Conn → Read) (acc : Bytes) (g : Got)
    → IsTaken n k g
    → ((b : Bytes) (c : Conn)
        → 0 < length b
        → length b + bytes_of c.line ≡ k
        → IsFilled want (length acc + k) (go (acc ++ b) c))
    → IsFilled want (length acc + k) (after_recv go acc g)
after_recv-IsFilled want k n go acc (late c) t h = tt
after_recv-IsFilled want k n go acc broken t h = tt
after_recv-IsFilled want k n go acc (chunk [] c) t h = tt
after_recv-IsFilled want k n go acc (chunk (x ∷ b) c) t h = h (x ∷ b) c (omega arith) t.0

fill-IsFilled :
    (f want t : ℕ) (acc : Bytes) (c : Conn)
    → want - length acc < f
    → IsFilled want (length acc + bytes_of c.line) (fill f want t acc c)
unfolding fill recv
fill-IsFilled zero want t acc c h = absurd (omega arith)
fill-IsFilled (suc f) want t acc c h = elim (Bool-cases (ltb (length acc) want)) [
  | inr ge ↦ rw ge (refl, ltb→le _ _ ge)
  | inl short ↦ rw short (
      after_recv-IsFilled want (bytes_of c.line) (want - length acc) (λ a d. fill f want t a d) acc
        (recv (want - length acc) t c) (recv_line-IsTaken (want - length acc) t c.now c.line)
        (λ b d some_more e.
          subst (λ k. IsFilled want k (fill f want t (acc ++ b) d))
            (omega (arith, e, length-append acc b))
            (fill-IsFilled f want t (acc ++ b) d
              (omega (arith, some_more, length-append acc b, ltb→lt _ _ short)))))
]

fill-nil :
    (f want t : ℕ) (c : Conn) → want < f → IsFilled want (bytes_of c.line) (fill f want t [] c)
fill-nil f want t c h =
    subst (λ k. IsFilled want k (fill f want t [] c)) (omega arith)
      (fill-IsFilled f want t [] c (omega arith))

-- What `recv_frame` gives is off the line, unless it is `None`.
abbrev IsLess : ℕ → Arrived → Type 0
IsLess k unfinished = ⊥
IsLess k (returns (null, c)) = Unit
IsLess k (returns (v, c)) = bytes_of c.line < k
IsLess k _ = Unit

module _ (codec : Codec) where
  loaded-IsLess :
      (k : ℕ) (c : Conn) (o : Option Json) → bytes_of c.line < k → IsLess k (loaded codec c o)
  loaded-IsLess k c none h = tt
  loaded-IsLess k c (some null) h = tt
  loaded-IsLess k c (some (boolean b)) h = h
  loaded-IsLess k c (some (number n)) h = h
  loaded-IsLess k c (some (other_number s)) h = h
  loaded-IsLess k c (some (text s)) h = h
  loaded-IsLess k c (some (array xs)) h = h
  loaded-IsLess k c (some (object ms)) h = h

  after_body-IsLess :
      (k n w : ℕ) (d : Conn) (r : Read) → n < k → IsFilled w n r → IsLess k (after_body codec d r)
  after_body-IsLess k n w d (whole b c) h f = loaded-IsLess k c (codec.loads b) (omega (arith, f.0))
  after_body-IsLess k n w d (ended got) h f = tt
  after_body-IsLess k n w d expired h f = tt
  after_body-IsLess k n w d broke h f = tt
  after_body-IsLess k n w d spinning h f = f

  after_header-IsLess :
      (k t : ℕ) (d : Conn) (r : Read) → IsFilled 4 k r → IsLess k (after_header codec t d r)
  after_header-IsLess k t d (whole hdr c) f =
      after_body-IsLess k (bytes_of c.line) (unpack hdr) c _ (omega (arith, f.0, f.1))
        (fill-nil (suc (unpack hdr)) (unpack hdr) t c (omega arith))
  after_header-IsLess k t d (ended got) f = tt
  after_header-IsLess k t d expired f = tt
  after_header-IsLess k t d broke f = tt
  after_header-IsLess k t d spinning f = f

  recv_frame-IsLess : (t : ℕ) (c : Conn) → IsLess (bytes_of c.line) (recv_frame codec t c)
  unfolding recv_frame
  recv_frame-IsLess t c =
      after_header-IsLess (bytes_of c.line) t c _ (fill-nil 5 4 t c (omega arith))

  abbrev IsEnd : Outcome (List Json) → Type 0
  IsEnd unfinished = ⊥
  IsEnd _ = Unit

  on_arrival-IsEnd :
      (k : ℕ) (go : List Json → Conn → Outcome (List Json)) (got : List Json) (a : Arrived)
      → IsLess k a
      → ((g : List Json) (c : Conn) → bytes_of c.line < k → IsEnd (go g c))
      → IsEnd (on_arrival codec go got a)
  on_arrival-IsEnd k go got (raised timed_out) h next = tt
  on_arrival-IsEnd k go got (raised os_error) h next = tt
  on_arrival-IsEnd k go got (raised struct_error) h next = tt
  on_arrival-IsEnd k go got (raised value_error) h next = tt
  on_arrival-IsEnd k go got (raised attribute_error) h next = tt
  on_arrival-IsEnd k go got (raised key_error) h next = tt
  on_arrival-IsEnd k go got (raised index_error) h next = tt
  on_arrival-IsEnd k go got (raised type_error) h next = tt
  on_arrival-IsEnd k go got failed h next = tt
  on_arrival-IsEnd k go got unfinished h next = h
  on_arrival-IsEnd k go got (returns (null, c)) h next = tt
  on_arrival-IsEnd k go got (returns (boolean b, c)) h next = next _ c h
  on_arrival-IsEnd k go got (returns (number n, c)) h next = next _ c h
  on_arrival-IsEnd k go got (returns (other_number s, c)) h next = next _ c h
  on_arrival-IsEnd k go got (returns (text s, c)) h next = next _ c h
  on_arrival-IsEnd k go got (returns (array xs, c)) h next = next _ c h
  on_arrival-IsEnd k go got (returns (object ms, c)) h next = next _ c h

  collect_until-IsEnd :
      (f end : ℕ) (got : List Json) (c : Conn)
      → bytes_of c.line < f
      → IsEnd (collect_until codec f end got c)
  unfolding collect_until
  collect_until-IsEnd zero end got c h = absurd (omega arith)
  collect_until-IsEnd (suc f) end got c h = elim (Bool-cases (ltb c.now end)) [
    | inr over ↦ rw over tt
    | inl on ↦ rw on (
        on_arrival-IsEnd (bytes_of c.line) (λ g d. collect_until codec f end g d) got _
          (recv_frame-IsLess (max 200 (end - c.now)) c)
          (λ g d less. collect_until-IsEnd f end g d (omega arith)))
  ]

  end-IsEnd : (o : Outcome (List Json)) → IsEnd o → o ≢ unfinished
  end-IsEnd (returns l) h = λ e. cc
  end-IsEnd (raised x) h = λ e. cc
  end-IsEnd failed h = λ e. cc
  end-IsEnd unfinished h = absurd h

  -- With more fuel than the line has bytes left, the collection ends, whatever comes: frames that
  -- break off, empty chunks, a connection that breaks or goes silent.
  pub collect-ends :
      (f time : ℕ) (c : Conn) → bytes_of c.line < f → collect codec f c time ≢ unfinished
  unfolding collect
  collect-ends f time c h = end-IsEnd _ (collect_until-IsEnd f (c.now + time) [] c h)
