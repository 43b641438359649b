-- ===== src/Client/Collects.antt =====
-- What a subscriber collects of the events that are pushed to it.
use hexe.Prelude.{
  ℕ, zero, suc, ◌+◌, ◌-◌, ◌<◌, ◌≡◌, refl, sym, ap, ◌∙◌, Bool, true, false, some, List, [], ◌∷◌,
  ◌++◌, append_assoc, append-nil, arith, max, length, length-append, subst, codes, lt→ltb,
}
use hexe.Wire.{Bytes, Pipe, full, recv_body, frame_bytes}
use hexe.Wire.Reads.{flat, IsLive}
use hexe.Wire.Frames.{recv_body-frame_bytes}
use hexe.Client.{
  Json, null, boolean, number, other_number, text, array, object, Outcome, returns, Members,
  then_do, get, truthy,
}
use hexe.Client.Line.{Line, silent, hung_up, reset, later, Peer, Conn, at, fill}
use hexe.Client.Delivers.{pipe, span, Leaves, two_fills}
use hexe.Client.Events.{
  Codec, loaded, recv_frame, on_arrival, collect_until, collect, asking, accepted, subscribe,
}

abbrev pub is_null : Json → Bool
is_null null = true
is_null _ = false

module _ (codec : Codec) where
  pub record Receives (t : ℕ) (c : Conn) (body : Bytes) (q : Pipe) : Type 0 where
    pub is : Leaves c q
    pub got : recv_frame codec t c ≡ loaded codec is.conn (codec.loads body)

  recv_frame-pipe :
      (t : ℕ) (c : Conn) (body : Bytes) (q : Pipe)
      → span c.line < t
      → recv_body (pipe c.line) ≡ full body q
      → Receives t c body q
  unfolding recv_frame
  recv_frame-pipe t c body q lt e =
      let p = two_fills t c body q lt e in record { is = p.is; got = rw p.head (rw p.tail refl) }

  -- A frame at the front of a line that delivers in time is what `recv_frame` loads.
  pub recv_frame-delivers :
      (t : ℕ) (c : Conn) (body bytes rest : Bytes)
      → frame_bytes body ≡ some bytes
      → flat (pipe c.line) ≡ bytes ++ rest
      → IsLive (pipe c.line)
      → span c.line < t
      → (q : Pipe) × Receives t c body q × (flat q ≡ rest) × IsLive q
  recv_frame-delivers t c body bytes rest h e l lt =
      let (q, got, left, live) = recv_body-frame_bytes body bytes rest (pipe c.line) h e l in
      (q, recv_frame-pipe t c body q lt got, left, live)

  -- The frames of these events, one after the other.
  abbrev pub IsStream : List Json → Bytes → Type 0
  IsStream [] s = s ≡ []
  IsStream (v ∷ vs) s =
      (b : Bytes) × (rest : Bytes) × (frame_bytes (codec.dumps v) ≡ some b)
      × (codec.loads (codec.dumps v) ≡ some v)
      × (is_null v ≡ false)
      × (s ≡ b ++ rest)
      × IsStream vs rest

  on_arrival-some :
      (k : List Json → Conn → Outcome (List Json)) (got : List Json) (v : Json) (c : Conn)
      → is_null v ≡ false
      → on_arrival codec k got (returns (v, c)) ≡ k (got ++ v ∷ []) c
  on_arrival-some k got null c e = absurd cc
  on_arrival-some k got (boolean b) c e = refl
  on_arrival-some k got (number n) c e = refl
  on_arrival-some k got (other_number s) c e = refl
  on_arrival-some k got (text s) c e = refl
  on_arrival-some k got (array xs) c e = refl
  on_arrival-some k got (object ms) c e = refl

  collect_until-nil :
      (f end : ℕ) (got : List Json) (now : ℕ) (l : Line)
      → flat (pipe l) ≡ []
      → IsLive (pipe l)
      → now < end
      → collect_until codec (suc f) end got (record { now = now; line = l }) ≡ returns got
  unfolding collect_until recv_frame fill
  collect_until-nil f end got now silent e h lt = rw (lt→ltb _ _ lt) refl
  collect_until-nil f end got now hung_up e h lt = rw (lt→ltb _ _ lt) refl
  collect_until-nil f end got now reset e h lt = rw (lt→ltb _ _ lt) refl
  collect_until-nil f end got now (later d b l) e h lt =
      absurd (omega (arith, ap length e, length-append b (flat (pipe l))))

  collect_until-all :
      (vs : List Json) (f end : ℕ) (got : List Json) (c : Conn) (s : Bytes)
      → IsStream vs s
      → flat (pipe c.line) ≡ s
      → IsLive (pipe c.line)
      → c.now + span c.line < end
      → length vs < f
      → collect_until codec f end got c ≡ returns (got ++ vs)
  unfolding collect_until
  collect_until-all vs zero end got c s is e l lt k = absurd (omega arith)
  collect_until-all [] (suc f) end got c s is e l lt k =
      collect_until-nil f end got c.now c.line (e ∙ is) l (omega arith)
      ∙ ap returns (sym (append-nil got))
  collect_until-all (v ∷ vs) (suc f) end got c s is e l lt k =
      let (b, rest, framed, loads, here, joined, tail) = is in
      let (q, r, left, live) =
        recv_frame-delivers (max 200 (end - c.now)) c (codec.dumps v) b rest framed (e ∙ joined) l
          (ground arith) in
      let next =
        collect_until-all vs f end (got ++ v ∷ []) r.is.conn rest tail (ap flat r.is.left ∙ left)
          (subst IsLive (sym r.is.left) live) (omega (arith, r.is.on_time)) (omega arith) in
      rw (lt→ltb c.now end (omega arith)) (
        rw r.got (
          rw loads (
            on_arrival-some (λ g d. collect_until codec f end g d) got v r.is.conn here
            ∙ next
            ∙ ap returns (append_assoc got _ vs))))

  -- Enough fuel is a round for each event and one more.
  pub collect-all :
      (vs : List Json) (f time : ℕ) (c : Conn) (s : Bytes)
      → IsStream vs s
      → flat (pipe c.line) ≡ s
      → IsLive (pipe c.line)
      → span c.line < time
      → length vs < f
      → collect codec f c time ≡ returns vs
  unfolding collect
  collect-all vs f time c s is e l lt k =
      collect_until-all vs f (c.now + time) [] c s is e l (omega arith) k

  -- A subscription that the other end accepts, and then all that it pushes.
  abbrev pub subscribed : Json → ℕ → ℕ → ℕ → Peer → Outcome (List Json)
  subscribed spec t f time peer =
      then_do (subscribe codec spec t peer) (λ c. collect codec f c time)

  accepted-object :
      (ms : Members) (c : Conn)
      → truthy (get (codes "ok") ms) ≡ true
      → accepted codec (returns (object ms, c)) ≡ returns c
  unfolding accepted
  accepted-object ms c e = rw e refl

  -- Where the other end acknowledges the subscription and then pushes events that are read back
  -- and are not null, in whatever chunks (none of them empty) and all within the timeout and the
  -- time of the collection, the events collected are exactly those pushed, in order, and a round
  -- for each and one more is fuel enough.
  pub subscribe-collects :
      (spec : Json) (t f time : ℕ) (peer : Peer) (req ack s : Bytes) (ms : Members) (vs : List Json)
      → frame_bytes (codec.dumps (asking spec)) ≡ some req
      → frame_bytes (codec.dumps (object ms)) ≡ some ack
      → codec.loads (codec.dumps (object ms)) ≡ some (object ms)
      → truthy (get (codes "ok") ms) ≡ true
      → IsStream vs s
      → flat (pipe (peer req)) ≡ ack ++ s
      → IsLive (pipe (peer req))
      → span (peer req) < t
      → span (peer req) < time
      → length vs < f
      → subscribed spec t f time peer ≡ returns vs
  unfolding subscribe
  subscribe-collects spec t f time peer req ack s ms vs asked acked loads yes_ok is e l lt lt' k =
      let (q, r, left, live) =
        recv_frame-delivers t (at 0 (peer req)) (codec.dumps (object ms)) ack s acked e l lt in
      let rest =
        collect-all vs f time r.is.conn s is (ap flat r.is.left ∙ left)
          (subst IsLive (sym r.is.left) live) (omega (arith, r.is.on_time)) k in
      rw asked (rw r.got (rw loads (rw (accepted-object ms r.is.conn yes_ok) rest)))
