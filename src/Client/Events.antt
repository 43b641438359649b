-- ===== src/Client/Events.antt =====
-- scripts/smoke_api_events.py: `frame`, `recv_frame`, `call`, `subscribe` and `collect`.
use hexe.Prelude.{
  ℕ, zero, suc, ◌+◌, ◌-◌, max, Option, none, some, List, [], ◌∷◌, ◌++◌, codes, ltb, if◌then◌else◌,
}
use hexe.Wire.{Bytes, unpack, frame_bytes}
use hexe.Client.{
  Json, null, object, no_member, member, Outcome, returns, raised, failed, unfinished, timed_out,
  os_error, struct_error, value_error, attribute_error, get, truthy,
}
use hexe.Client.Line.{Conn, at, Read, whole, ended, expired, broke, spinning, fill, Peer}

-- `json.loads`, nothing where it raises `ValueError`, and `json.dumps(obj).encode()`.
pub record Codec : Type 0 where
  pub loads : Bytes → Option Json
  pub dumps : Json → Bytes

-- What `recv_frame` gives, with the connection as it leaves it. `None` is `null`.
abbrev pub Arrived : Type 0
Arrived = Outcome (Json × Conn)

abbrev pub asking : Json → Json
asking spec = object (member (codes "subscribe") spec no_member)

module _ (codec : Codec) where
  abbrev pub loaded : Conn → Option Json → Arrived
  loaded c none = raised value_error
  loaded c (some v) = returns (v, c)

  abbrev pub after_body : Conn → Read → Arrived
  after_body d (whole body c) = loaded c (codec.loads body)
  after_body d (ended got) = returns (null, d)
  after_body d expired = raised timed_out
  after_body d broke = raised os_error
  after_body d spinning = unfinished

  abbrev pub after_header : ℕ → Conn → Read → Arrived
  after_header t d (whole hdr c) = after_body c (fill (suc (unpack hdr)) (unpack hdr) t [] c)
  after_header t d (ended got) = returns (null, d)
  after_header t d expired = raised timed_out
  after_header t d broke = raised os_error
  after_header t d spinning = unfinished

  -- Each read of a loop that goes on brings a byte, so one round more than the bytes wanted is
  -- fuel enough.
  unfoldable pub recv_frame : ℕ → Conn → Arrived
  unfolding fill
  recv_frame t c = after_header t c (fill 5 4 t [] c)

  abbrev pub exchange : ℕ → Peer → Option Bytes → Arrived
  exchange t peer none = raised struct_error
  exchange t peer (some b) = recv_frame t (at 0 (peer b))

  abbrev pub answer_of : Arrived → Outcome Json
  answer_of (returns r) = returns r.0
  answer_of (raised e) = raised e
  answer_of failed = failed
  answer_of unfinished = unfinished

  -- `call(obj, timeout)`
  unfoldable pub call : Json → ℕ → Peer → Outcome Json
  unfolding recv_frame
  call obj t peer = answer_of (exchange t peer (frame_bytes (codec.dumps obj)))

  -- `if not ack or not ack.get("ok"): fail(...)`
  unfoldable pub accepted : Arrived → Outcome Conn
  unfolding truthy get
  accepted (returns r) = elim r.0 [
    | object ms ↦ if truthy (get (codes "ok") ms) then returns r.1 else failed
    | v ↦ if truthy v then raised attribute_error else failed
  ]
  accepted (raised e) = raised e
  accepted failed = failed
  accepted unfinished = unfinished

  -- `subscribe(spec, timeout)`, which gives the connection.
  unfoldable pub subscribe : Json → ℕ → Peer → Outcome Conn
  unfolding recv_frame accepted
  subscribe spec t peer = accepted (exchange t peer (frame_bytes (codec.dumps (asking spec))))

  -- What `collect` makes of what came: a timeout, another `OSError` and `None` end the loop, and
  -- other exceptions pass.
  abbrev pub on_arrival :
      (List Json → Conn → Outcome (List Json)) → List Json → Arrived → Outcome (List Json)
  on_arrival k got (raised timed_out) = returns got
  on_arrival k got (raised os_error) = returns got
  on_arrival k got (raised e) = raised e
  on_arrival k got failed = failed
  on_arrival k got unfinished = unfinished
  on_arrival k got (returns r) = elim r.0 [ null ↦ returns got | ev ↦ k (got ++ ev ∷ []) r.1 ]

  -- The loop of `collect`, with `end` the time at which it ends.
  unfoldable pub collect_until : ℕ → ℕ → List Json → Conn → Outcome (List Json)
  unfolding recv_frame
  collect_until zero end got c = unfinished
  collect_until (suc f) end got c =
      let more =
        on_arrival (λ g d. collect_until f end g d) got (recv_frame (max 200 (end - c.now)) c) in
      if ltb c.now end then more else returns got

  -- `collect(s, seconds)`, with the time in milliseconds.
  unfoldable pub collect : ℕ → Conn → ℕ → Outcome (List Json)
  unfolding collect_until
  collect f c time = collect_until f (c.now + time) [] c
