-- ===== src/Painter/Serve/Answers.antt =====
-- The answers of the painter to a run of requests.
use hexe.Prelude.{
  ℕ, zero, suc, ◌-◌, ◌<◌, ◌≤◌, ◌≡◌, subst, refl, sym, ap, ◌∙◌, Option, none, some, List, [], ◌∷◌,
  ◌++◌, append_assoc, append-nil, arith, length, codes,
}
use hexe.Wire.{Bytes, Pipe, frame_bytes}
use hexe.Wire.Reads.{flat, IsLive}
use hexe.Wire.Progress.{recv_body-nil}
use hexe.Wire.Frames.{recv_body-frame_bytes}
use hexe.Painter.{Request, Output}
use hexe.Painter.Serve.{
  os_error, value_error, key_error, other_error, Raises, ok, raises, Response, answered, refused,
  Site, Sink, View, selected, unknown_view, go, round, send_frame, rescue, dispatch, answer,
  stopped, main, delivered, continue,
}
use hexe.Painter.Serve.Ends.{main-closed, main-round}

-- What the painter owes to a request: the view's output, the refusal of an unknown view, or a
-- refusal where the view raised an exception that is caught. Nothing, if it is not caught.
abbrev reply_of : Raises Output → Option Response
reply_of (ok out) = some (answered out)
reply_of (raises other_error) = none
reply_of (raises e) = some (refused (codes "render failed"))

abbrev response_of : Request → Option View → Option Response
response_of req none = some (unknown_view (selected req))
response_of req (some fn) = reply_of (fn req)

abbrev pub owed : Site → Request → Option Response
owed site req = response_of req (site.views (selected req))

module _ (site : Site) (req : Request) (s : Sink) {n : ℕ} (room : s.room ≡ suc n) where
  send_frame-delivered :
      (r : Response) (out : Bytes)
      → frame_bytes (site.dumps r) ≡ some out
      → send_frame site r s ≡ delivered (record { room = n; sent = s.sent ++ out ∷ [] })
  unfolding send_frame
  send_frame-delivered r out e = rw e (rw room)

  abbrev after : Bytes → Sink
  after out = record { room = n; sent = s.sent ++ out ∷ [] }

  -- The same for a response that is known by an equation.
  send_frame-owed :
      (q r : Response) (out : Bytes)
      → some q ≡ some r
      → frame_bytes (site.dumps r) ≡ some out
      → send_frame site q s ≡ delivered (after out)
  send_frame-owed q r out is e =
      let same : q ≡ r = cc in
      send_frame-delivered q out (subst (λ t. frame_bytes (site.dumps t) ≡ some out) (sym same) e)

  answer-owed :
      (got : Raises Output) (r : Response) (out : Bytes)
      → reply_of got ≡ some r
      → frame_bytes (site.dumps r) ≡ some out
      → answer site s got ≡ go (after out)
  unfolding rescue
  answer-owed (ok o) r out is e = rw (send_frame-owed (answered o) r out is e)
  answer-owed (raises other_error) r out is e = cc
  answer-owed (raises os_error) r out is e = rw (send_frame-owed _ r out is e)
  answer-owed (raises value_error) r out is e = rw (send_frame-owed _ r out is e)
  answer-owed (raises key_error) r out is e = rw (send_frame-owed _ r out is e)

  dispatch-owed :
      (view : Option View) (r : Response) (out : Bytes)
      → response_of req view ≡ some r
      → frame_bytes (site.dumps r) ≡ some out
      → dispatch site req s view ≡ go (after out)
  dispatch-owed none r out is e = rw (send_frame-owed _ r out is e)
  dispatch-owed (some fn) r out is e = answer-owed (fn req) r out is e

  round-owed :
      (r : Response) (out : Bytes)
      → owed site req ≡ some r
      → frame_bytes (site.dumps r) ≡ some out
      → round site req s ≡ go (after out)
  unfolding round
  round-owed r out is e = dispatch-owed (site.views (selected req)) r out is e

-- The bytes of a run of requests, and the frames that answer them.
pub data Asks (site : Site) : Bytes → List Bytes → Type 0 where
  over : {bytes : Bytes} → bytes ≡ [] → Asks site bytes []
  ask :
      {bytes rest body framed out : Bytes} {outs : List Bytes} {req : Request} {r : Response}
      → frame_bytes body ≡ some framed
      → site.loads body ≡ some req
      → owed site req ≡ some r
      → frame_bytes (site.dumps r) ≡ some out
      → bytes ≡ framed ++ rest
      → Asks site rest outs
      → Asks site bytes (out ∷ outs)

abbrev pub grown : Sink → List Bytes → Sink
grown s outs = record { room = s.room - length outs; sent = s.sent ++ outs }

pub grown-nil : (s : Sink) → grown s [] ≡ s
grown-nil s = ground (arith, append-nil s.sent)

pub grown-cons :
    (s : Sink) (out : Bytes) (outs : List Bytes)
    → grown (record { room = s.room - 1; sent = s.sent ++ out ∷ [] }) outs ≡ grown s (out ∷ outs)
grown-cons s out outs = ground (arith, append_assoc s.sent (out ∷ []) outs)

main-Asks :
    (site : Site) (fuel : ℕ) (p : Pipe) (s : Sink) {bytes : Bytes} {outs : List Bytes}
    → Asks site bytes outs
    → flat p ≡ bytes
    → IsLive p
    → length outs ≤ s.room
    → length outs < fuel
    → main site fuel p s ≡ stopped (grown s outs)
main-Asks site zero p s a e l room h = absurd (omega arith)
main-Asks site (suc fuel) p s (over nil) e l room h =
    main-closed site fuel p s (recv_body-nil p (e ∙ nil) l) ∙ ap stopped (sym (grown-nil s))
main-Asks site (suc fuel) p s
      (ask {rest} {body} {framed} {out} {outs} {req} {r} fb good is fo split later) e l room h =
    let (q, got, left, live) = recv_body-frame_bytes body framed rest p fb (e ∙ split) l in
    let n : s.room ≡ suc (s.room - 1) = omega arith in
    let s' : Sink = record { room = s.room - 1; sent = s.sent ++ out ∷ [] } in
    let answered_one =
      ap (continue (λ t. main site fuel q t)) (round-owed site req s n r out is fo) in
    let rest_answered = main-Asks site fuel q s' later left live (omega arith) (omega arith) in
    main-round site fuel p s body q req got good
    ∙ answered_one
    ∙ rest_answered
    ∙ ap stopped (grown-cons s out outs)

-- A pipe that holds a run of requests, however it is chunked, and is then closed: where no view
-- raises what is not caught, every answer fits a frame and there is room for all of them, the
-- painter stops, having sent exactly one answer to each request, in their order.
pub main-answers :
    (site : Site) (p : Pipe) (s : Sink) {outs : List Bytes}
    → Asks site (flat p) outs
    → IsLive p
    → length outs ≤ s.room
    → main site (suc (length outs)) p s ≡ stopped (grown s outs)
main-answers site p s a l room = main-Asks site _ p s a refl l room (omega arith)
