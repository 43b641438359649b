-- ===== src/Showcase/Serve.antt =====
-- contrib/painter_showcase.py: `main`, the loop that answers until hexe closes the pipe. Unlike the
-- loop of contrib/painter.py it answers a frame that does not decode, and it catches nothing else.
pub mod Answers
use hexe.Prelude.{ℕ, zero, suc, Option, none, some, List, Text, codes}
use hexe.Wire.{Bytes, Pipe, Filled, full, closed, stuck, recv_body, frame_bytes}
use hexe.Painter.Serve.{Exc, Sink, Sent, delivered, failed, put}
use hexe.Showcase.{Output, Request, Host, given_or}
use hexe.Showcase.Views.{render}
use hexe.Showcase.Strip.{filmstrip}

pub data Response : Type 0 where
  answered : Output → Response
  animated : List Output → Response
  refused : Text → Response

-- JSON: `loads` gives nothing where `json.loads` raises `ValueError`.
pub record Site : Type 0 where
  pub host : Host
  pub loads : Bytes → Option Request
  pub dumps : Response → Bytes

abbrev or_unknown {ℓ} : {A : Type ℓ} → (A → Response) → Option A → Response
or_unknown f none = refused (codes "unknown view")
or_unknown f (some a) = f a

-- `filmstrip(req, horizon) if horizon else render(req)`
abbrev by_horizon : Host → Request → ℕ → Response
by_horizon host req zero = or_unknown answered (render host req)
by_horizon host req (suc n) = or_unknown animated (filmstrip host req (suc n))

abbrev reply_to : Host → Option Request → Response
reply_to host none = refused (codes "bad json")
reply_to host (some req) = by_horizon host req (given_or 0 req.frames_ms)

-- What the loop answers to a body.
unfoldable pub reply : Site → Bytes → Response
reply site body = reply_to site.host (site.loads body)

unfoldable pub send_frame : Site → Response → Sink → Sent
send_frame site r s = put s (frame_bytes (site.dumps r))

-- `running` means that the fuel ran out.
pub data Ended : Type 0 where
  stopped : Sink → Ended
  crashed : Exc → Sink → Ended
  running : Ended

abbrev pub after_send : (Sink → Ended) → Sink → Sent → Ended
after_send k s (delivered t) = k t
after_send k s (failed e) = crashed e s

abbrev pub on_frame : (Bytes → Pipe → Ended) → Sink → Filled → Ended
on_frame k s (full body later) = k body later
on_frame k s closed = stopped s
on_frame k s stuck = running

unfoldable pub main : Site → ℕ → Pipe → Sink → Ended
unfolding reply send_frame
main site zero p s = running
main site (suc fuel) p s =
    on_frame
      (λ body later. after_send (main site fuel later) s (send_frame site (reply site body) s)) s
      (recv_body p)
