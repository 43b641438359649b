-- ===== src/Showcase/Serve/Answers.antt =====
-- The answers of the showcase to a run of frames.
use hexe.Prelude.{
  ℕ, zero, suc, ◌<◌, ◌≡◌, ◌≢◌, sym, ◌∙◌, some, inl, inr, List, [], ◌∷◌, ◌++◌, arith, length,
}
use hexe.Wire.{Bytes, Pipe, full, closed, recv_body, frame_bytes}
use hexe.Wire.Reads.{flat, IsLive}
use hexe.Wire.Progress.{recv_body_cases}
use hexe.Painter.Serve.{Sink, Sent, delivered, failed}
use hexe.Showcase.Serve.{Site, reply, send_frame, Ended, stopped, running, after_send, main}

module _ (site : Site) (fuel : ℕ) (p : Pipe) (s : Sink) where
  main-closed : recv_body p ≡ closed → main site (suc fuel) p s ≡ stopped s
  unfolding main
  main-closed e = rw e

  main-frame :
      (body : Bytes) (q : Pipe)
      → recv_body p ≡ full body q
      → main site (suc fuel) p s
        ≡ after_send (main site fuel q) s (send_frame site (reply site body) s)
  unfolding main
  main-frame body q e = rw e

-- The bytes of a run of frames, whatever their bodies, and the frames that answer them.
pub data Frames (site : Site) : Bytes → List Bytes → Type 0 where
  over : {bytes : Bytes} → bytes ≡ [] → Frames site bytes []
  one :
      {bytes rest framed out : Bytes} {outs : List Bytes} (body : Bytes)
      → frame_bytes body ≡ some framed
      → frame_bytes (site.dumps (reply site body)) ≡ some out
      → bytes ≡ framed ++ rest
      → Frames site rest outs
      → Frames site bytes (out ∷ outs)

after_send-ne-running :
    (k : Sink → Ended) (s : Sink) (t : Sent)
    → ((u : Sink) → k u ≢ running)
    → after_send k s t ≢ running
after_send-ne-running k s (delivered u) h = h u
after_send-ne-running k s (failed e) h = λ d. cc d

-- With more fuel than the pipe has bytes, on a pipe that delivers no empty chunk before its end,
-- the showcase's loop ends.
main-finishes :
    (site : Site) (fuel : ℕ) (p : Pipe) (s : Sink)
    → IsLive p
    → length (flat p) < fuel
    → main site fuel p s ≢ running
main-finishes site zero p s l h = absurd (omega arith)
main-finishes site (suc fuel) p s l h = elim (recv_body_cases p l) [
  | inl end ↦ λ e. cc (sym (main-closed site fuel p s end) ∙ e)
  | inr t ↦ rw (main-frame site fuel p s t.body t.later t.got) (
      after_send-ne-running _ s _
        (λ u. main-finishes site fuel t.later u t.live (omega (arith, t.less))))
]
