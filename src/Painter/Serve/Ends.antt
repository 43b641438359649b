-- ===== src/Painter/Serve/Ends.antt =====
-- The painter's loop, one round at a time, and its end.
use hexe.Prelude.{
  ℕ, zero, suc, ◌<◌, ◌≡◌, ◌≢◌, sym, ◌∙◌, inl, inr, none, some, ◌++◌, arith, length, Option-cases,
}
use hexe.Wire.{Bytes, Pipe, full, closed, recv_body, frame_bytes}
use hexe.Wire.Reads.{flat, IsLive}
use hexe.Wire.Progress.{recv_body_cases}
use hexe.Wire.Frames.{recv_body-frame_bytes}
use hexe.Painter.{Request}
use hexe.Painter.Serve.{
  Site, Sink, Next, go, leave, crash, round, Ended, stopped, running, continue, main,
}

module _ (site : Site) (fuel : ℕ) (p : Pipe) (s : Sink) where
  pub main-closed : recv_body p ≡ closed → main site (suc fuel) p s ≡ stopped s
  unfolding main
  main-closed e = rw e

  pub main-undecoded :
      (body : Bytes) (q : Pipe)
      → recv_body p ≡ full body q
      → site.loads body ≡ none
      → main site (suc fuel) p s ≡ stopped s
  unfolding main
  main-undecoded body q e bad = rw e (rw bad)

  pub main-round :
      (body : Bytes) (q : Pipe) (req : Request)
      → recv_body p ≡ full body q
      → site.loads body ≡ some req
      → main site (suc fuel) p s ≡ continue (λ t. main site fuel q t) (round site req s)
  unfolding main
  main-round body q req e good = rw e (rw good)

continue-ne-running :
    (k : Sink → Ended) (n : Next) → ((t : Sink) → k t ≢ running) → continue k n ≢ running
continue-ne-running k (go t) h = h t
continue-ne-running k (leave t) h = λ e. cc e
continue-ne-running k (crash x t) h = λ e. cc e

-- With more fuel than the pipe has bytes, on a pipe that delivers no empty chunk before its end,
-- the painter's loop ends: whatever the requests, and whether or not the writes succeed.
pub main-ends :
    (site : Site) (fuel : ℕ) (p : Pipe) (s : Sink)
    → IsLive p
    → length (flat p) < fuel
    → main site fuel p s ≢ running
main-ends site zero p s l h = absurd (omega arith)
main-ends site (suc fuel) p s l h = elim (recv_body_cases p l) [
  | inl end ↦ λ e. cc (sym (main-closed site fuel p s end) ∙ e)
  | inr t ↦ elim (Option-cases (site.loads t.body)) [
    | inl bad ↦ λ e. cc (sym (main-undecoded site fuel p s t.body t.later t.got bad) ∙ e)
    | inr (req, good) ↦ rw (main-round site fuel p s t.body t.later req t.got good) (
        continue-ne-running _ (round site req s)
          (λ r. main-ends site fuel t.later r t.live (omega (arith, t.less))))
  ]
]

-- A frame whose body does not decode ends the painter's loop: whatever requests follow it stay
-- unread, and nothing is sent.
pub main-stops_on_undecoded :
    (site : Site) (fuel : ℕ) (p : Pipe) (s : Sink) (body bytes rest : Bytes)
    → IsLive p
    → frame_bytes body ≡ some bytes
    → flat p ≡ bytes ++ rest
    → site.loads body ≡ none
    → main site (suc fuel) p s ≡ stopped s
main-stops_on_undecoded site fuel p s body bytes rest l framed all bad =
    let (q, got, _, _) = recv_body-frame_bytes body bytes rest p framed all l in
    main-undecoded site fuel p s body q got bad
