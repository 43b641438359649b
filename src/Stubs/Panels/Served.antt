-- ===== src/Stubs/Panels/Served.antt =====
-- The panels' painter of scripts/smoke_decor.py over a run of requests.
use hexe.Prelude.{
  ℕ, ◌<◌, ◌≡◌, sym, ap, ◌∙◌, some, List, [], ◌∷◌, ◌++◌, append_assoc, append-nil, length,
}
use hexe.Wire.{Bytes, frame_bytes}
use hexe.Stubs.{stopped, on_handled, write_answer}
use hexe.Stubs.Answers.{Frames, serve-answered, answered}
use hexe.Stubs.Panels.{Request, Entry, Site, answer, handle, on_request, serve_stdio}

-- Bodies that are requests, whose answers are short enough for a frame: what is noted of them, and
-- the frames of the answers.
pub data Served (site : Site) : List Bytes → List Entry → List Bytes → Type 0 where
  none_left : Served site [] [] []
  one :
      (body bytes : Bytes) (req : Request) (bodies : List Bytes) (entries : List Entry)
      (frames : List Bytes)
      → site.loads body ≡ some req
      → frame_bytes (site.dumps (answer site.clicked req).1) ≡ some bytes
      → Served site bodies entries frames
      → Served site (body ∷ bodies) ((answer site.clicked req).0 ∷ entries) (bytes ∷ frames)

module _ (site : Site) where
  answered-Served :
      (bodies : List Bytes) (entries : List Entry) (frames : List Bytes) (asked : List Entry)
      (out : List Bytes)
      → Served site bodies entries frames
      → answered (handle site) bodies asked out ≡ stopped (asked ++ entries) (out ++ frames)
  unfolding handle on_request on_handled write_answer
  answered-Served _ _ _ asked out none_left =
      sym (ap (λ a. stopped a (out ++ [])) (append-nil asked) ∙ ap (stopped asked) (append-nil out))
  answered-Served _ _ _ asked out (one body bytes req bodies entries frames known whole more) =
      let entry = (answer site.clicked req).0 in
      rw (known, whole)
        (answered-Served bodies entries frames (asked ++ entry ∷ []) (out ++ bytes ∷ []) more
          ∙ ap (λ a. stopped a ((out ++ bytes ∷ []) ++ frames))
              (append_assoc asked (entry ∷ []) entries)
          ∙ ap (stopped (asked ++ entry ∷ entries)) (append_assoc out (bytes ∷ []) frames))

  -- Of a stdin with whole frames and then less than one, whose bodies are requests with answers
  -- short enough for a frame: every request is noted and answered, in order, and the painter then
  -- stops.
  pub serve_stdio-Served :
      (bodies : List Bytes) (stdin : Bytes) (fuel : ℕ) (entries : List Entry) (frames : List Bytes)
      (asked : List Entry)
      → Frames bodies stdin
      → length bodies < fuel
      → Served site bodies entries frames
      → serve_stdio site fuel stdin asked ≡ stopped (asked ++ entries) frames
  unfolding serve_stdio
  serve_stdio-Served bodies stdin fuel entries frames asked f h more =
      serve-answered (handle site) bodies stdin fuel asked [] f h
      ∙ answered-Served bodies entries frames asked [] more
