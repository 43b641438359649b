-- ===== src/Stubs/Bar/Counts.antt =====
-- The bar's painter of scripts/smoke_region_painter.py over a run of requests, wedged or not.
use hexe.Prelude.{
  ℕ, ◌+◌, ◌<◌, ◌≡◌, sym, ap, ◌∙◌, inl, inr, Option, some, List, [], ◌∷◌, ◌++◌, Text, codes, text_eq,
  append_assoc, append-nil, arith, length, if◌then◌else◌, Bool-cases,
}
use hexe.Wire.{Bytes, frame_bytes}
use hexe.Stubs.{stopped, on_handled, write_answer}
use hexe.Stubs.Answers.{Frames, serve-answered, answered}
use hexe.Stubs.Bar.{
  Request, Record, State, Site, shown, load, noted, mode_now, modes_later, on_request, handle,
  serve_stdio,
}

module _ {V : Type 0} (site : Site V) where
  -- Bodies that are requests.
  pub data Requests : List Bytes → List (Request V) → Type 0 where
    none_left : Requests [] []
    one :
        (body : Bytes) (req : Request V) (bodies : List Bytes) (reqs : List (Request V))
        → site.loads body ≡ some req
        → Requests bodies reqs
        → Requests (body ∷ bodies) (req ∷ reqs)

-- The requests written down one after another, into what the file held.
abbrev pub noted_all : {V : Type 0} → Option (Record V) → List (Request V) → Option (Record V)
noted_all file [] = file
noted_all file (req ∷ reqs) = noted_all (some (noted (load file) req)) reqs

abbrev pub modes_after {ℓ} : {A : Type ℓ} → List A → List (Option Text) → List (Option Text)
modes_after [] modes = modes
modes_after (req ∷ reqs) modes = modes_after reqs (modes_later modes)

-- One frame for each request that does not meet a wedged painter.
abbrev pub unwedged {ℓ} : {A : Type ℓ} → Bytes → List A → List (Option Text) → List Bytes
unwedged frame [] modes = []
unwedged frame (req ∷ reqs) modes =
    let rest = unwedged frame reqs (modes_later modes) in
    if text_eq (mode_now modes) (codes "wedge") then rest else frame ∷ rest

requests_noted :
    {V : Type 0} (file : Option (Record V)) (reqs : List (Request V))
    → (load (noted_all file reqs)).requests ≡ (load file).requests + length reqs
unfolding load noted
requests_noted file [] = omega arith
requests_noted file (req ∷ reqs) = omega (arith, requests_noted (some (noted (load file) req)) reqs)

module _ {V : Type 0} (site : Site V) (frame : Bytes) where
  answered-Requests :
      (bodies : List Bytes) (reqs : List (Request V)) (s : State V) (out : List Bytes)
      → frame_bytes (site.dumps shown) ≡ some frame
      → Requests site bodies reqs
      → answered (handle site) bodies s out
        ≡ stopped
            (record { file = noted_all s.file reqs; modes = modes_after reqs s.modes })
            (out ++ unwedged frame reqs s.modes)
  unfolding handle on_request on_handled write_answer
  answered-Requests _ _ s out whole none_left = sym (ap (stopped s) (append-nil out))
  answered-Requests _ _ s out whole (one body req bodies reqs known more) =
      let later : State V = record {
        file = some (noted (load s.file) req);
        modes = modes_later s.modes;
      } in
      let last : State V = record {
        file = noted_all later.file reqs;
        modes = modes_after reqs later.modes;
      } in
      let is_wedge = text_eq (mode_now s.modes) (codes "wedge") in
      elim (Bool-cases is_wedge) [
        | inl wedged ↦ rw (known, wedged) (answered-Requests bodies reqs later out whole more)
        | inr free ↦
            rw (known, free, whole)
              (answered-Requests bodies reqs later (out ++ frame ∷ []) whole more
                ∙ ap (stopped last)
                    (append_assoc out (frame ∷ []) (unwedged frame reqs (modes_later s.modes))))
      ]

  -- Of a stdin with whole frames and then less than one, whose bodies are requests, with an answer
  -- that fits a frame: every request is counted and written down, wedged or not, and hexe gets one
  -- frame for each request that does not meet a wedged painter, and nothing for the others.
  pub serve_stdio-Requests :
      (bodies : List Bytes) (stdin : Bytes) (fuel : ℕ) (reqs : List (Request V)) (s : State V)
      → frame_bytes (site.dumps shown) ≡ some frame
      → Frames bodies stdin
      → length bodies < fuel
      → Requests site bodies reqs
      → (serve_stdio site fuel stdin s
          ≡ stopped
              (record { file = noted_all s.file reqs; modes = modes_after reqs s.modes })
              (unwedged frame reqs s.modes))
        × ((load (noted_all s.file reqs)).requests ≡ (load s.file).requests + length reqs)
  unfolding serve_stdio
  serve_stdio-Requests bodies stdin fuel reqs s whole f h more = (
    serve-answered (handle site) bodies stdin fuel s [] f h
        ∙ answered-Requests bodies reqs s [] whole more,
    requests_noted s.file reqs,
  )
