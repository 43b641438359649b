-- ===== src/Tests/Serving.antt =====
-- The painter's loop.
use hexe.Prelude.{◌+◌, ◌≡◌, ◌≢◌, refl, some, none, List, [], ◌∷◌, Text, codes, arith}
use hexe.Wire.{Bytes, Pipe, frame_bytes}
use hexe.Painter.{Request}
use hexe.Painter.Serve.{
  Site, Sink, View, Response, answered, refused, ok, main, stopped, running, repr,
}
use hexe.Painter.Serve.Ends.{main-ends, main-stops_on_undecoded}
use hexe.Painter.Serve.Answers.{Asks, over, ask, main-answers}

-- A view that draws its request's selectors.
abbrev echo : View
echo req = ok (record { runs = []; width = 7; next_frame_ms = none; regions = [] })

abbrev asking : Text → Request
asking name = record { select = some (name ∷ []); width = none; context = none }

abbrev dump : Response → Bytes
dump (answered o) = b'w' ∷ (48 + o.width) ∷ []
dump (refused t) = t

abbrev site : Site
site = record {
  loads = λ b. elim b [ [] ↦ none | c ∷ s ↦ some (asking (c ∷ s)) ];
  dumps = dump;
  views = λ name. elim name [ [] ↦ none | c ∷ s ↦ elim s [ [] ↦ some echo | d ∷ t ↦ none ] ];
}

abbrev sink : Sink
sink = record { room = 5; sent = [] }

-- One request that is known, then one for no view; the second is cut in two by the pipe.
abbrev pipe : Pipe
pipe = (0 ∷ 0 ∷ 0 ∷ 1 ∷ b's' ∷ 0 ∷ 0 ∷ []) ∷ (0 ∷ 2 ∷ b'n' ∷ b'o' ∷ []) ∷ []

abbrev answers : List Bytes
answers = (0 ∷ 0 ∷ 0 ∷ 2 ∷ codes "w7") ∷ (0 ∷ 0 ∷ 0 ∷ 17 ∷ codes "unknown view 'no'") ∷ []

asks : Asks site (0 ∷ 0 ∷ 0 ∷ 1 ∷ b's' ∷ 0 ∷ 0 ∷ 0 ∷ 2 ∷ b'n' ∷ b'o' ∷ []) answers
unfolding frame_bytes repr
asks =
    ask {body = codes "s"} {framed = 0 ∷ 0 ∷ 0 ∷ 1 ∷ codes "s"} {req = asking (codes "s")} refl refl
      refl refl refl
      (ask {body = codes "no"} {framed = 0 ∷ 0 ∷ 0 ∷ 2 ∷ codes "no"} {req = asking (codes "no")}
        refl refl refl refl refl (over refl))

main-answers_example : main site 3 pipe sink ≡ stopped (record { room = 3; sent = answers })
main-answers_example = main-answers site pipe sink asks (omega arith) (omega arith)

main-ends_example : main site 12 pipe sink ≢ running
main-ends_example = main-ends site 12 pipe sink (omega arith) (omega arith)

main-stops_on_undecoded_example : main site 9 ((0 ∷ 0 ∷ 0 ∷ 0 ∷ []) ∷ pipe) sink ≡ stopped sink
unfolding frame_bytes
main-stops_on_undecoded_example =
    main-stops_on_undecoded site 8 ((0 ∷ 0 ∷ 0 ∷ 0 ∷ []) ∷ pipe) sink [] (0 ∷ 0 ∷ 0 ∷ 0 ∷ []) _
      (omega arith) refl refl refl
