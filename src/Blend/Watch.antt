-- ===== src/Blend/Watch.antt =====
-- scripts/demo_blend.py: `main`, which renders its state file when it changes, and says what is
-- wrong with it, once.
pub mod Prints
use hexe.Prelude.{
  ℕ, ◌+◌, ◌-◌, ◌≡◌, ◌≢◌, refl, sym, ap, ◌∙◌, inl, inr, Bool, true, false, not, Option, none, some,
  List, [], ◌∷◌, ◌++◌, append_assoc, append-nil, Text, codes, show, replicate, text_eq,
  text_eq_refl, text_eq→eq, if◌then◌else◌, if-true, if-false, Bool-cases, arith,
}
use hexe.Blend.{Error, State, Parsed, state, error, parse_state, sgr_of, sample}

-- What reading the file gives: its text, or the message of an `OSError` or a `UnicodeError`.
pub data Read : Type 0 where
  reads : Text → Read
  fails : Text → Read

-- What is printed: the rendering of a text, or a message.
pub data Print : Type 0 where
  renders : Text → Text → Print
  complains : Text → Print

pub record Watch : Type 0 where
  pub previous : Option Text
  pub previous_error : Option Text

line : Text → Text
line s = s ++ (10 ∷ [])

-- `render(text)`, of a text that parses.
unfoldable pub rendering : State → Text
unfolding line sgr_of sample
rendering s =
    let percent = show s.percent in
    line []
    ++ (line (
          codes "source="
          ++ (s.label
              ++ (codes "  mix="
                  ++ (percent
                      ++ (codes "% foreground + "
                          ++ (show (100 - s.percent) ++ codes "% background"))))))
        ++ (line (sample (codes "opaque 100%") (sgr_of s) none)
            ++ (line (sample (codes "mixed " ++ (percent ++ codes "%")) (sgr_of s) (some s.percent))
                ++ line (replicate 68 b'-'))))

-- `x != previous`
unfoldable pub differs : Text → Option Text → Bool
differs s none = true
differs s (some t) = not (text_eq s t)

-- `message` is `str(error)` of the error that `parse_state` raises for a text.
module _ (message : Text → Error → Text) where
  complain : Watch → Text → Watch × List Print
  unfolding differs
  complain w text =
      let whole = codes "ERROR: " ++ text in
      if differs whole w.previous_error
      then (record w { previous_error = some whole }, complains whole ∷ [])
      else (w, [])

  rendered : Watch → Text → Parsed → Watch × List Print
  unfolding complain rendering
  rendered w text (state s) =
      (record { previous = some text; previous_error = none }, renders text (rendering s) ∷ [])
  rendered w text (error e) = complain w (message text e)

  -- One round of the loop.
  unfoldable pub round : Watch → Read → Watch × List Print
  unfolding differs complain rendered parse_state
  round w (fails text) = complain w text
  round w (reads text) =
      if differs text w.previous then rendered w text (parse_state text) else (w, [])

  -- The rounds until the loop is interrupted, or the first alone with `--once`.
  unfoldable pub watch : Bool → Watch → List Read → Watch × List Print
  unfolding round
  watch once w [] = (w, [])
  watch once w (r ∷ rs) =
      let (u, out) = round w r in
      let (v, more) = watch once u rs in if once then (u, out) else (v, out ++ more)
