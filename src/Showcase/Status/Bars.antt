-- ===== src/Showcase/Status/Bars.antt =====
-- The showcase's bar: its width, and its clickable tabs.
use hexe.Prelude.{
  ℕ, ◌+◌, ◌-◌, max, ◌≡◌, refl, ap, ◌∙◌, none, some, List, [], ◌∷◌, ◌++◌, append_assoc, Text, arith,
  length, length-append, length-replicate, replicate,
}
use hexe.Painter.{drawn, list_or_empty}
use hexe.Showcase.{Region, Output, Request, Host, values_of, runs}
use hexe.Showcase.Status.{Bar, segments, finish, bar, view_status, width_of, empty_bar}
use hexe.Showcase.Status.Emits.{drawn-emit, IsMeasured, emit-IsMeasured, emit_tabs-IsMeasured}

empty_bar-IsMeasured : IsMeasured empty_bar
unfolding drawn
empty_bar-IsMeasured = record { col_is = refl }

segments-IsMeasured : (host : Host) (req : Request) → IsMeasured (segments host req)
unfolding segments
segments-IsMeasured host req = emit-IsMeasured _ _ none _ (
    emit-IsMeasured _ _ none _ (
      emit-IsMeasured _ _ none _ (
        emit_tabs-IsMeasured _ 0 (list_or_empty (values_of req).tabs) _
          (emit-IsMeasured _ _ none _ empty_bar-IsMeasured))))

bar-IsMeasured : (host : Host) (req : Request) → IsMeasured (bar host req)
unfolding bar finish
bar-IsMeasured host req =
    emit-IsMeasured _ _ none _ (emit-IsMeasured _ _ none _ (segments-IsMeasured host req))

drawn-finish :
    (host : Host) (width : ℕ) (b : Bar)
    → drawn (finish host width b).runs
      ≡ drawn b.runs
        ++ (replicate (width - b.col - length host.clock - 1) b' ' ++ (host.clock ++ b' ' ∷ []))
unfolding finish
drawn-finish host width b =
    drawn-emit (host.clock ++ b' ' ∷ []) _ none _
    ∙ ap (λ t. t ++ (host.clock ++ b' ' ∷ [])) (drawn-emit (replicate _ b' ') _ none b)
    ∙ append_assoc (drawn b.runs) _ _

finish_width :
    (host : Host) (width : ℕ) (b : Bar)
    → IsMeasured b
    → length (drawn (finish host width b).runs) ≡ max width (b.col + length host.clock + 1)
finish_width host width b h =
    let blanks : Text = replicate (width - b.col - length host.clock - 1) b' ' in
    omega (
      arith,
      ap length (drawn-finish host width b),
      length-append (drawn b.runs) (blanks ++ (host.clock ++ b' ' ∷ [])),
      length-append blanks (host.clock ++ b' ' ∷ []),
      length-append host.clock (b' ' ∷ []),
      length-replicate {A = ℕ} (width - b.col - length host.clock - 1) 32,
      h.col_is,
    )

-- What the answer of a view says and draws.
abbrev pub drawn_of : Output → Text
drawn_of (runs rs width next regions) = drawn rs
drawn_of (hexe.Showcase.surface ansi width height next) = ansi

abbrev pub width_said : Output → ℕ
width_said (runs rs width next regions) = width
width_said (hexe.Showcase.surface ansi width height next) = width

abbrev pub regions_said : Output → List Region
regions_said (runs rs width next (some regions)) = regions
regions_said _ = []

-- The bar fills the width asked for exactly, unless its segments and the clock need more: then
-- it is exactly as long as those. The width it reports is the width asked for.
view_status_fills :
    (host : Host) (req : Request)
    → (length (drawn_of (view_status host req))
        ≡ max (width_of req) ((segments host req).col + length host.clock + 1))
      × (width_said (view_status host req) ≡ width_of req)
unfolding view_status bar
view_status_fills host req =
    let fills =
      finish_width host (width_of req) (segments host req) (segments-IsMeasured host req) in
    (fills, omega (arith, fills, (bar-IsMeasured host req).col_is))
