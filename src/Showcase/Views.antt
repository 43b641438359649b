-- ===== src/Showcase/Views.antt =====
-- contrib/painter_showcase.py: `view_title`, and `render`, which picks a view by the end of its
-- name. The log of the names is not modelled.
pub mod Names
use mathlib.Core.List.{reverse}
use hexe.Prelude.{
  ℕ, Bool, true, false, Option, none, some, List, [], ◌∷◌, ◌++◌, Text, codes, length, starts_with,
  ends_with, ◌&&◌, ◌||◌, if◌then◌else◌,
}
use hexe.Painter.{run, text_or_empty}
use hexe.Film.{contains}
use hexe.Showcase.{Output, runs, Values, Request, Host, values_of}
use hexe.Showcase.Status.{view_status, now_of, cycled, braille, between_blanks}
use hexe.Showcase.Sprite.{view_sprite}

-- `values.get("title") or values.get("pod_name") or ""`
abbrev title_of : Values → Text
title_of vals = elim (text_or_empty vals.title) [ [] ↦ text_or_empty vals.pod_name | c ∷ s ↦ c ∷ s ]

abbrev float_text : ℕ → Text → Text
float_text spin title = 0x2500 ∷ 0x2524 ∷ b' ' ∷ spin ∷ b' ' ∷ (title ++ b' ' ∷ 0x251C ∷ [])

unfoldable pub view_title : Host → Request → Bool → Output
view_title host req true =
    let text : Text = float_text (cycled host (now_of req) braille) (title_of (values_of req)) in
    runs (run text (codes "fg:141") ∷ []) (length text) (some host.frame_ms) none
view_title host req false =
    let text : Text = between_blanks (title_of (values_of req)) in
    runs (run text (codes "fg:245") ∷ []) (length text) none none

-- `selectors[0] if selectors else ""`
abbrev pub name_of : Request → Text
name_of req = elim req.select [ none ↦ [] | some l ↦ elim l [ [] ↦ [] | n ∷ ns ↦ n ] ]

unfoldable pub render_named : Host → Request → Text → Option Output
unfolding ends_with contains
render_named host req name =
    if ends_with name (codes "sprite")
    then some (view_sprite host req)
    else if contains (codes "float") name && ends_with name (codes "title")
    then some (view_title host req true)
    else if ends_with name (codes "title")
    then some (view_title host req false)
    else if ends_with name (codes "status")
    then some (view_status host req)
    else none

unfoldable pub render : Host → Request → Option Output
unfolding render_named
render host req = render_named host req (name_of req)
