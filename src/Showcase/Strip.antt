-- ===== src/Showcase/Strip.antt =====
-- contrib/painter_showcase.py: `filmstrip`.
pub mod Plays
pub mod Known
use hexe.Prelude.{
  ℕ, zero, suc, ◌+◌, ◌-◌, Bool, true, false, Option, none, some, List, [], ◌∷◌, ◌++◌, Text, text_eq,
  ltb, ◌==◌, ◌&&◌, if◌then◌else◌,
}
use hexe.Painter.{Run}
use hexe.Showcase.{Region, Output, runs, surface, Request, Host, given_or}
use hexe.Showcase.Status.{now_of}
use hexe.Showcase.Views.{render}

-- `out == frames[0]`
same_run : Run → Run → Bool
same_run a b = text_eq a.text b.text && text_eq a.style b.style

same_region : Region → Region → Bool
same_region a b =
    text_eq a.id b.id
    && a.x == b.x
    && a.y == b.y
    && a.width == b.width
    && a.height == b.height
    && text_eq a.left b.left
    && text_eq a.hover_style b.hover_style

same_list {ℓ} : {A : Type ℓ} → (A → A → Bool) → List A → List A → Bool
same_list f [] [] = true
same_list f (a ∷ more) (b ∷ others) = f a b && same_list f more others
same_list f _ _ = false

same_option {ℓ} : {A : Type ℓ} → (A → A → Bool) → Option A → Option A → Bool
same_option f none none = true
same_option f (some a) (some b) = f a b
same_option f _ _ = false

unfoldable pub same_output : Output → Output → Bool
unfolding same_run same_region same_list same_option
same_output (runs rs w n qs) (runs ss v m ps) =
    same_list same_run rs ss
    && w == v
    && same_option ◌==◌ n m
    && same_option (same_list same_region) qs ps
same_output (surface s w h n) (surface t v k m) = text_eq s t && w == v && h == k && n == m
same_output _ _ = false

-- `out.get("next_frame_ms")`, 0 where it is absent.
abbrev pub hold_of : Output → ℕ
hold_of (runs rs w next qs) = given_or 0 next
hold_of (surface s w h next) = next

-- `MAX_FRAMES`
abbrev pub max_frames : ℕ
max_frames = 64

-- `frames and out == frames[0]`
abbrev pub closes : Output → List Output → Bool
closes out [] = false
closes out (first ∷ more) = same_output out first

abbrev pub next_frame :
    (ℕ → List Output → Option (List Output))
    → ℕ
    → List Output
    → Option Output
    → Option (List Output)
next_frame rest ahead frames none = none
next_frame rest ahead frames (some out) =
    let grown = frames ++ out ∷ [] in
    let onward = rest (ahead + hold_of out) grown in
    if closes out frames then some frames else if hold_of out == 0 then some grown else onward

-- The loop, by how many frames the strip may still take.
unfoldable pub draw_strip : (ℕ → Option Output) → ℕ → ℕ → ℕ → List Output → Option (List Output)
draw_strip view horizon zero ahead frames = some frames
draw_strip view horizon (suc left) ahead frames =
    if ltb ahead horizon
    then next_frame (draw_strip view horizon left) ahead frames (view ahead)
    else some frames

-- What the request's view draws some milliseconds ahead.
abbrev pub view_at : Host → Request → ℕ → Option Output
view_at host req ahead = render host (record req { now_ms = some (now_of req + ahead) })

abbrev pub no_empty : Option (List Output) → Option (List Output)
no_empty none = none
no_empty (some []) = none
no_empty (some (f ∷ fs)) = some (f ∷ fs)

unfoldable pub filmstrip : Host → Request → ℕ → Option (List Output)
unfolding draw_strip
filmstrip host req horizon = no_empty (draw_strip (view_at host req) horizon max_frames 0 [])
