-- ===== src/Showcase/Strip/Known.antt =====
-- Whether a strip is answered.
use hexe.Prelude.{
  ends_with, ◌+◌, ◌&&◌, Text, codes, lt→ltb, ℕ, zero, suc, ◌<◌, ◌≡◌, refl, sym, ◌∙◌, Bool, true,
  false, Option, none, some, List, [], ◌∷◌, ◌++◌, ltb, ◌==◌, if◌then◌else◌, Bool-cases, inl, inr,
}
use hexe.Showcase.{Output, Request, Host}
use hexe.Film.{contains}
use hexe.Showcase.Status.{view_status}
use hexe.Showcase.Sprite.{view_sprite}
use hexe.Showcase.Views.{render, render_named, view_title, name_of}
use hexe.Showcase.Strip.{hold_of, same_output, no_empty, next_frame, draw_strip, view_at, filmstrip}

abbrev pub has_answer {ℓ} : {A : Type ℓ} → Option A → Bool
has_answer none = false
has_answer (some a) = true

alike :
    (a b c d : Bool) (x y z w p q r s : Output)
    → has_answer (
        if a
        then some x
        else if b
        then some y
        else if c
        then some z
        else if d
        then some w
        else none)
      ≡ has_answer (
          if a
          then some p
          else if b
          then some q
          else if c
          then some r
          else if d
          then some s
          else none)
alike true b c d x y z w p q r s = refl
alike false true c d x y z w p q r s = refl
alike false false true d x y z w p q r s = refl
alike false false false true x y z w p q r s = refl
alike false false false false x y z w p q r s = refl

-- Which names are known does not depend on the rest of a request.
known_by_name :
    (host : Host) (a b : Request) (name : Text)
    → has_answer (render_named host a name) ≡ has_answer (render_named host b name)
unfolding render_named
known_by_name host a b name =
    alike (ends_with name (codes "sprite"))
      (contains (codes "float") name && ends_with name (codes "title"))
      (ends_with name (codes "title")) (ends_with name (codes "status")) (view_sprite host a)
      (view_title host a true) (view_title host a false) (view_status host a) (view_sprite host b)
      (view_title host b true) (view_title host b false) (view_status host b)

view_at_timeless :
    (host : Host) (req : Request) (ahead : ℕ)
    → has_answer (view_at host req ahead) ≡ has_answer (render host req)
unfolding render
view_at_timeless host req ahead = known_by_name host _ req (name_of req)

module _ (view : ℕ → Option Output) (horizon : ℕ) where
  next_frame_goes_on :
      (rest : ℕ → List Output → Option (List Output)) (ahead : ℕ) (f : Output)
      (frames : List Output) (o : Option Output)
      → has_answer o ≡ true
      → ((t : ℕ) (more : List Output) → has_answer (no_empty (rest t (f ∷ more))) ≡ true)
      → has_answer (no_empty (next_frame rest ahead (f ∷ frames) o)) ≡ true
  next_frame_goes_on rest ahead f frames none h k = cc
  next_frame_goes_on rest ahead f frames (some out) h k = elim (Bool-cases (same_output out f)) [
    | inl c ↦ rw c
    | inr c ↦ elim (Bool-cases (hold_of out == 0)) [
      | inl z ↦ rw (c, z)
      | inr z ↦ rw (c, z) (k (ahead + hold_of out) (frames ++ out ∷ []))
    ]
  ]

  draw_strip_goes_on :
      (left ahead : ℕ) (f : Output) (frames : List Output)
      → ((t : ℕ) → has_answer (view t) ≡ true)
      → has_answer (no_empty (draw_strip view horizon left ahead (f ∷ frames))) ≡ true
  unfolding draw_strip
  draw_strip_goes_on zero ahead f frames h = refl
  draw_strip_goes_on (suc left) ahead f frames h = elim (Bool-cases (ltb ahead horizon)) [
    | inl early ↦ rw early (
        next_frame_goes_on (draw_strip view horizon left) ahead f frames (view ahead) (h ahead)
          (λ t more. draw_strip_goes_on left t f more h))
    | inr late ↦ rw late
  ]

  draw_strip_starts :
      (left : ℕ) (o : Option Output)
      → (has_answer o ≡ true → (t : ℕ) → has_answer (view t) ≡ true)
      → has_answer (no_empty (next_frame (draw_strip view horizon left) 0 [] o)) ≡ has_answer o
  draw_strip_starts left none h = refl
  draw_strip_starts left (some out) h = elim (Bool-cases (hold_of out == 0)) [
    | inl z ↦ rw z
    | inr z ↦ rw z (draw_strip_goes_on left (0 + hold_of out) out [] (h refl))
  ]

-- With a horizon, a strip is answered exactly where a single picture is.
filmstrip_known :
    (host : Host) (req : Request) (horizon : ℕ)
    → 0 < horizon
    → has_answer (filmstrip host req horizon) ≡ has_answer (render host req)
unfolding filmstrip draw_strip
filmstrip_known host req horizon h =
    let early = lt→ltb 0 horizon h in
    let view = view_at host req in
    rw early (
      draw_strip_starts view horizon 63 (view 0)
        (λ e t. view_at_timeless host req t ∙ sym (view_at_timeless host req 0) ∙ e)
      ∙ view_at_timeless host req 0)
