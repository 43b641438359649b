-- ===== src/Showcase/Views/Names.antt =====
-- The names under which a view is found.
use mathlib.Core.List.{reverse, reverse-append}
use hexe.Prelude.{
  ◌≡◌, ap, some, List, ◌∷◌, ◌++◌, Text, codes, starts_with, ends_with, Bool-cases, inl, inr,
}
use hexe.Film.{contains}
use hexe.Showcase.{Request, Host}
use hexe.Showcase.Status.{view_status}
use hexe.Showcase.Sprite.{view_sprite}
use hexe.Showcase.Views.{view_title, render_named, render}

-- Whether a text ends like another is told by their last characters only.
ends_with-append :
    (front s suffix : Text)
    → ends_with (front ++ s) suffix ≡ starts_with (reverse s ++ reverse front) (reverse suffix)
unfolding ends_with
ends_with-append front s suffix = ap (λ t. starts_with t (reverse suffix)) (reverse-append front s)

named-sprite :
    (host : Host) (req : Request) (front : Text)
    → render_named host req (front ++ codes "sprite") ≡ some (view_sprite host req)
unfolding render_named starts_with
named-sprite host req front = rw (ends_with-append front (codes "sprite") (codes "sprite"))

named-title :
    (host : Host) (req : Request) (front : Text)
    → render_named host req (front ++ codes "title")
      ≡ some (view_title host req (contains (codes "float") (front ++ codes "title")))
unfolding render_named starts_with
named-title host req front = rw (ends_with-append front (codes "title") (codes "sprite")) (
    rw (ends_with-append front (codes "title") (codes "title"))
      (elim (Bool-cases (contains (codes "float") (front ++ codes "title"))) [
        | inl is ↦ rw is
        | inr isnt ↦ rw isnt
      ]))

named-status :
    (host : Host) (req : Request) (front : Text)
    → render_named host req (front ++ codes "status") ≡ some (view_status host req)
unfolding render_named starts_with
named-status host req front = rw (ends_with-append front (codes "status") (codes "sprite")) (
    rw (ends_with-append front (codes "status") (codes "title")) (
      rw (ends_with-append front (codes "status") (codes "status"))
        (elim (Bool-cases (contains (codes "float") (front ++ codes "status"))) [
          | inl is ↦ rw is
          | inr isnt ↦ rw isnt
        ])))

-- A request whose first selector is a name.
abbrev pub select_first : Text → List Text → Request → Request
select_first name more req = record req { select = some (name ∷ more) }

-- Whatever stands in front of it, a name that ends in `sprite` gets the sprite, and one that ends
-- in `status` the bar; one that ends in `title` gets a title, animated where the name holds
-- `float`.
render_renamed :
    (host : Host) (req : Request) (front : Text) (more : List Text)
    → (render host (select_first (front ++ codes "sprite") more req)
        ≡ some (view_sprite host (select_first (front ++ codes "sprite") more req)))
      × (render host (select_first (front ++ codes "title") more req)
          ≡ some (
              view_title host
                (select_first (front ++ codes "title") more req)
                (contains (codes "float") (front ++ codes "title"))))
      × (render host (select_first (front ++ codes "status") more req)
          ≡ some (view_status host (select_first (front ++ codes "status") more req)))
unfolding render
render_renamed host req front more =
    (named-sprite host _ front, named-title host _ front, named-status host _ front)
