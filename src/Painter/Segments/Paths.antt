-- ===== src/Painter/Segments/Paths.antt =====
-- What `fish_truncate` makes of a path, and where it takes the wrong home.
use hexe.Prelude.{
  ℕ, ◌≡◌, ◌≢◌, refl, sym, ap, ◌∙◌, true, false, List, [], ◌∷◌, ◌++◌, Text, codes, starts_with,
  split_on, join, non_empty, ◌==◌, arith, drop-length-append,
}
use hexe.Painter.Segments.{shorten, from_home, truncate, fish_truncate}

-- A path's component: not empty, and without a slash.
abbrev NoSlash : Text → Type 0
NoSlash [] = Unit
NoSlash (c ∷ s) = (c ≢ b'/') × NoSlash s

abbrev pub IsName : Text → Type 0
IsName [] = ⊥
IsName (c ∷ s) = NoSlash (c ∷ s)

abbrev pub AreNames : List Text → Type 0
AreNames [] = Unit
AreNames (w ∷ ws) = IsName w × AreNames ws

abbrev slash : Text
slash = b'/' ∷ []

==-ne : (c d : ℕ) → c ≢ d → (c == d) ≡ false
==-ne c d h = ground arith

split_on-name : (s : Text) → NoSlash s → split_on b'/' s ≡ s ∷ []
unfolding split_on
split_on-name [] h = refl
split_on-name (c ∷ s) h = rw (==-ne c b'/' h.0) (rw (split_on-name s h.1))

split_on-append : (s t : Text) → NoSlash s → split_on b'/' (s ++ b'/' ∷ t) ≡ s ∷ split_on b'/' t
unfolding split_on
split_on-append [] t h = refl
split_on-append (c ∷ s) t h = rw (==-ne c b'/' h.0) (rw (split_on-append s t h.1))

IsName-NoSlash : (w : Text) → IsName w → NoSlash w
IsName-NoSlash [] h = absurd h
IsName-NoSlash (c ∷ s) h = h

non_empty-cons : (w : Text) (ws : List Text) → IsName w → non_empty (w ∷ ws) ≡ w ∷ non_empty ws
unfolding non_empty
non_empty-cons [] ws h = absurd h
non_empty-cons (c ∷ s) ws h = refl

-- Splitting what was joined gives the components back.
pub components-join :
    (w : Text) (ws : List Text)
    → AreNames (w ∷ ws)
    → non_empty (split_on b'/' (join slash (w ∷ ws))) ≡ w ∷ ws
unfolding join
components-join w [] h =
    rw (split_on-name w (IsName-NoSlash w h.0)) (non_empty-cons w [] h.0 ∙ unfold non_empty in refl)
components-join w (v ∷ ws) h =
    rw (split_on-append w (join slash (v ∷ ws)) (IsName-NoSlash w h.0))
      (non_empty-cons w _ h.0 ∙ ap (◌∷◌ w) (components-join v ws h.1))

starts_with-append : (s t : Text) → starts_with (s ++ t) s ≡ true
unfolding starts_with
starts_with-append [] t = refl
starts_with-append (c ∷ s) t = ground (arith, starts_with-append s t)

from_home-below : (h : ℕ) (home t : Text) → from_home ((h ∷ home) ++ t) (h ∷ home) ≡ b'~' ∷ t
unfolding from_home
from_home-below h home t =
    rw (starts_with-append (h ∷ home) t) (ap (◌∷◌ b'~') (drop-length-append (h ∷ home) t))

fish_truncate-home :
    (h : ℕ) (home t : Text) → fish_truncate ((h ∷ home) ++ t) (h ∷ home) ≡ truncate (b'~' ∷ t)
unfolding fish_truncate
fish_truncate-home h home t = ap truncate (from_home-below h home t)

truncate-names :
    (s w : Text) (ws : List Text)
    → non_empty (split_on b'/' s) ≡ w ∷ ws
    → truncate (b'~' ∷ s) ≡ codes "~/" ++ join slash (shorten (w ∷ ws))
unfolding truncate
truncate-names s w ws e = rw e

leading_slash : (s : Text) → non_empty (split_on b'/' (b'/' ∷ s)) ≡ non_empty (split_on b'/' s)
unfolding split_on non_empty
leading_slash s = refl

-- A path below the home directory: a tilde, the first character of each directory, and the last
-- component in full.
fish_truncate-below :
    (h : ℕ) (home w : Text) (ws : List Text)
    → AreNames (w ∷ ws)
    → fish_truncate ((h ∷ home) ++ b'/' ∷ join slash (w ∷ ws)) (h ∷ home)
      ≡ codes "~/" ++ join slash (shorten (w ∷ ws))
fish_truncate-below h home w ws names =
    fish_truncate-home h home (b'/' ∷ join slash (w ∷ ws))
    ∙ truncate-names _ w ws (leading_slash (join slash (w ∷ ws)) ∙ components-join w ws names)

-- A directory beside the home whose name begins with the home's is shown as one inside it.
pub fish_truncate-sibling :
    (h : ℕ) (home w : Text) (ws : List Text)
    → AreNames (w ∷ ws)
    → fish_truncate ((h ∷ home) ++ join slash (w ∷ ws)) (h ∷ home)
      ≡ fish_truncate ((h ∷ home) ++ b'/' ∷ join slash (w ∷ ws)) (h ∷ home)
fish_truncate-sibling h home w ws names =
    fish_truncate-home h home (join slash (w ∷ ws))
    ∙ truncate-names _ w ws (components-join w ws names)
    ∙ sym (fish_truncate-below h home w ws names)
