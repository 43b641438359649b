-- ===== src/Film/Script/Laws.antt =====
-- What reading a demo script keeps, and the names that it makes.
use hexe.Prelude.{
  ◌≡◌, refl, sym, ap, ◌∙◌, inl, inr, Bool, true, false, ◌||◌, Option, none, some, List, [], ◌∷◌,
  ◌++◌, append_assoc, append-nil, Text, codes, arith, if◌then◌else◌, text_eq, starts_with,
  Bool-cases,
}
use hexe.Film.{contains}
use hexe.Film.Script.{
  Line, Settings, to_line, apply_line, read_lines, instance_of, names_instance, launch_of, continue,
}

-- The verbs of the settings.
unfoldable pub is_setting : Line → Bool
is_setting l =
    text_eq l.verb (codes "cols")
    || text_eq l.verb (codes "rows")
    || text_eq l.verb (codes "speed")
    || text_eq l.verb (codes "name")
    || text_eq l.verb (codes "launch")
    || text_eq l.verb (codes "env")

abbrev pub actions : List Text → List Line
actions [] = []
actions (raw ∷ more) = if is_setting (to_line raw) then actions more else to_line raw ∷ actions more

apply_line-setting :
    (s t : Settings) (l : Line) → is_setting l ≡ true → apply_line s l ≡ some t → t.lines ≡ s.lines
unfolding apply_line is_setting
apply_line-setting s t l h e = ground arith

apply_line-action :
    (s t : Settings) (l : Line)
    → is_setting l ≡ false
    → apply_line s l ≡ some t
    → t.lines ≡ s.lines ++ l ∷ []
unfolding apply_line is_setting
apply_line-action s t l h e = ground arith

continue-some :
    (k : Settings → Option Settings) (o : Option Settings) (t : Settings)
    → continue k o ≡ some t
    → (u : Settings) × (o ≡ some u) × (k u ≡ some t)
continue-some k none t e = cc
continue-some k (some u) t e = (u, refl, e)

-- Of a script that is read, every line that is no setting is added to those that the film plays,
-- in order.
read_lines-lines :
    (s t : Settings) (raws : List Text)
    → read_lines s raws ≡ some t
    → t.lines ≡ s.lines ++ actions raws
unfolding read_lines
read_lines-lines s t [] e =
    let same : s ≡ t = cc in ap (λ (r : Settings). r.lines) (sym same) ∙ sym (append-nil s.lines)
read_lines-lines s t (raw ∷ more) e =
    let (u, one, later) = continue-some _ (apply_line s (to_line raw)) t e in
    elim (Bool-cases (is_setting (to_line raw))) [
      | inl yes' ↦ rw yes' (
          read_lines-lines u t more later
          ∙ ap (λ l. l ++ actions more) (apply_line-setting s u (to_line raw) yes' one))
      | inr no' ↦ rw no' (
          read_lines-lines u t more later
          ∙ ap (λ l. l ++ actions more) (apply_line-action s u (to_line raw) no' one)
          ∙ append_assoc s.lines (to_line raw ∷ []) (actions more))
    ]

starts_with-append : (s t more : Text) → starts_with s t ≡ true → starts_with (s ++ more) t ≡ true
unfolding starts_with
starts_with-append s [] more h = refl
starts_with-append [] (p ∷ ps) more h = cc
starts_with-append (c ∷ s) (p ∷ ps) more h = ground (arith, starts_with-append s ps more)

starts_with_self : (s more : Text) → starts_with (s ++ more) s ≡ true
unfolding starts_with
starts_with_self [] more = refl
starts_with_self (c ∷ s) more = ground (arith, starts_with_self s more)

pub contains-front : (piece s : Text) → starts_with s piece ≡ true → contains piece s ≡ true
unfolding contains
contains-front piece [] h = h
contains-front piece (c ∷ s) h = rw h

contains-append : (piece s t : Text) → contains piece t ≡ true → contains piece (s ++ t) ≡ true
unfolding contains
contains-append piece [] t h = h
contains-append piece (c ∷ s) t h = ground (arith, contains-append piece s t)

-- Whatever the script says, the launch names an instance.
launch_of-names_instance : (slug : Text) (s : Settings) → names_instance (launch_of slug s) ≡ true
unfolding launch_of
launch_of-names_instance slug s = named _
  where
    named :
        (given : Text)
        → names_instance
            (if names_instance given then given else given ++ (codes " -I " ++ instance_of slug))
          ≡ true
    named given = elim (Bool-cases (names_instance given)) [
      | inl has ↦ rw has has
      | inr lacks ↦
          let added = contains-append (codes " -I ") given (codes " -I " ++ instance_of slug) (
            contains-front (codes " -I ") _ (starts_with_self (codes " -I ") (instance_of slug))) in
          rw lacks (rw added)
    ]
