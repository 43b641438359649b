-- ===== src/Painter/Status/Places.antt =====
-- The clickable regions of the bar and the text that is drawn under them.
use hexe.Prelude.{
  ℕ, zero, suc, ◌+◌, ◌-◌, max, subst, ◌≡◌, refl, sym, ap, true, some, List, [], ◌∷◌, ◌++◌,
  append_assoc, map, Text, codes, show, arith, length, length-append, get_elem?,
}
use hexe.Painter.{
  Run, Region, Request, run_width, pad, drawn, list_or_empty, flag, values_of, context_of,
}
use hexe.Painter.Status.{
  Host, Span, centre_of, centre_start, place, placed, view_status, width_of, tab_region, rec_region,
  rec_offset, left_runs, right_runs, next_offset, progress_runs,
}
use hexe.Painter.Status.Widths.{run_width-drawn, drawn-append, run_width-pad, lt-centre_start}
use hexe.Painter.Status.Shows.{Shows, Shows-append, Shows-prepend}
use hexe.Painter.Status.Tabs.{Covers, centre_of-Looped}
use hexe.Painter.Status.Recording.{Shows-rec}

-- The region of tab number `i`: a click on it selects that tab, and it covers the tab's name.
pub record IsTab (i : ℕ) (name all : Text) (r : Region) : Type 0 where
  pub selects :
      r.actions ≡ record { button = codes "left"; does = codes "tab.select." ++ show (i + 1) } ∷ []
  pub id : r.id ≡ codes "tab." ++ show (i + 1)
  pub width : r.width ≡ length name
  pub shown : Shows all r.x name

abbrev pub TabsShown : ℕ → List Text → List Region → Text → Type 0
TabsShown i [] rs all = Unit
TabsShown i (n ∷ ns) [] all = ⊥
TabsShown i (n ∷ ns) (r ∷ rs) all = IsTab i n all r × TabsShown (suc i) ns rs all

tab_region-IsTab :
    (start i : ℕ) (name all : Text) (s : Span)
    → s.index ≡ i
    → s.width ≡ length name
    → Shows all (start + s.offset) name
    → IsTab i name all (tab_region start s)
unfolding tab_region
tab_region-IsTab start i name all s e w shown = record {
  selects =
      ap (λ t. record { button = codes "left"; does = codes "tab.select." ++ show (t + 1) } ∷ []) e;
  id = ap (λ t. codes "tab." ++ show (t + 1)) e;
  width = w;
  shown = shown;
}

-- Within the whole bar, the centre's text stands behind `front` and before `back`.
TabsShown-Covers :
    (i : ℕ) (names : List Text) (spans : List Span) (front centre back : Text) (rest : List Region)
    → Covers i names spans centre
    → TabsShown i names (map (tab_region (length front)) spans ++ rest) (front ++ (centre ++ back))
TabsShown-Covers i [] spans front centre back rest c = tt
TabsShown-Covers i (n ∷ ns) [] front centre back rest c = absurd c
TabsShown-Covers i (n ∷ ns) (s ∷ ss) front centre back rest c =
    let shown = Shows-prepend front refl (Shows-append back c.2) in
    (
      tab_region-IsTab (length front) i n _ s c.0 c.1 shown,
      TabsShown-Covers (suc i) ns ss front centre back rest c.3,
    )

module _ (width : ℕ) (left centre right : List Run) where
  abbrev start : ℕ
  start = centre_start width (run_width left) (run_width centre) (run_width right)

  abbrev front : Text
  front = drawn left ++ drawn (pad (start - run_width left))

  abbrev gap : List Run
  gap = pad (width - (start + run_width centre) - run_width right)

  drawn-place :
      drawn (place width left centre right).runs
      ≡ front ++ (drawn centre ++ (drawn gap ++ drawn right))
  unfolding place
  drawn-place =
      simp drawn-append (sym (append_assoc (drawn left) (drawn (pad (start - run_width left))) _))

  length-front : length front ≡ start
  length-front = omega (
    arith,
    length-append (drawn left) (drawn (pad (start - run_width left))),
    run_width-drawn left,
    run_width-drawn (pad (start - run_width left)),
    run_width-pad (start - run_width left),
    lt-centre_start width (run_width left) (run_width centre) (run_width right),
  )

  -- What the right part shows, the whole bar shows from the column where the right part starts.
  place-right :
      {off : ℕ} {name : Text}
      → Shows (drawn right) off name
      → Shows
          (drawn (place width left centre right).runs)
          ((place width left centre right).right_at + off)
          name
  unfolding place
  place-right {off} s =
      let g = width - (start + run_width centre) - run_width right in
      let at = max (start + run_width centre) (width - run_width right) + off in
      let sized = run_width-drawn gap in
      rw (drawn-place) (
        Shows-prepend front {y = at}
          (omega (arith, length-front, run_width-drawn centre, run_width-pad g, sized))
          (Shows-prepend (drawn centre) refl (Shows-prepend (drawn gap) refl s)))

  place-TabsShown :
      (names : List Text) (spans : List Span) (rest : List Region)
      → Covers 0 names spans (drawn centre)
      → TabsShown 0 names
          (map (tab_region (place width left centre right).centre_at) spans ++ rest)
          (drawn (place width left centre right).runs)
  unfolding place
  place-TabsShown names spans rest c = rw drawn-place (
      subst
        (λ n.
          TabsShown 0 names (map (tab_region n) spans ++ rest)
            (front ++ (drawn centre ++ (drawn gap ++ drawn right))))
        length-front
        (TabsShown-Covers 0 names spans front (drawn centre) (drawn gap ++ drawn right) rest c))

-- Every tab of the request has its region, in order and before all others, and the tab's name
-- stands in the drawn bar at the region's column with the region's width.
pub view_status-TabsShown :
    (host : Host) (req : Request)
    → TabsShown 0
        (list_or_empty (values_of req).tabs)
        (view_status host req).regions
        (drawn (view_status host req).runs)
unfolding view_status placed
view_status-TabsShown host req =
    place-TabsShown (width_of req) (left_runs host (values_of req)) (centre_of (values_of req)).runs
      (right_runs host (context_of req) (values_of req)) _ (centre_of (values_of req)).spans _
      (centre_of-Looped req).1

get_elem?-last {ℓ} :
    {A B : Type ℓ} (f : A → B) (xs : List A) (y : B) (n : ℕ)
    → length xs ≡ n
    → get_elem? (map f xs ++ y ∷ []) n ≡ some y
get_elem?-last f [] y zero h = refl
get_elem?-last f [] y (suc n) h = absurd (omega arith)
get_elem?-last f (x ∷ xs) y zero h = absurd (omega arith)
get_elem?-last f (x ∷ xs) y (suc n) h = get_elem?-last f xs y n (omega arith)

-- While a recording runs, the region behind those of the tabs is the recording's, and `REC`
-- stands in the drawn bar at its column.
view_status-recording :
    (host : Host) (req : Request)
    → flag (values_of req).recording ≡ true
    → (r : Region) × (get_elem?
          (view_status host req).regions
          (length (list_or_empty (values_of req).tabs))
        ≡ some r)
      × (r.id ≡ codes "recording")
      × (r.width ≡ length (codes "REC"))
      × Shows (drawn (view_status host req).runs) r.x (codes "REC")
unfolding view_status placed rec_offset
view_status-recording host req h =
    let vals = values_of req in
    let at = placed host req in
    let shown =
      place-right (width_of req) (left_runs host vals) (centre_of vals).runs
        (right_runs host (context_of req) vals) (Shows-rec host req h) in
    let last =
      get_elem?-last (tab_region at.centre_at) (centre_of vals).spans
        (rec_region (at.right_at + next_offset (progress_runs vals))) _ (centre_of-Looped req).0 in
    (rec_region (at.right_at + next_offset (progress_runs vals)), rw h last, refl, refl, shown)
