-- ===== src/Showcase/Status/Emits.antt =====
-- What an emitted text adds to a bar.
use hexe.Prelude.{
  ℕ, suc, ◌+◌, ◌≡◌, refl, sym, ap, ◌∙◌, Option, none, some, List, [], ◌∷◌, ◌++◌, append_assoc,
  append-nil, Text, codes, show, arith, length, length-append,
}
use hexe.Painter.{Field, run, drawn}
use hexe.Painter.Status.Widths.{drawn-append}
use hexe.Painter.Status.Shows.{Shows, Shows-append}
use hexe.Showcase.{Region}
use hexe.Showcase.Status.{Target, Bar, region_at, emit, emit_tabs, between_blanks, tab_target}

pub drawn-emit :
    (text style : Text) (region : Option Target) (b : Bar)
    → drawn (emit text style region b).runs ≡ drawn b.runs ++ text
unfolding emit drawn
drawn-emit [] style region b = sym (append-nil (drawn b.runs))
drawn-emit (c ∷ s) style region b =
    drawn-append b.runs (run (c ∷ s) style ∷ []) ∙ ap (◌++◌ (drawn b.runs)) (append-nil (c ∷ s))

pub regions-emit : (text style : Text) (b : Bar) → (emit text style none b).regions ≡ b.regions
unfolding emit
regions-emit [] style b = refl
regions-emit (c ∷ s) style b = append-nil b.regions

-- The column is the length of what was drawn.
pub record IsMeasured (b : Bar) : Type 0 where
  pub col_is : b.col ≡ length (drawn b.runs)

col-emit :
    (text style : Text) (region : Option Target) (b : Bar)
    → (emit text style region b).col ≡ b.col + length text
unfolding emit
col-emit [] style region b = omega arith
col-emit (c ∷ s) style region b = refl

pub emit-IsMeasured :
    (text style : Text) (region : Option Target) (b : Bar)
    → IsMeasured b
    → IsMeasured (emit text style region b)
emit-IsMeasured text style region b h = record {
  col_is = omega (
    arith,
    h.col_is,
    col-emit text style region b,
    ap length (drawn-emit text style region b),
    length-append (drawn b.runs) text,
  );
}

pub emit_tabs-IsMeasured :
    (active : Field ℕ) (i : ℕ) (tabs : List Text) (b : Bar)
    → IsMeasured b
    → IsMeasured (emit_tabs active i tabs b)
unfolding emit_tabs
emit_tabs-IsMeasured active i [] b h = h
emit_tabs-IsMeasured active i (tab ∷ tabs) b h =
    emit_tabs-IsMeasured active (suc i) tabs _
      (emit-IsMeasured (between_blanks tab) _ (some (tab_target i)) b h)

-- The region of tab number `i`: a click selects that tab, and it covers the tab's text.
pub record IsTab (i : ℕ) (tab all : Text) (r : Region) : Type 0 where
  pub selects : r.left ≡ codes "tab.select." ++ show i
  pub id : r.id ≡ codes "tab." ++ show i
  pub width : r.width ≡ length (between_blanks tab)
  pub shown : Shows all r.x (between_blanks tab)

-- Every tab has its region, in order, and there is no other region.
abbrev pub AreTabs : ℕ → List Text → List Region → Text → Type 0
AreTabs i [] [] all = Unit
AreTabs i (tab ∷ tabs) (r ∷ rs) all = IsTab i tab all r × AreTabs (suc i) tabs rs all
AreTabs i _ _ all = ⊥

IsTab-append :
    {i : ℕ} {tab all : Text} {r : Region} (more : Text)
    → IsTab i tab all r
    → IsTab i tab (all ++ more) r
IsTab-append more t = record {
  selects = t.selects;
  id = t.id;
  width = t.width;
  shown = Shows-append more t.shown;
}

pub AreTabs-append :
    (i : ℕ) (tabs : List Text) (rs : List Region) (all more : Text)
    → AreTabs i tabs rs all
    → AreTabs i tabs rs (all ++ more)
AreTabs-append i [] [] all more h = tt
AreTabs-append i [] (r ∷ rs) all more h = h
AreTabs-append i (tab ∷ tabs) [] all more h = h
AreTabs-append i (tab ∷ tabs) (r ∷ rs) all more h =
    (IsTab-append more h.0, AreTabs-append (suc i) tabs rs all more h.1)

abbrev tabs_text : List Text → Text
tabs_text [] = []
tabs_text (tab ∷ tabs) = between_blanks tab ++ tabs_text tabs

drawn-emit_tabs :
    (active : Field ℕ) (i : ℕ) (tabs : List Text) (b : Bar)
    → drawn (emit_tabs active i tabs b).runs ≡ drawn b.runs ++ tabs_text tabs
unfolding emit_tabs
drawn-emit_tabs active i [] b = sym (append-nil (drawn b.runs))
drawn-emit_tabs active i (tab ∷ tabs) b =
    drawn-emit_tabs active (suc i) tabs _
    ∙ ap (λ t. t ++ tabs_text tabs) (drawn-emit (between_blanks tab) _ (some (tab_target i)) b)
    ∙ append_assoc (drawn b.runs) (between_blanks tab) (tabs_text tabs)

emit-IsTab :
    (i : ℕ) (tab style : Text) (b : Bar)
    → IsMeasured b
    → IsTab i tab
        (drawn (emit (between_blanks tab) style (some (tab_target i)) b).runs)
        (region_at b.col (between_blanks tab) (tab_target i))
emit-IsTab i tab style b h = record {
  selects = refl;
  id = refl;
  width = refl;
  shown = record {
    before = drawn b.runs;
    after = [];
    split =
        drawn-emit (between_blanks tab) style (some (tab_target i)) b
        ∙ ap (◌++◌ (drawn b.runs)) (sym (append-nil (between_blanks tab)));
    column = sym h.col_is;
  };
}

-- The loop over the tabs adds their regions behind those that are there.
pub emit_tabs-AreTabs :
    (active : Field ℕ) (i : ℕ) (tabs : List Text) (b : Bar)
    → IsMeasured b
    → (rs : List Region) × ((emit_tabs active i tabs b).regions ≡ b.regions ++ rs)
      × AreTabs i tabs rs (drawn (emit_tabs active i tabs b).runs)
unfolding emit_tabs emit
emit_tabs-AreTabs active i [] b h = ([], sym (append-nil b.regions), tt)
emit_tabs-AreTabs active i (tab ∷ tabs) b h =
    let r = region_at b.col (between_blanks tab) (tab_target i) in
    let c = emit (between_blanks tab) _ (some (tab_target i)) b in
    let (rs, are, shown) =
      emit_tabs-AreTabs active (suc i) tabs c
        (emit-IsMeasured (between_blanks tab) _ (some (tab_target i)) b h) in
    let first = emit-IsTab i tab _ b h in
    (
      r ∷ rs,
      are ∙ append_assoc b.regions (r ∷ []) rs,
      (rw (drawn-emit_tabs active (suc i) tabs c) (IsTab-append (tabs_text tabs) first), shown),
    )

-- Tabs stay where they are when more is drawn behind them.
pub emit-AreTabs :
    (tabs : List Text) (text style : Text) (b : Bar)
    → AreTabs 0 tabs b.regions (drawn b.runs)
    → AreTabs 0 tabs (emit text style none b).regions (drawn (emit text style none b).runs)
emit-AreTabs tabs text style b h =
    rw (regions-emit text style b)
      (rw (drawn-emit text style none b) (AreTabs-append 0 tabs b.regions (drawn b.runs) text h))
