-- ===== src/Painter/Status/Tabs.antt =====
-- The loop over the tabs: the spans, and where the names stand in the centre.
use hexe.Prelude.{
  ℕ, zero, suc, subst, ◌≡◌, refl, sym, ap, ◌∙◌, List, [], ◌∷◌, ◌++◌, append_assoc, append-nil, Text,
  length,
}
use hexe.Painter.{Run, Request, run, run_width, drawn, sep_run, list_or_empty, number_or, values_of}
use hexe.Painter.Status.{Span, Centre, add_tab, add_tabs, centre_of}
use hexe.Painter.Status.Widths.{run_width-drawn, drawn-append}
use hexe.Painter.Status.Shows.{Shows, Shows-append}

-- Each name in turn has its span, and stands at the span's column.
abbrev pub Covers : ℕ → List Text → List Span → Text → Type 0
Covers i [] spans all = Unit
Covers i (n ∷ ns) [] all = ⊥
Covers i (n ∷ ns) (s ∷ ss) all =
    (s.index ≡ i) × (s.width ≡ length n) × Shows all s.offset n × Covers (suc i) ns ss all

pub Covers-append :
    (i : ℕ) (ns : List Text) (ss : List Span) (all more : Text)
    → Covers i ns ss all
    → Covers i ns ss (all ++ more)
Covers-append i [] ss all more c = tt
Covers-append i (n ∷ ns) [] all more c = c
Covers-append i (n ∷ ns) (s ∷ ss) all more c =
    (c.0, c.1, Shows-append more c.2, Covers-append (suc i) ns ss all more c.3)

-- What one round of the loop adds.
record Added (i : ℕ) (name : Text) (c d : Centre) : Type 0 where
  span : Span
  runs : List Run
  runs_are : d.runs ≡ c.runs ++ runs
  spans_are : d.spans ≡ c.spans ++ span ∷ []
  index : span.index ≡ i
  width : span.width ≡ length name
  shown : Shows (drawn d.runs) span.offset name

pub shown_last :
    (rs : List Run) (name style : Text)
    → Shows (drawn (rs ++ run name style ∷ [])) (run_width rs) name
unfolding drawn
shown_last rs name style = record {
  before = drawn rs;
  after = [];
  split = drawn-append rs (run name style ∷ []);
  column = sym (run_width-drawn rs);
}

add_tab_lem : (active i : ℕ) (name : Text) (c : Centre) → Added i name c (add_tab active i name c)
unfolding add_tab
add_tab_lem active zero name c = record {
  span = _;
  runs = _;
  runs_are = refl;
  spans_are = refl;
  index = refl;
  width = refl;
  shown = shown_last c.runs name _;
}
add_tab_lem active (suc i) name c = record {
  span = _;
  runs = _;
  runs_are = append_assoc c.runs _ _;
  spans_are = refl;
  index = refl;
  width = refl;
  shown = shown_last (c.runs ++ sep_run ∷ []) name _;
}

pub record Looped (i : ℕ) (names : List Text) (c d : Centre) : Type 0 where
  pub spans : List Span
  pub runs : List Run
  pub runs_are : d.runs ≡ c.runs ++ runs
  pub spans_are : d.spans ≡ c.spans ++ spans
  pub count : length spans ≡ length names
  pub covers : Covers i names spans (drawn d.runs)

pub add_tabs_lem :
    (active i : ℕ) (names : List Text) (c : Centre) → Looped i names c (add_tabs active i names c)
unfolding add_tabs
add_tabs_lem active i [] c = record {
  spans = [];
  runs = [];
  runs_are = sym (append-nil c.runs);
  spans_are = sym (append-nil c.spans);
  count = refl;
  covers = tt;
}
add_tabs_lem active i (n ∷ ns) c =
    let a = add_tab_lem active i n c in
    let l = add_tabs_lem active (suc i) ns (add_tab active i n c) in
    record {
      spans = a.span ∷ l.spans;
      runs = a.runs ++ l.runs;
      runs_are = l.runs_are ∙ ap (λ t. t ++ l.runs) a.runs_are ∙ append_assoc c.runs a.runs l.runs;
      spans_are =
          l.spans_are
          ∙ ap (λ t. t ++ l.spans) a.spans_are
          ∙ append_assoc c.spans (a.span ∷ []) l.spans;
      count = ap suc l.count;
      covers = (
        a.index,
        a.width,
        rw (l.runs_are, drawn-append) (Shows-append (drawn l.runs) a.shown),
        l.covers,
      );
    }

-- The spans of the centre cover its tabs.
pub centre_of-Looped :
    (req : Request)
    → let vals = values_of req in
      let names = list_or_empty vals.tabs in
      (length (centre_of vals).spans ≡ length names)
      × Covers 0 names (centre_of vals).spans (drawn (centre_of vals).runs)
unfolding centre_of
centre_of-Looped req =
    let vals = values_of req in
    let names = list_or_empty vals.tabs in
    let l = add_tabs_lem (number_or 0 vals.active_tab) 0 names (record { runs = []; spans = [] }) in
    (
      ap length l.spans_are ∙ l.count,
      subst (λ s. Covers 0 names s (drawn (centre_of vals).runs)) (sym l.spans_are) l.covers,
    )
