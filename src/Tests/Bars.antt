-- ===== src/Tests/Bars.antt =====
-- The status bar, the badges and the paths.
use hexe.Prelude.{
  non_empty, ◌≡◌, inr, refl, some, none, true, [], ◌∷◌, codes, show, max, arith, join, split_on,
  starts_with, text_eq, strip,
}
use hexe.Painter.{
  pad, Values, Context, Request, no_values, missing, Region, drawn, run_width, list_or_empty,
  text_or_empty, values_of, given,
}
use hexe.Painter.Segments.{fish_truncate, battery_text}
use hexe.Painter.Segments.Paths.{fish_truncate-sibling}
use hexe.Painter.Status.{
  Host, view_status, width_of, placed, place, centre_of, left_runs, right_runs, recorded_runs,
  rec_offset, progress_runs, add_tab, add_tabs,
}
use hexe.Painter.Status.Widths.{view_status-width, parts_width}
use hexe.Painter.Status.Places.{TabsShown, view_status-TabsShown}
use hexe.Painter.Badges.{view_share, share_actions}
use hexe.Painter.Badges.Sharing.{Notable}

abbrev host : Host
host = record { clock = codes "12:00:00"; battery = some (codes "80%") }

abbrev vals : Values
vals = record no_values {
  session = some (codes "work");
  tabs = some (codes "one" ∷ codes "two" ∷ []);
  active_tab = some 1;
  progress_state = some (codes "paused");
  progress_pct = some 40;
  recording = some true;
  pane_uuid = some (codes "904d");
  observers = some 2;
}

abbrev req : Request
req = record {
  select = some (codes "status" ∷ []);
  width = some 100;
  context = some (record {
    values = some vals;
    cwd = some (codes "/home/me/src/hexe");
    home = some (codes "/home/me");
    title = none;
  });
}

bar :
    drawn (view_status host req).runs
    ≡ codes
        " 12:00:00 | work                             one | two progress 40% (paused) | REC | 80% | ~/s/hexe "
unfolding view_status drawn placed place centre_of left_runs right_runs recorded_runs rec_offset
    progress_runs show run_width pad fish_truncate text_eq starts_with split_on non_empty join
    add_tab add_tabs
bar = refl

view_status-width_example :
    (run_width (view_status host req).runs ≡ max (width_of req) (parts_width host req))
    × ((view_status host req).width ≡ 100)
view_status-width_example = view_status-width host req

view_status-TabsShown_example :
    TabsShown 0
      (codes "one" ∷ codes "two" ∷ [])
      (view_status host req).regions
      (drawn (view_status host req).runs)
view_status-TabsShown_example = view_status-TabsShown host req

abbrev watched : Notable req
watched = inr (omega arith)

live : drawn (view_share req).runs ≡ codes " ● LIVE 2 "
unfolding view_share drawn hexe.Painter.Badges.badge show
live = refl

home_path : fish_truncate (codes "/home/me/src/hexe") (codes "/home/me") ≡ codes "~/s/hexe"
unfolding fish_truncate starts_with non_empty split_on join
home_path = refl

root_path : fish_truncate (codes "/") (codes "/home/me") ≡ codes "/"
unfolding fish_truncate starts_with non_empty split_on
root_path = refl

fish_truncate-sibling_example :
    fish_truncate (codes "/home/meta/x") (codes "/home/me")
    ≡ fish_truncate (codes "/home/me/ta/x") (codes "/home/me")
unfolding join
fish_truncate-sibling_example =
    fish_truncate-sibling b'/' (codes "home/me") (codes "ta") (codes "x" ∷ []) (omega arith)

charging :
    battery_text (
      some (
        record { name = codes "BAT1"; capacity = none; status = none }
        ∷ record { name = codes "AC"; capacity = none; status = none }
        ∷ record {
          name = codes "BAT0";
          capacity = some (codes "81\n");
          status = some (codes "Charging\n");
        }
        ∷ []))
    ≡ some (codes "+81%")
unfolding battery_text starts_with text_eq strip
charging = refl
