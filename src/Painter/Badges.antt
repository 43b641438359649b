-- ===== src/Painter/Badges.antt =====
-- contrib/painter.py: `view_title` and `view_share`.
pub mod Sharing
use hexe.Prelude.{
  ℕ, zero, suc, ◌+◌, Bool, true, false, Option, none, some, List, [], ◌∷◌, ◌++◌, Text, codes, show,
  ltb, length, if◌then◌else◌,
}
use hexe.Painter.{
  Region, Action, Output, Field, missing, null, given, Values, Context, Request, run, text_or_empty,
  number_or, flag, context_of, values_of,
}
use hexe.Painter.Style

abbrev pub nothing_drawn : Output
nothing_drawn = record { runs = []; width = 0; next_frame_ms = none; regions = [] }

abbrev or_else : Text → Text → Text
or_else [] t = t
or_else (c ∷ s) t = c ∷ s

-- `vals.get("active", True)`, as a condition.
abbrev active_flag : Field Bool → Bool
active_flag missing = true
active_flag null = false
active_flag (given b) = b

abbrev title_text : Request → Text
title_text req =
    or_else (text_or_empty (values_of req).title) (text_or_empty (context_of req).title)

abbrev titled : Bool → Text → Output
titled active [] = nothing_drawn
titled active (c ∷ s) = record {
  runs =
      run (b' ' ∷ (c ∷ s) ++ b' ' ∷ []) (if active then Style.tab_active else Style.tab_inactive)
      ∷ [];
  width = length (b' ' ∷ (c ∷ s) ++ b' ' ∷ []);
  next_frame_ms = none;
  regions = [];
}

unfoldable pub view_title : Request → Output
view_title req = titled (active_flag (values_of req).active) (title_text req)

abbrev pub hexe_command : Text
hexe_command = codes "${HEXE_BIN:-hexe}"

-- The two commands of a badge name the pane that the badge belongs to.
unfoldable pub share_actions : Text → List Action
share_actions [] = []
share_actions (c ∷ s) =
    record {
      button = codes "left";
      does = hexe_command ++ codes " pod share -u " ++ (c ∷ s) ++ codes " --off";
    }
    ∷ record {
      button = codes "right";
      does = hexe_command ++ codes " pod share -u " ++ (c ∷ s) ++ codes " --on";
    }
    ∷ []

abbrev share_regions : ℕ → List Action → List Region
share_regions w [] = []
share_regions w (a ∷ more) =
    record {
      id = codes "share";
      x = 0;
      y = 0;
      width = w;
      height = 1;
      actions = a ∷ more;
      hover_style = some (codes "bold fg:15");
    }
    ∷ []

unfoldable pub badge : Text → Text → Text → Output
badge uuid text style = record {
  runs = run text style ∷ [];
  width = length text;
  next_frame_ms = none;
  regions = share_regions (length text) (share_actions uuid);
}

abbrev pub off_text : Text
off_text = codes " ⏻ sharing off "

abbrev pub live_text : ℕ → Text
live_text observers =
    if ltb 1 observers then codes " ● LIVE " ++ show observers ++ codes " " else codes " ● LIVE "

unfoldable pub view_share : Request → Output
view_share req =
    let vals = values_of req in
    let uuid = text_or_empty vals.pane_uuid in
    let observers = number_or 0 vals.observers in
    if flag vals.share_blocked
    then badge uuid off_text (codes "dim fg:7")
    else if ltb 0 observers
    then badge uuid (live_text observers) (codes "bold fg:1")
    else nothing_drawn
