-- ===== src/Tests/Showcases.antt =====
-- The showcase painter.
use hexe.Prelude.{
  ℕ, zero, suc, ◌+◌, ◌<◌, ◌≡◌, ◌≢◌, refl, max, map, take, Bool, true, false, Option, some, none,
  List, [], ◌∷◌, ◌++◌, Text, codes, length,
}
use hexe.Wire.{Bytes, Pipe}
use hexe.Painter.{given, missing, list_or_empty}
use hexe.Painter.Serve.{Sink}
use hexe.Showcase.{Request, Host, Output, runs, values_of}
use hexe.Showcase.Status.{view_status, width_of, segments}
use hexe.Showcase.Status.Bars.{drawn_of}
use hexe.Showcase.Sprite.{sprite_row, art_line}
use hexe.Showcase.Sprite.Rows.{Paints, cell, sprite_row-Paints}
use hexe.Showcase.Views.{render, view_title}
use hexe.Showcase.Views.Names.{select_first}
use hexe.Showcase.Strip.{view_at, filmstrip}
use hexe.Showcase.Strip.Plays.{IsStrip, filmstrip-IsStrip}
use hexe.Showcase.Serve.{Response, Site, Ended, running}

abbrev host : Host
host = record { frame_ms = 100; clock = codes "12:34:56" }

abbrev asked : Request
asked = record {
  select = some (codes "my.status" ∷ []);
  width = some 60;
  height = none;
  now_ms = some 250;
  frames_ms = none;
  context = some (record {
    values = some (record {
      session = some (codes "work");
      tabs = some (codes "shell" ∷ codes "logs" ∷ []);
      active_tab = given 1;
      progress_state = some (codes "in_progress");
      progress_pct = some 45;
      title = none;
      pod_name = some (codes "pod");
      sprite_shiny = none;
    });
    cwd = some (codes "/home/a/src");
    home = some (codes "/home/a");
  });
}

status-drawn :
    drawn_of (view_status host asked)
    ≡ codes " work  shell  logs  ⠹ ~/src [████░░░░░░]           12:34:56 "
unfolding view_status segments hexe.Showcase.Status.bar hexe.Showcase.Status.finish
    hexe.Showcase.Status.emit hexe.Showcase.Status.emit_tabs hexe.Showcase.Status.shown_dir
    hexe.Prelude.starts_with hexe.Prelude.text_eq hexe.Prelude.show hexe.Painter.drawn
status-drawn = refl

sprite_row-Paints_example :
    Paints none (sprite_row 5 true 1 3) (map (cell true) (take 5 (art_line 1 3))) none
sprite_row-Paints_example = sprite_row-Paints 5 true 1 3

-- The title of a float: its spinner has ten pictures, and then the strip begins again.
abbrev spinning : Request
spinning = select_first (codes "float.title") [] asked

abbrev spin : ℕ → Output
spin glyph =
    runs
      (record { text = 0x2500 ∷ 0x2524 ∷ b' ' ∷ glyph ∷ codes " pod ├"; style = codes "fg:141" }
        ∷ [])
      10 (some 100) none

abbrev spins : List Output
spins =
    map spin
      (0x2839 ∷ 0x2838 ∷ 0x283C ∷ 0x2834 ∷ 0x2826 ∷ 0x2827 ∷ 0x2807 ∷ 0x280F ∷ 0x280B ∷ 0x2819 ∷ [])

filmstrip-spinning : filmstrip host spinning 5000 ≡ some spins
unfolding filmstrip hexe.Showcase.Strip.draw_strip hexe.Showcase.Strip.same_output render
    hexe.Showcase.Views.render_named hexe.Prelude.ends_with view_title hexe.Film.contains
    hexe.Prelude.starts_with hexe.Prelude.text_eq
filmstrip-spinning = refl

filmstrip-IsStrip_example : (0 < length spins) × IsStrip (view_at host spinning) 5000 spins
filmstrip-IsStrip_example = filmstrip-IsStrip host spinning 5000 spins filmstrip-spinning

-- A site whose requests are the empty bodies; it prints what kind of answer it gives.
abbrev print : Response → Bytes
print (hexe.Showcase.Serve.answered o) = codes "picture"
print (hexe.Showcase.Serve.animated fs) = codes "strip"
print (hexe.Showcase.Serve.refused t) = t

abbrev site : Site
site = record { host = host; loads = λ b. elim b [ [] ↦ some asked | c ∷ s ↦ none ]; dumps = print }

abbrev sink : Sink
sink = record { room = 3; sent = [] }

-- A frame that does not decode, and a request; the second is cut in two by the pipe.
abbrev pipe : Pipe
pipe = (0 ∷ 0 ∷ 0 ∷ 1 ∷ b'?' ∷ 0 ∷ 0 ∷ []) ∷ (0 ∷ 0 ∷ []) ∷ []

abbrev replies : List Bytes
replies = (0 ∷ 0 ∷ 0 ∷ 8 ∷ codes "bad json") ∷ (0 ∷ 0 ∷ 0 ∷ 7 ∷ codes "picture") ∷ []
