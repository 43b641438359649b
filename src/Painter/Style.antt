-- ===== src/Painter/Style.antt =====
-- contrib/painter.py: the styles of the bar.
use hexe.Prelude.{Text, codes}

abbrev pub time : Text
time = codes "fg:6"

abbrev pub sep : Text
sep = codes "dim fg:7"

abbrev pub session : Text
session = codes "bold fg:5"

abbrev pub tab_active : Text
tab_active = codes "bold fg:2"

abbrev pub tab_inactive : Text
tab_inactive = codes "dim fg:7"

abbrev pub rec : Text
rec = codes "bold fg:1"

abbrev pub battery : Text
battery = codes "fg:3"

abbrev pub dir : Text
dir = codes "bold fg:4"

abbrev pub progress : Text
progress = codes "bold fg:3"
