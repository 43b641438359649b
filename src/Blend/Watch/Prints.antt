-- ===== src/Blend/Watch/Prints.antt =====
-- The loop of scripts/demo_blend.py: what it prints, and when.
use hexe.Prelude.{◌≡◌, Bool, true, not, ◌&&◌, Option, none, some, List, [], ◌∷◌, Text, text_eq}
use hexe.Blend.{Error}
use hexe.Blend.Watch.{Print, renders, complains, Watch}

-- The text that was rendered last.
abbrev pub last_rendered : Option Text → List Print → Option Text
last_rendered t [] = t
last_rendered t (renders u whole ∷ ps) = last_rendered (some u) ps
last_rendered t (complains m ∷ ps) = last_rendered t ps

-- What may be printed after this.
abbrev pub is_news : Option Print → Print → Bool
is_news none p = true
is_news (some (renders t whole)) (renders u more) = not (text_eq u t)
is_news (some (renders t whole)) (complains n) = true
is_news (some (complains m)) (renders u more) = true
is_news (some (complains m)) (complains n) = not (text_eq n m)

abbrev pub last_print : Option Print → List Print → Option Print
last_print last [] = last
last_print last (p ∷ ps) = last_print (some p) ps

-- No print repeats the one before.
abbrev pub all_news : Option Print → List Print → Bool
all_news last [] = true
all_news last (p ∷ ps) = is_news last p && all_news (some p) ps

-- What the loop remembers of the last print.
abbrev Remembers : Watch → Option Print → Type 0
Remembers w none = Unit
Remembers w (some (renders t whole)) = w.previous ≡ some t
Remembers w (some (complains m)) = w.previous_error ≡ some m

module _ (message : Text → Error → Text) where
  -- What one round leaves, by what it prints.
  abbrev Told : Watch → Option Print → Watch × List Print → Type 0
  Told w last (u, out) =
      (last_rendered w.previous out ≡ u.previous)
      × ((all_news last out ≡ true) × Remembers u (last_print last out))
