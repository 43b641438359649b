-- ===== src/Share/Tainted.antt =====
-- What is published of a cast with a password prompt.
use hexe.Prelude.{
  ◌≡◌, refl, sym, ap, ◌∙◌, true, false, some, List, [], ◌∷◌, ◌++◌, append_assoc, append-nil, Text,
}
use hexe.Share.{Json, is_password, on_line, on_lines, main, published}

abbrev pub IsPrompt : Json → Text → Type 0
IsPrompt json line = is_password (json.loads line) ≡ true

-- No line is a prompt.
abbrev pub NoPrompt : Json → List Text → Type 0
NoPrompt json [] = Unit
NoPrompt json (line ∷ lines) = (is_password (json.loads line) ≡ false) × NoPrompt json lines

abbrev pub flat : List Text → Text
flat [] = []
flat (line ∷ lines) = line ++ flat lines

on_lines-append :
    (json : Json) (header : Text) (before after : List Text) (file : Text)
    → on_lines json header (before ++ after) file
      ≡ on_lines json header after (on_lines json header before file)
unfolding on_lines
on_lines-append json header [] after file = refl
on_lines-append json header (line ∷ before) after file =
    on_lines-append json header before after (on_line json header line file)

on_lines-NoPrompt :
    (json : Json) (header : Text) (lines : List Text) (file : Text)
    → NoPrompt json lines
    → on_lines json header lines file ≡ file ++ flat lines
unfolding on_lines
on_lines-NoPrompt json header [] file h = sym (append-nil file)
on_lines-NoPrompt json header (line ∷ lines) file h =
    rw h.0
      (on_lines-NoPrompt json header lines (file ++ line) h.1 ∙ append_assoc file line (flat lines))

on_line-prompt :
    (json : Json) (header line file : Text)
    → IsPrompt json line
    → on_line json header line file ≡ header
unfolding on_line
on_line-prompt json header line file h = rw h

on_lines-prompt :
    (json : Json) (header file line : Text) (lines : List Text)
    → IsPrompt json line
    → NoPrompt json lines
    → on_lines json header (line ∷ lines) file ≡ header ++ flat lines
unfolding on_lines
on_lines-prompt json header file line lines h k =
    ap (on_lines json header lines) (on_line-prompt json header line file h)
    ∙ on_lines-NoPrompt json header lines header k

-- Of a cast whose header is an object and that has a password prompt, exactly the header and the
-- lines behind the last prompt are published, whatever came before.
pub main_published :
    (json : Json) (header line : Text) (before after : List Text)
    → json.is_object header ≡ some true
    → IsPrompt json line
    → NoPrompt json after
    → main json (header ∷ (before ++ line ∷ after)) ≡ published (header ++ flat after)
unfolding main
main_published json header line before after good h k = rw good (
    ap published (
      on_lines-append json header before (line ∷ after) header
      ∙ on_lines-prompt json header _ line after h k))
