-- ===== src/Heavy/Floats.antt =====
-- scripts/smoke_heavy2.py: `swap_float_cmds`, which gives every float of a layout the same command.
pub mod Blocks
use hexe.Prelude.{
  ℕ, zero, suc, ◌+◌, ◌-◌, ◌≤◌, ◌<◌, ◌≡◌, refl, sym, ap, ◌∙◌, ◌⊎◌, inl, inr, Bool, true, false, ◌||◌,
  Option, none, some, List, [], ◌∷◌, ◌++◌, append_assoc, append-nil, arith, Text, codes,
  starts_with, ◌==◌, find_at, if◌then◌else◌, if-true, if-false, Bool-cases, Option-cases, length,
  take, drop, length-drop, take-append-drop,
}
use hexe.Film.{contains}

abbrev pub float : Text
float = codes "hexe.float("

abbrev command : Text
command = codes "command = \""

closing : Option ℕ → Option ℕ
closing none = none
closing (some n) = some (11 + n)

-- Where a match of `command = "[^"]*"` that starts here has its last character.
unfoldable pub command_end : Text → Option ℕ
unfolding find_at closing
command_end s = if starts_with s command then closing (find_at (b'"' ∷ []) (drop 11 s)) else none

-- `re.sub(r'command = "[^"]*"', 'command = "/bin/sh"', block)`, with the number of characters that
-- still belong to the match before.
unfoldable pub sub_from : ℕ → Text → Text
unfolding command_end
sub_from skip [] = []
sub_from (suc skip) (c ∷ s) = sub_from skip s
sub_from zero (c ∷ s) = elim (command_end (c ∷ s)) [
  | none ↦ c ∷ sub_from 0 s
  | some n ↦ codes "command = \"/bin/sh\"" ++ sub_from n s
]

unfoldable pub first_length : ℕ → Option ℕ → ℕ
first_length n none = n
first_length n (some m) = suc m

-- `text.find("hexe.float(", j + 1) - j`, or all of a text that starts with a block.
unfoldable pub block_length : Text → ℕ
unfolding find_at first_length
block_length s = first_length (length s) (find_at float (drop 1 s))

unfoldable pub prepended : Text → Option Text → Option Text
prepended front none = none
prepended front (some s) = some (front ++ s)

-- One round of the loop of `swap_float_cmds` over `text[i:]`, where the search finds this.
unfoldable pub swap_found : (Text → Text) → (Text → Option Text) → Text → Option ℕ → Option Text
unfolding block_length prepended
swap_found change rest s none = some s
swap_found change rest s (some j) =
    let block = drop j s in
    let k = block_length block in
    prepended (take j s ++ change (take k block)) (rest (drop k block))

-- The loop, for any change of a block; nothing where the fuel runs out.
unfoldable pub swap_blocks : (Text → Text) → ℕ → Text → Option Text
unfolding find_at swap_found
swap_blocks change zero s = none
swap_blocks change (suc fuel) s = swap_found change (swap_blocks change fuel) s (find_at float s)

unfoldable pub swap_float_cmds : Text → Option Text
unfolding swap_blocks sub_from
swap_float_cmds s = swap_blocks (sub_from 0) (suc (length s)) s

-- A block: it starts with a float, and holds no other.
abbrev pub IsBlock : Text → Type 0
IsBlock b = (starts_with b float ≡ true) × (contains float (drop 1 b) ≡ false)

abbrev pub AreBlocks : List Text → Type 0
AreBlocks [] = Unit
AreBlocks (b ∷ bs) = IsBlock b × AreBlocks bs

abbrev pub concat : List Text → Text
concat [] = []
concat (b ∷ bs) = b ++ concat bs

abbrev pub changed : (Text → Text) → List Text → Text
changed f [] = []
changed f (b ∷ bs) = f b ++ changed f bs
