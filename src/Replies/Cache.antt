-- ===== src/Replies/Cache.antt =====
-- scripts/smoke_color_cache.py: its terminal, whose background a program can set.
use hexe.Prelude.{
  ℕ, zero, suc, ◌-◌, max, ◌≡◌, refl, Bool, false, not, ◌&&◌, ◌||◌, Option, none, some, List, [],
  ◌∷◌, ◌++◌, arith, codes, is_digit, leb, ◌==◌, expect, and_then, find_all, if◌then◌else◌, length,
  take, drop,
}
use hexe.Replies.{
  Bytes, Match, Colour, entry, special, Found, Read, Act, answers, sleeps, match_colour, match_end,
  all_of, csi_answers, read_to, kept, is_empty, chunk_of, end_of_input, string_end,
}
use hexe.Replies.Tails.{drop-IsQuiet}

is_hex : ℕ → Bool
is_hex c = is_digit c || ((leb b'a' c && leb c b'f') || (leb b'A' c && leb c b'F'))

-- `[0-9a-fA-F]{n}`
hex_digits : ℕ → Bytes → Option (Bytes × Bytes)
unfolding is_hex
hex_digits zero s = some ([], s)
hex_digits (suc n) [] = none
hex_digits (suc n) (c ∷ s) =
    let more = hex_digits n s in if is_hex c then and_then more (λ m. some (c ∷ m.0, m.1)) else none

-- `OSC_BG_SET`, `\x1b\]11;#([0-9a-fA-F]{6})(?:\x1b\\|\x07)`
unfoldable pub match_set : Match Bytes
unfolding hex_digits match_end expect
match_set s = and_then (expect 0x1b s) (λ s. and_then (expect b']' s) (λ s.
    and_then (expect b'1' s) (λ s. and_then (expect b'1' s) (λ s. and_then (expect b';' s) (λ s.
      and_then (expect b'#' s) (λ s.
        and_then (hex_digits 6 s) (λ hex. and_then (match_end hex.1) (λ s. some (hex.0, s)))))))))

-- `"/".join(hexcolor[at:at + 2] * 2 for at in (0, 2, 4))`
unfoldable pub doubled : Bytes → Bytes
doubled hex =
    let pair = λ (at : ℕ). take 2 (drop at hex) ++ take 2 (drop at hex) in
    pair 0 ++ (b'/' ∷ (pair 2 ++ (b'/' ∷ pair 4)))

-- The background after these settings, one after the other.
unfoldable pub background_after : Bytes → List (Bytes × Bytes) → Bytes
unfolding doubled
background_after background [] = background
background_after background ((hex, tail) ∷ ms) = background_after (doubled hex) ms

is_background : Bytes → Bool
is_background (a ∷ b ∷ []) = a == b'1' && b == b'1'
is_background _ = false

unfoldable pub colour_answer : Bytes → Colour → Bytes
unfolding is_background
colour_answer background (entry n) =
    0x1b ∷ codes "]4;" ++ (n ++ (codes ";rgb:6e6e/ffff/5757" ++ string_end))
colour_answer background (special what) =
    if is_background what
    then 0x1b ∷ codes "]11;rgb:" ++ (background ++ string_end)
    else 0x1b ∷ b']' ∷ (what ++ (codes ";rgb:cdcd/d6d6/f4f4" ++ string_end))

-- The answers to a buffer, by the background that it leaves.
unfoldable pub cache_answers : Bytes → Bytes → Found
unfolding colour_answer match_colour all_of find_all csi_answers read_to
cache_answers background buf = record {
  out = all_of (colour_answer background) (find_all match_colour 0 buf) ++ csi_answers buf;
  consumed = read_to buf;
  colors = not (is_empty (find_all match_colour 0 buf));
}

-- `host(master)`, with the background; `delay` is `HOST_DELAY_S`.
unfoldable pub host : ℕ → Bytes → Bytes → List Read → List Act
unfolding cache_answers background_after match_set find_all kept
host delay background buf [] = []
host delay background buf (r ∷ rs) =
    let bigger = buf ++ chunk_of r.chunk in
    let now = background_after background (find_all match_set 0 bigger) in
    let found = cache_answers now bigger in
    let rest = host delay now (kept found.consumed bigger) rs in
    let sleep = if found.colors then sleeps delay ∷ [] else [] in
    if end_of_input r.chunk
    then []
    else if is_empty found.out
    then rest
    else if r.takes
    then sleep ++ (answers found.out ∷ rest)
    else sleep

-- What is kept of a buffer holds no whole query, whatever the background was.
pub cache_answers-kept :
    (background later s : Bytes)
    → (cache_answers later (kept (cache_answers background s).consumed s)).out ≡ []
unfolding cache_answers kept csi_answers all_of
cache_answers-kept background later s =
    let (a, (b, (c, d))) = drop-IsQuiet s (max (read_to s) (length s - 64)) (omega arith) in
    rw (a, b, c, d) refl
