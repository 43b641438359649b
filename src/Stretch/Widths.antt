-- ===== src/Stretch/Widths.antt =====
-- The width of a line with fills.
use hexe.Prelude.{
  ℕ, zero, suc, ◌+◌, ◌-◌, ◌*◌, ◌/◌, ◌%◌, ◌≤◌, ◌<◌, min, ◌≡◌, refl, List, [], ◌∷◌, Text, arith,
  length, length-append, length-take, take,
}
use hexe.Stretch.{
  Part, content, fill, content_width, fill_count, times, fill_width, fixed_parts, fixed,
}

-- Every fill has a pattern to fill with.
abbrev pub HavePatterns : List Part → Type 0
HavePatterns [] = Unit
HavePatterns (content s ∷ ps) = HavePatterns ps
HavePatterns (fill pattern ∷ ps) = (0 < length pattern) × HavePatterns ps

le-times : (pattern : Text) (n : ℕ) → 0 < length pattern → n ≤ length (times pattern n)
unfolding times
le-times pattern zero h = omega arith
le-times pattern (suc n) h =
    omega (arith, le-times pattern n h, length-append pattern (times pattern n))

-- The fills from number `nth` on, together.
abbrev fills_width : ℕ → ℕ → ℕ → ℕ → ℕ
fills_width free count nth zero = 0
fills_width free count nth (suc n) = fill_width free count nth + fills_width free count (suc nth) n

length-fixed_parts :
    (free count nth : ℕ) (ps : List Part)
    → HavePatterns ps
    → length (fixed_parts free count nth ps)
      ≡ content_width ps + fills_width free count nth (fill_count ps)
unfolding fixed_parts content_width fill_count
length-fixed_parts free count nth [] h = refl
length-fixed_parts free count nth (content s ∷ ps) h =
    omega (
      arith,
      length-append s (fixed_parts free count nth ps),
      length-fixed_parts free count nth ps h,
    )
length-fixed_parts free count nth (fill pattern ∷ ps) h =
    let w = fill_width free count nth in
    omega (
      arith,
      length-append (take w (times pattern w)) (fixed_parts free count (suc nth) ps),
      length-take w (times pattern w),
      le-times pattern w h.0,
      length-fixed_parts free count (suc nth) ps h.1,
    )

fills_width_sum :
    (free count nth n : ℕ)
    → fills_width free count nth n
      ≡ n * (free / count) + (min (free % count) (nth + n) - min (free % count) nth)
fills_width_sum free count nth zero = omega arith
fills_width_sum free count nth (suc n) = grind (arith, fills_width_sum free count (suc nth) n)

fills_width_all : (free n : ℕ) → 0 < n → fills_width free n 0 n ≡ free
fills_width_all free n h = grind (arith, fills_width_sum free n 0 n)

-- A line with a fill, each of its fills with a pattern, is exactly as wide as asked for.
length-fixed :
    (ps : List Part) (width : ℕ)
    → HavePatterns ps
    → 0 < fill_count ps
    → length (fixed ps width) ≡ width
unfolding fixed
length-fixed ps width h k = omega (
  arith,
  length-take width (fixed_parts (width - content_width ps) (fill_count ps) 0 ps),
  length-fixed_parts (width - content_width ps) (fill_count ps) 0 ps h,
  fills_width_all (width - content_width ps) (fill_count ps) k,
)
