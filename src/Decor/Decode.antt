-- ===== src/Decor/Decode.antt =====
-- `bytes.decode("utf-8", "replace")`: what is no UTF-8 becomes U+FFFD, one for each start of a
-- character that breaks off.
use hexe.Prelude.{
  ℕ, zero, suc, ◌+◌, ◌-◌, ◌*◌, ◌&&◌, Bool, [], ◌∷◌, Text, ltb, leb, ◌==◌, length, if◌then◌else◌,
}
use hexe.Film.{Bytes}

abbrev between : ℕ → ℕ → ℕ → Bool
between low high c = leb low c && leb c high

-- `n` bytes more, of which the first lies in a range of its own.
unfoldable pub continued : ℕ → ℕ → ℕ → ℕ → Bytes → ℕ × Bytes
continued zero low high acc s = (acc, s)
continued (suc n) low high acc [] = (0xFFFD, [])
continued (suc n) low high acc (c ∷ s) =
    let more = continued n 0x80 0xBF (acc * 64 + (c - 0x80)) s in
    if between low high c then more else (0xFFFD, c ∷ s)

unfoldable pub decode_one : ℕ → Bytes → ℕ × Bytes
unfolding continued
decode_one c s =
    if ltb c 0x80
    then (c, s)
    else if between 0xC2 0xDF c
    then continued 1 0x80 0xBF (c - 0xC0) s
    else if c == 0xE0
    then continued 2 0xA0 0xBF 0 s
    else if c == 0xED
    then continued 2 0x80 0x9F 13 s
    else if between 0xE1 0xEF c
    then continued 2 0x80 0xBF (c - 0xE0) s
    else if c == 0xF0
    then continued 3 0x90 0xBF 0 s
    else if between 0xF1 0xF3 c
    then continued 3 0x80 0xBF (c - 0xF0) s
    else if c == 0xF4
    then continued 3 0x80 0x8F 4 s
    else (0xFFFD, s)

-- Each round takes a byte at least.
unfoldable pub decode_fuel : ℕ → Bytes → Text
unfolding decode_one
decode_fuel zero s = []
decode_fuel (suc f) [] = []
decode_fuel (suc f) (c ∷ s) = let (ch, rest) = decode_one c s in ch ∷ decode_fuel f rest

unfoldable pub decode : Bytes → Text
unfolding decode_fuel
decode s = decode_fuel (length s) s
