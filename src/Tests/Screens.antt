-- ===== src/Tests/Screens.antt =====
-- The screen of the smoke tests.
use hexe.Prelude.{◌≡◌, refl, List, [], ◌∷◌, ◌++◌, Text, codes, length, arith}
use hexe.Film.{Bytes}
use hexe.Decor.{Screen, new_screen, text}
use hexe.Decor.Decode.{decode}
use hexe.Decor.Feed.{feed, waits}
use hexe.Decor.Sizes.{IsScreen}
use hexe.Decor.Streams.{feed_all, feed-IsScreen}

abbrev blank : Screen
blank = record {
  rows = 2;
  cols = 4;
  grid = codes "    " ∷ codes "    " ∷ [];
  cy = 0;
  cx = 0;
  pending = [];
}

blank-new : new_screen 2 4 ≡ blank
unfolding new_screen
blank-new = refl

blank-IsScreen : IsScreen 2 4 blank
blank-IsScreen = record {
  rows_are = refl;
  cols_are = refl;
  height = refl;
  widths = (refl, (refl, tt));
  row_on = omega arith;
  col_on = omega arith;
}

-- An address that is broken off after its first digit.
abbrev chunks : List Bytes
chunks = codes "hello" ∷ (27 ∷ codes "[1") ∷ codes ";2HE" ∷ []

feed_all-chunks : text (feed_all chunks blank) ≡ codes "hEll\no   "
unfolding text feed hexe.Decor.Feed.numbers hexe.Prelude.join hexe.Prelude.split_on
    hexe.Prelude.value_from decode hexe.Decor.put_all
feed_all-chunks = refl

decode-broken :
    decode (0xE2 ∷ 0x94 ∷ 0x80 ∷ 0xE2 ∷ 0x94 ∷ b'a' ∷ 0xFF ∷ [])
    ≡ 0x2500 ∷ 0xFFFD ∷ b'a' ∷ 0xFFFD ∷ []
unfolding decode
decode-broken = refl

feed-IsScreen_example : IsScreen 2 4 (feed_all chunks blank)
feed-IsScreen_example = feed-IsScreen 2 4 chunks blank blank-IsScreen
