-- ===== src/Text/Utf8.antt =====
-- What the program uses of Go's `unicode/utf8`.
use minecraft_ping.Base.{
  ℕ, Bool, true, false, List, [], ◌∷◌, Option, none, some, ltb, ◌==◌, if◌then◌else◌, Bytes,
}
use minecraft_ping.Text.{between}

-- `utf8.Valid`: the ranges that the coming continuation bytes must lie in.
abbrev Ranges : Type 0
Ranges = List (ℕ × ℕ)

abbrev pub utf8_start : ℕ → Option Ranges
utf8_start b =
    if ltb b 0x80
    then some []
    else if ltb b 0xc2
    then none
    else if ltb b 0xe0
    then some ((0x80, 0xbf) ∷ [])
    else if b == 0xe0
    then some ((0xa0, 0xbf) ∷ (0x80, 0xbf) ∷ [])
    else if b == 0xed
    then some ((0x80, 0x9f) ∷ (0x80, 0xbf) ∷ [])
    else if ltb b 0xf0
    then some ((0x80, 0xbf) ∷ (0x80, 0xbf) ∷ [])
    else if b == 0xf0
    then some ((0x90, 0xbf) ∷ (0x80, 0xbf) ∷ (0x80, 0xbf) ∷ [])
    else if ltb b 0xf4
    then some ((0x80, 0xbf) ∷ (0x80, 0xbf) ∷ (0x80, 0xbf) ∷ [])
    else if b == 0xf4
    then some ((0x80, 0x8f) ∷ (0x80, 0xbf) ∷ (0x80, 0xbf) ∷ [])
    else none

abbrev pub utf8_step : Ranges → ℕ → Option Ranges
utf8_step [] b = utf8_start b
utf8_step ((lo, hi) ∷ coming) b = if between lo hi b then some coming else none

unfoldable pub utf8_loop : Ranges → Bytes → Bool
utf8_loop [] [] = true
utf8_loop (r ∷ rs) [] = false
utf8_loop rs (b ∷ s) = elim (utf8_step rs b) [ none ↦ false | some rs' ↦ utf8_loop rs' s ]

unfoldable pub utf8_valid : Bytes → Bool
unfolding utf8_loop
utf8_valid s = utf8_loop [] s
