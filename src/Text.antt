-- ===== src/Text.antt =====
-- What the program uses of Go's `strings` and `strconv`, over strings as bytes.
pub mod Decimal
pub mod Utf8
use Prim.Native.Char.{code}
use Prim.Native.String.{String}
use minecraft_ping.Base.{
  ℕ, zero, suc, ◌+◌, ◌-◌, ◌*◌, ◌/◌, ◌%◌, ◌^◌, ◌≡◌, refl, Bool, true, false, ◌&&◌, ◌||◌, List, [],
  ◌∷◌, Option, none, some, leb, ltb, ◌==◌, if◌then◌else◌, Bytes, length, drop,
}
use minecraft_ping.Base.Int.{ℤ, pos, negsuc}
use mathlib.Core.List.{reverse}

-- The bytes of a literal; every literal of the development is ASCII.
abbrev pub codes : String → Bytes
codes String.[] = []
codes (String.◌∷◌ c s) = code c ∷ codes s

-- `strings.HasPrefix`
unfoldable pub has_prefix : Bytes → Bytes → Bool
has_prefix s [] = true
has_prefix [] (p ∷ ps) = false
has_prefix (c ∷ s) (p ∷ ps) = c == p && has_prefix s ps

-- `strings.IndexByte` and `strings.LastIndexByte`; `none` for -1.
unfoldable pub index_byte : ℕ → Bytes → Option ℕ
index_byte c [] = none
index_byte c (x ∷ s) =
    let later = index_byte c s in
    if x == c then some 0 else elim later [ none ↦ none | some i ↦ some (suc i) ]

unfoldable pub last_index_byte : ℕ → Bytes → Option ℕ
last_index_byte c [] = none
last_index_byte c (x ∷ s) = elim (last_index_byte c s) [
  | some i ↦ some (suc i)
  | none ↦ if x == c then some 0 else none
]

-- `strings.Count` of one byte, and `strings.Contains`.
unfoldable pub count_byte : ℕ → Bytes → ℕ
count_byte c [] = 0
count_byte c (x ∷ s) = (if x == c then 1 else 0) + count_byte c s

unfoldable pub contains_byte : ℕ → Bytes → Bool
contains_byte c [] = false
contains_byte c (x ∷ s) = x == c || contains_byte c s

-- `strings.Split` at a separator of one byte: the first field, and the others.
unfoldable pub split_first : ℕ → Bytes → Bytes × List Bytes
split_first sep [] = ([], [])
split_first sep (c ∷ s) =
    let (first, others) = split_first sep s in
    if c == sep then ([], first ∷ others) else (c ∷ first, others)

unfoldable pub split : ℕ → Bytes → List Bytes
unfolding split_first
split sep s = let (first, others) = split_first sep s in first ∷ others

-- The UTF-8 forms of the white space of `strings.TrimSpace`; the two flags read a form from the
-- left, or backwards from the right. `none`: the string does not begin with white space.
abbrev between : ℕ → ℕ → ℕ → Bool
between lo hi c = leb lo c && leb c hi

abbrev is_wide_space : ℕ → ℕ → ℕ → Bool
is_wide_space a b c =
    (a == 0xe1 && b == 0x9a && c == 0x80)
    || (a == 0xe2 && b == 0x80 && (between 0x80 0x8a c || c == 0xa8 || c == 0xa9 || c == 0xaf))
    || (a == 0xe2 && b == 0x81 && c == 0x9f)
    || (a == 0xe3 && b == 0x80 && c == 0x80)

abbrev is_narrow_space : ℕ → ℕ → Bool
is_narrow_space a b = a == 0xc2 && (b == 0x85 || b == 0xa0)

abbrev pub is_ascii_space : ℕ → Bool
is_ascii_space c = between 9 13 c || c == b' '

abbrev pub left_space : Bytes → Option Bytes
left_space [] = none
left_space (a ∷ []) = if is_ascii_space a then some [] else none
left_space (a ∷ b ∷ []) =
    if is_ascii_space a then some (b ∷ []) else if is_narrow_space a b then some [] else none
left_space (a ∷ b ∷ c ∷ s) =
    if is_ascii_space a
    then some (b ∷ c ∷ s)
    else if is_narrow_space a b
    then some (c ∷ s)
    else if is_wide_space a b c
    then some s
    else none

abbrev pub right_space : Bytes → Option Bytes
right_space [] = none
right_space (a ∷ []) = if is_ascii_space a then some [] else none
right_space (a ∷ b ∷ []) =
    if is_ascii_space a then some (b ∷ []) else if is_narrow_space b a then some [] else none
right_space (a ∷ b ∷ c ∷ s) =
    if is_ascii_space a
    then some (b ∷ c ∷ s)
    else if is_narrow_space b a
    then some (c ∷ s)
    else if is_wide_space c b a
    then some s
    else none

-- Each round takes a byte at least: the length is enough fuel.
unfoldable pub trim_loop : (Bytes → Option Bytes) → ℕ → Bytes → Bytes
trim_loop space zero s = s
trim_loop space (suc fuel) s = elim (space s) [ none ↦ s | some rest ↦ trim_loop space fuel rest ]

-- `strings.TrimSpace`
unfoldable pub trim_space : Bytes → Bytes
unfolding trim_loop
trim_space s =
    let front = trim_loop left_space (length s) s in
    reverse (trim_loop right_space (length front) (reverse front))

-- `strings.ToLower` as far as a comparison with an ASCII word sees it: the ASCII letters, and the
-- two other runes whose lower case begins with an ASCII letter (U+212A and U+0130).
unfoldable pub to_lower : Bytes → Bytes
to_lower [] = []
to_lower (a ∷ []) = (if between b'A' b'Z' a then a + 32 else a) ∷ []
to_lower (a ∷ b ∷ []) =
    if a == 0xc4 && b == 0xb0
    then b'i' ∷ []
    else (if between b'A' b'Z' a then a + 32 else a) ∷ to_lower (b ∷ [])
to_lower (a ∷ b ∷ c ∷ s) =
    let narrow = b'i' ∷ to_lower (c ∷ s) in
    let wide = b'k' ∷ to_lower s in
    let one = (if between b'A' b'Z' a then a + 32 else a) ∷ to_lower (b ∷ c ∷ s) in
    if a == 0xc4 && b == 0xb0
    then narrow
    else if a == 0xe2 && b == 0x84 && c == 0xaa
    then wide
    else one

-- `strconv.Atoi` on a 64-bit platform; `none` is its error.
abbrev is_digit : ℕ → Bool
is_digit c = between b'0' b'9' c

unfoldable pub digits_value : ℕ → Bytes → Option ℕ
digits_value acc [] = some acc
digits_value acc (c ∷ s) = elim (is_digit c) [
  | true ↦ digits_value (acc * 10 + (c - b'0')) s
  | false ↦ none
]

unfoldable pub unsigned_value : Bytes → Option ℕ
unfolding digits_value
unsigned_value [] = none
unsigned_value (c ∷ s) = digits_value 0 (c ∷ s)

abbrev positive : Option ℕ → Option ℤ
positive none = none
positive (some n) = if ltb n (2 ^ 63) then some (pos n) else none

abbrev negative : Option ℕ → Option ℤ
negative none = none
negative (some zero) = some (pos 0)
negative (some (suc n)) = if ltb n (2 ^ 63) then some (negsuc n) else none

unfoldable pub atoi : Bytes → Option ℤ
unfolding unsigned_value
atoi [] = none
atoi (c ∷ s) =
    if c == b'-'
    then negative (unsigned_value s)
    else if c == b'+'
    then positive (unsigned_value s)
    else positive (unsigned_value (c ∷ s))

-- `fmt.Sprint` of an int. A number has fewer digits than its value and one more: enough fuel.
unfoldable pub decimal_digits : ℕ → ℕ → Bytes → Bytes
decimal_digits zero n behind = behind
decimal_digits (suc fuel) n behind = elim (ltb n 10) [
  | true ↦ (b'0' + n) ∷ behind
  | false ↦ decimal_digits fuel (n / 10) ((b'0' + n % 10) ∷ behind)
]

unfoldable pub decimal : ℤ → Bytes
unfolding decimal_digits
decimal (pos n) = decimal_digits (suc n) n []
decimal (negsuc n) = b'-' ∷ decimal_digits (suc (suc n)) (suc n) []

-- `strings.TrimRight` with one byte.
unfoldable pub trim_right : ℕ → Bytes → Bytes
trim_right c [] = []
trim_right c (x ∷ s) = elim (trim_right c s) [
  | [] ↦ if x == c then [] else x ∷ []
  | y ∷ ys ↦ x ∷ y ∷ ys
]

-- `strings.TrimPrefix`, `strings.Index`, `strings.Contains` and `strings.HasSuffix`.
unfoldable pub trim_prefix : Bytes → Bytes → Bytes
unfolding has_prefix
trim_prefix s prefix = if has_prefix s prefix then drop (length prefix) s else s

unfoldable pub index : Bytes → Bytes → Option ℕ
unfolding has_prefix
index [] word = if has_prefix [] word then some 0 else none
index (x ∷ s) word = elim (has_prefix (x ∷ s) word) [
  | true ↦ some 0
  | false ↦ elim (index s word) [ none ↦ none | some i ↦ some (suc i) ]
]

abbrev is_found : Option ℕ → Bool
is_found none = false
is_found (some i) = true

unfoldable pub contains_text : Bytes → Bytes → Bool
unfolding index
contains_text s word = is_found (index s word)

unfoldable pub has_suffix : Bytes → Bytes → Bool
unfolding has_prefix
has_suffix s suffix = has_prefix (reverse s) (reverse suffix)

test_decimal : decimal (pos 45_565) ≡ codes "45565"
unfolding decimal
test_decimal = refl

test_atoi : atoi (codes "-19132") ≡ some (negsuc 19131)
unfolding atoi
test_atoi = refl

test_trim : trim_space (0xc2 ∷ 0xa0 ∷ codes " a b\n") ≡ codes "a b"
unfolding trim_space
test_trim = refl

test_split : split b';' (codes "MCPE;a;;") ≡ codes "MCPE" ∷ codes "a" ∷ [] ∷ [] ∷ []
unfolding split
test_split = refl
