-- ===== src/Net/Parse.antt =====
-- `netip.ParseAddr`, `net.SplitHostPort` and `net.JoinHostPort`.
use minecraft_ping.Base.{
  ℕ, zero, suc, ◌+◌, ◌-◌, ◌*◌, ◌/◌, ◌%◌, ◌^◌, ◌≡◌, refl, Bool, true, false, not, ◌&&◌, ◌||◌, List,
  [], ◌∷◌, Option, none, some, ◌==◌, leb, ltb, if◌then◌else◌, Bytes, length, take, drop, get_or,
}
use minecraft_ping.Text.{codes, index_byte, last_index_byte, contains_byte}
use minecraft_ping.Net.{Addr, v4, v6}

abbrev is_digit : ℕ → Bool
is_digit c = leb b'0' c && leb c b'9'

-- The loop of `parseIPv4Fields`: the fields that are done (latest first), the value and the number
-- of digits of the current one. `none` is any of its errors.
unfoldable pub v4_loop : List ℕ → ℕ → ℕ → Bytes → Option (List ℕ)
v4_loop fields val dig_len [] =
    if length fields == 3 && ltb 0 dig_len then some (val ∷ fields) else none
v4_loop fields val dig_len (c ∷ s) =
    let val' = val * 10 + (c - b'0') in
    let in_field = v4_loop fields val' (dig_len + 1) s in
    let next_field = v4_loop (val ∷ fields) 0 0 s in
    if is_digit c
    then if (dig_len == 1 && val == 0) || ltb 255 val' then none else in_field
    else if c == b'.' && ltb 0 dig_len && not (length fields == 3)
    then next_field
    else none

unfoldable pub v4_value : List ℕ → ℕ
v4_value [] = 0
v4_value (f ∷ fields) = v4_value fields * 256 + f

unfoldable pub parse_v4 : Bytes → Option ℕ
unfolding v4_loop v4_value
parse_v4 s = elim (v4_loop [] 0 0 s) [ none ↦ none | some fields ↦ some (v4_value fields) ]

abbrev hex_digit : ℕ → Option ℕ
hex_digit c =
    if is_digit c
    then some (c - b'0')
    else if leb b'a' c && leb c b'f'
    then some (c - b'a' + 10)
    else if leb b'A' c && leb c b'F'
    then some (c - b'A' + 10)
    else none

-- A group of hexadecimal digits, at most four: its value, its length, and what follows.
unfoldable pub hex_group : ℕ → ℕ → Bytes → Option (ℕ × ℕ × Bytes)
hex_group acc off [] = some (acc, off, [])
hex_group acc off (c ∷ s) = elim (hex_digit c) [
  | none ↦ some (acc, off, c ∷ s)
  | some d ↦ elim (ltb 3 off) [ true ↦ none | false ↦ hex_group (acc * 16 + d) (off + 1) s ]
]

-- The state behind the loop of `parseIPv6`: the groups of 16 bits (latest first), the number of
-- groups before the `::`, and the text that is left.
abbrev V6State : Type 0
V6State = List ℕ × Option ℕ × Bytes

-- What stands behind a group that was saved: its colon, and perhaps the second one of `::`.
-- `inl` ends the loop, `inr` goes on.
pub data Next : Type 0 where
  fail : Next
  stop : V6State → Next
  go_on : V6State → Next

abbrev after_group : List ℕ → Option ℕ → Bytes → Next
after_group groups ellipsis [] = stop (groups, ellipsis, [])
after_group groups ellipsis (c ∷ []) = fail
after_group groups ellipsis (c ∷ d ∷ s) =
    if not (c == b':')
    then fail
    else if d == b':'
    then elim ellipsis [
      | some _ ↦ fail
      | none ↦ elim s [
        | [] ↦ stop (groups, some (length groups), [])
        | x ∷ xs ↦ go_on (groups, some (length groups), x ∷ xs)
      ]
    ]
    else go_on (groups, ellipsis, d ∷ s)

abbrev is_placed : ℕ → Option ℕ → Bool
is_placed done none = done == 6
is_placed done (some _) = leb done 6

-- An IPv4 address in place of the last two groups.
abbrev embedded : List ℕ → Option ℕ → Bytes → Next
embedded groups ellipsis s =
    if is_placed (length groups) ellipsis
    then elim (parse_v4 s) [
      | none ↦ fail
      | some n ↦ stop (n % 2 ^ 16 ∷ n / 2 ^ 16 ∷ groups, ellipsis, [])
    ]
    else fail

abbrev one_group : List ℕ → Option ℕ → Bytes → Next
one_group groups ellipsis s = elim (hex_group 0 0 s) [
  | none ↦ fail
  | some (acc, off, rest) ↦
      if off == 0
      then fail
      else if get_or rest 0 0 == b'.'
      then embedded groups ellipsis s
      else after_group (acc ∷ groups) ellipsis rest
]

-- `for i < 16`: eight rounds at most.
unfoldable pub v6_loop : ℕ → List ℕ → Option ℕ → Bytes → Option V6State
unfolding hex_group parse_v4
v6_loop zero groups ellipsis s = some (groups, ellipsis, s)
v6_loop (suc rounds) groups ellipsis s = elim (one_group groups ellipsis s) [
  | fail ↦ none
  | stop state ↦ some state
  | go_on (groups', ellipsis', s') ↦ v6_loop rounds groups' ellipsis' s'
]

-- The value of groups, latest first; `shift` opens the room of a `::` behind the first `e` of them.
unfoldable pub groups_value : List ℕ → ℕ
groups_value [] = 0
groups_value (g ∷ groups) = groups_value groups * 2 ^ 16 + g

abbrev expand : List ℕ → Option ℕ → Option ℕ
expand groups none = if length groups == 8 then some (groups_value groups) else none
expand groups (some e) =
    if leb 8 (length groups)
    then none
    else let tail = length groups - e in
      some (groups_value (drop tail groups) * 2 ^ (16 * (8 - e)) + groups_value (take tail groups))

abbrev finish_v6 : Bytes → Option V6State → Option Addr
finish_v6 zone none = none
finish_v6 zone (some (groups, ellipsis, [])) = elim (expand groups ellipsis) [
  | none ↦ none
  | some n ↦ some (v6 n zone)
]
finish_v6 zone (some (groups, ellipsis, c ∷ s)) = none

abbrev v6_body : Bytes → Bytes → Option Addr
v6_body zone [] = finish_v6 zone (v6_loop 8 [] none [])
v6_body zone (c ∷ []) = finish_v6 zone (v6_loop 8 [] none (c ∷ []))
v6_body zone (c ∷ d ∷ s) =
    if c == b':' && d == b':'
    then elim s [ [] ↦ some (v6 0 zone) | x ∷ xs ↦ finish_v6 zone (v6_loop 8 [] (some 0) (x ∷ xs)) ]
    else finish_v6 zone (v6_loop 8 [] none (c ∷ d ∷ s))

unfoldable pub parse_v6 : Bytes → Option Addr
unfolding v6_loop groups_value index_byte
parse_v6 s = elim (index_byte b'%' s) [
  | none ↦ v6_body [] s
  | some i ↦ elim (drop (suc i) s) [ [] ↦ none | z ∷ zone ↦ v6_body (z ∷ zone) (take i s) ]
]

-- The first of `.`, `:` and `%` decides.
unfoldable pub parse_addr_at : Bytes → Bytes → Option Addr
unfolding parse_v4 parse_v6
parse_addr_at s [] = none
parse_addr_at s (c ∷ rest) =
    let later = parse_addr_at s rest in
    if c == b'.'
    then elim (parse_v4 s) [ none ↦ none | some n ↦ some (v4 n) ]
    else if c == b':'
    then parse_v6 s
    else if c == b'%'
    then none
    else later

unfoldable pub parse_addr : Bytes → Option Addr
unfolding parse_addr_at
parse_addr s = parse_addr_at s s

-- `net.SplitHostPort`; `none` is any of its errors. With a bracket in front, the `]` must stand
-- right before the last colon.
abbrev bracketed : Bytes → ℕ → Option (Bytes × Bytes)
bracketed s last = elim (index_byte b']' s) [
  | none ↦ none
  | some end ↦
      if end + 1 == last
      then if contains_byte b'[' (drop 1 s) || contains_byte b']' (drop (end + 1) s)
        then none
        else some (take (end - 1) (drop 1 s), drop (last + 1) s)
      else none
]

abbrev unbracketed : Bytes → ℕ → Option (Bytes × Bytes)
unbracketed s last =
    if contains_byte b':' (take last s) || contains_byte b'[' s || contains_byte b']' s
    then none
    else some (take last s, drop (last + 1) s)

unfoldable pub split_host_port : Bytes → Option (Bytes × Bytes)
unfolding index_byte last_index_byte contains_byte
split_host_port s = elim (last_index_byte b':' s) [
  | none ↦ none
  | some last ↦ if get_or s 0 0 == b'[' then bracketed s last else unbracketed s last
]

test_v4 : parse_addr (codes "192.168.0.1") ≡ some (v4 0xc0a80001)
unfolding parse_addr
test_v4 = refl

test_v4_zero : parse_addr (codes "192.168.00.1") ≡ none
unfolding parse_addr
test_v4_zero = refl

test_v6 : parse_addr (codes "2001:db8::1:2") ≡ some (v6 0x20010db8000000000000000000010002 [])
unfolding parse_addr
test_v6 = refl

test_mapped : parse_addr (codes "::ffff:10.0.0.1%eth0") ≡ some (v6 0xffff0a000001 (codes "eth0"))
unfolding parse_addr
test_mapped = refl

test_loopback : parse_addr (codes "::1") ≡ some (v6 1 [])
unfolding parse_addr
test_loopback = refl

test_split : split_host_port (codes "[::1]:25565") ≡ some (codes "::1", codes "25565")
unfolding split_host_port
test_split = refl

test_split_bare : split_host_port (codes "a.example:80") ≡ some (codes "a.example", codes "80")
unfolding split_host_port
test_split_bare = refl
