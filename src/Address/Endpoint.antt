-- ===== src/Address/Endpoint.antt =====
-- endpoint.go: endpoints, hosts, ports, and the guard against addresses that are not public.
use minecraft_ping.Base.{
  ℕ, ◌+◌, ◌-◌, ◌*◌, ◌≡◌, refl, Bool, true, false, not, ◌||◌, List, [], ◌∷◌, Option, none, some,
  Bytes, length, take, drop, get_or, ltb, leb, ◌==◌, if◌then◌else◌, Result, ok, err,
}
use minecraft_ping.Base.Int.{ℤ, pos, negsuc}
use minecraft_ping.Text.{codes, trim_space, contains_byte}
use minecraft_ping.Net.{Addr, v4, is_valid, unmap, Prefix, prefix4, prefix6, contains}
use minecraft_ping.Net.Parse.{parse_addr}
use minecraft_ping.Address.Errors.{
  AddressFamily, Error, server_too_long, uses_brackets, control_characters, includes_port,
  out_of_uint16,
}

pub record PingOptions : Type 0 where
  pub address_family : AddressFamily
  pub allow_private_addresses : Bool

pub record Endpoint : Type 0 where
  pub host : Bytes
  pub port : ℤ

pub record EndpointRoute : Type 0 where
  pub dial : Endpoint
  pub handshake : Endpoint

abbrev pub max_server_address_length : ℕ
max_server_address_length = 253

abbrev pub quad : ℕ → ℕ → ℕ → ℕ → ℕ
quad a b c d = ((a * 256 + b) * 256 + c) * 256 + d

abbrev pub non_public_ip_prefixes : List Prefix
non_public_ip_prefixes =
    prefix4 (quad 0 0 0 0) 8
    ∷ prefix4 (quad 10 0 0 0) 8
    ∷ prefix4 (quad 100 64 0 0) 10
    ∷ prefix4 (quad 127 0 0 0) 8
    ∷ prefix4 (quad 169 254 0 0) 16
    ∷ prefix4 (quad 172 16 0 0) 12
    ∷ prefix4 (quad 192 0 0 0) 24
    ∷ prefix4 (quad 192 0 2 0) 24
    ∷ prefix4 (quad 192 168 0 0) 16
    ∷ prefix4 (quad 198 18 0 0) 15
    ∷ prefix4 (quad 198 51 100 0) 24
    ∷ prefix4 (quad 203 0 113 0) 24
    ∷ prefix4 (quad 224 0 0 0) 4
    ∷ prefix4 (quad 240 0 0 0) 4
    ∷ prefix6 0 128
    ∷ prefix6 1 128
    ∷ prefix6 0x0100_0000_0000_0000_0000_0000_0000_0000 64
    ∷ prefix6 0x2001_0db8_0000_0000_0000_0000_0000_0000 32
    ∷ prefix6 0xfc00_0000_0000_0000_0000_0000_0000_0000 7
    ∷ prefix6 0xfe80_0000_0000_0000_0000_0000_0000_0000 10
    ∷ prefix6 0xff00_0000_0000_0000_0000_0000_0000_0000 8
    ∷ []

unfoldable pub any_contains : List Prefix → Addr → Bool
unfolding contains
any_contains [] addr = false
any_contains (p ∷ ps) addr = contains p addr || any_contains ps addr

unfoldable pub is_non_public_addr : Addr → Bool
unfolding any_contains unmap
is_non_public_addr addr =
    let addr' = unmap addr in
    if not (is_valid addr') then true else any_contains non_public_ip_prefixes addr'

unfoldable pub to_uint16 : ℤ → Result Error ℕ
to_uint16 (negsuc n) = err (out_of_uint16 (negsuc n))
to_uint16 (pos n) = if ltb 65535 n then err (out_of_uint16 (pos n)) else ok n

unfoldable pub uint16_port : Endpoint → Result Error ℕ
unfolding to_uint16
uint16_port e = to_uint16 e.port

abbrev pub unmapped : Option Addr → Option Addr
unmapped none = none
unmapped (some addr) = some (unmap addr)

unfoldable pub literal_ip : Endpoint → Option Addr
literal_ip e = unmapped (parse_addr e.host)

-- `host[len(host)-1]` and `host[1 : len(host)-1]`
unfoldable pub unbracket_ipv6_literal : Bytes → Option Bytes
unbracket_ipv6_literal host =
    let literal = take (length host - 2) (drop 1 host) in
    if ltb (length host) 2
      || not (get_or host 0 0 == b'[')
      || not (get_or host (length host - 1) 0 == b']')
    then none
    else elim (parse_addr literal) [ none ↦ none | some _ ↦ some literal ]

unfoldable pub normalize_host : Bytes → Bytes
unfolding unbracket_ipv6_literal
normalize_host host =
    let trimmed = trim_space host in
    elim (unbracket_ipv6_literal trimmed) [ some literal ↦ literal | none ↦ trimmed ]

pub new_endpoint : Bytes → ℤ → Endpoint
new_endpoint host port = record { host = normalize_host host; port = port }

abbrev pub is_control : ℕ → Bool
is_control r = leb r 0x1f || r == 0x7f

unfoldable pub has_control : Bytes → Bool
has_control [] = false
has_control (r ∷ s) = is_control r || has_control s

unfoldable pub validate_server_address : Bytes → Result Error (Unit {0})
unfolding has_control contains_byte
validate_server_address server =
    if ltb max_server_address_length (length server)
    then err server_too_long
    else if contains_byte b'[' server || contains_byte b']' server
    then err uses_brackets
    else if has_control server
    then err control_characters
    else if contains_byte b':' server
    then elim (parse_addr server) [ none ↦ err includes_port | some _ ↦ ok tt ]
    else ok tt

test_private : is_non_public_addr (v4 (quad 172 31 255 255)) ≡ true
unfolding is_non_public_addr
test_private = refl

test_public : is_non_public_addr (v4 (quad 172 32 0 0)) ≡ false
unfolding is_non_public_addr
test_public = refl

test_unbracket : normalize_host (codes " [::1] ") ≡ codes "::1"
unfolding normalize_host trim_space parse_addr
test_unbracket = refl
