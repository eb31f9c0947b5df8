-- ===== src/Address/Edition.antt =====
-- editions.go: editions, target specifications, and the parsing of a destination.
pub mod Valid
use minecraft_ping.Base.{
  ℕ, ◌<◌, ◌≡◌, refl, Bool, true, false, not, ◌&&◌, ◌||◌, List, [], ◌∷◌, ◌++◌, Option, none, some,
  Bytes, bytes_eq, ltb, ◌==◌, if◌then◌else◌, Result, ok, err, ◌>>=◌, ◌>>◌,
}
use minecraft_ping.Base.Int.{ℤ, pos, ltb_ℤ}
use minecraft_ping.Text.{codes, trim_space, to_lower, has_prefix, count_byte, atoi}
use minecraft_ping.Net.{Addr, is6, unmap}
use minecraft_ping.Net.Parse.{parse_addr, split_host_port}
use minecraft_ping.Address.Errors.{
  AddressFamily, family_any, family4, family6, unnamed, Error, missing_destination, invalid_port,
  invalid_port_text, invalid_destination, unsupported_edition,
}
use minecraft_ping.Address.Endpoint.{
  Endpoint, unmapped, unbracket_ipv6_literal, normalize_host, validate_server_address,
}

pub data Edition : Type 0 where
  java bedrock : Edition

pub edition_name : Edition → Bytes
edition_name bedrock = codes "bedrock"
edition_name java = codes "java"

unfoldable pub parse_edition : Bytes → Result Error Edition
unfolding bytes_eq
parse_edition raw =
    let word = to_lower (trim_space raw) in
    if bytes_eq word [] || bytes_eq word (codes "java")
    then ok java
    else if bytes_eq word (codes "bedrock")
    then ok bedrock
    else err (unsupported_edition raw)

pub record TargetSpec : Type 0 where
  pub host : Bytes
  pub port : ℤ
  pub port_explicit : Bool

unfoldable pub new_target_spec : Bytes → ℤ → Bool → TargetSpec
new_target_spec host port explicit = record {
  host = normalize_host host;
  port = port;
  port_explicit = explicit;
}

unfoldable pub validate_target : TargetSpec → Result Error (Unit {0})
validate_target t =
    if bytes_eq (trim_space t.host) []
    then err missing_destination
    else validate_server_address t.host
      >> (if t.port_explicit && (ltb_ℤ t.port (pos 1) || ltb_ℤ (pos 65535) t.port)
          then err (invalid_port t.port)
          else ok tt)

unfoldable pub target_literal_ip : TargetSpec → Option Addr
target_literal_ip t = unmapped (parse_addr t.host)

abbrev pub default_java_port : ℕ
default_java_port = 25565

abbrev pub default_bedrock_port : ℕ
default_bedrock_port = 19132

abbrev pub default_bedrock_port_v6 : ℕ
default_bedrock_port_v6 = 19133

abbrev pub is_bedrock : Edition → Bool
is_bedrock bedrock = true
is_bedrock java = false

abbrev pub is_family6 : AddressFamily → Bool
is_family6 family6 = true
is_family6 f = false

unfoldable pub default_port : TargetSpec → AddressFamily → Edition → ℤ
default_port t family ed =
    if t.port_explicit
    then t.port
    else if is_bedrock ed && is_family6 family
    then pos default_bedrock_port_v6
    else if is_bedrock ed
    then pos default_bedrock_port
    else pos default_java_port

unfoldable pub port_for_addr : TargetSpec → Addr → Edition → ℤ
port_for_addr t addr ed =
    if t.port_explicit
    then t.port
    else if is_bedrock ed && is6 (unmap addr)
    then pos default_bedrock_port_v6
    else if is_bedrock ed
    then pos default_bedrock_port
    else pos default_java_port

unfoldable pub fallback_endpoint : TargetSpec → AddressFamily → Edition → Endpoint
unfolding default_port
fallback_endpoint t family ed = record { host = t.host; port = default_port t family ed }

-- The end of `parseDestination`, where no port was split off.
abbrev without_port : Bytes → Result Error TargetSpec
without_port raw =
    if ltb 1 (count_byte b':' raw)
    then err (invalid_destination raw)
    else ok (new_target_spec raw (pos 0) false)

abbrev with_port : Bytes → Bytes → Result Error TargetSpec
with_port host port_text = elim (atoi port_text) [
  | none ↦ err (invalid_port_text port_text)
  | some port ↦ ok (new_target_spec host port true)
]

abbrev host_port : Bytes → Result Error TargetSpec
host_port raw =
    let looks_like_host_port = has_prefix raw (codes "[") || count_byte b':' raw == 1 in
    if looks_like_host_port
    then elim (split_host_port raw) [
      | none ↦ without_port raw
      | some (host, port_text) ↦ with_port host port_text
    ]
    else without_port raw

unfoldable pub parse_destination : Bytes → Result Error TargetSpec
unfolding bytes_eq has_prefix count_byte
parse_destination untrimmed =
    let raw = trim_space untrimmed in
    if bytes_eq raw [] then err missing_destination else elim (unbracket_ipv6_literal raw) [
      | some literal ↦ ok (new_target_spec literal (pos 0) false)
      | none ↦ elim (parse_addr raw) [
        | some _ ↦ ok (new_target_spec raw (pos 0) false)
        | none ↦ host_port raw
      ]
    ]

test_destination :
    parse_destination (codes " [::1]:19133 ")
    ≡ ok (record { host = codes "::1"; port = pos 19133; port_explicit = true })
unfolding parse_destination trim_space unbracket_ipv6_literal parse_addr split_host_port atoi
    new_target_spec normalize_host
test_destination = refl

-- The letters of `BEDROCK` with a Kelvin sign for the K.
test_edition : parse_edition (codes "BEDROC" ++ (0xe2 ∷ 0x84 ∷ 0xaa ∷ [])) ≡ ok bedrock
unfolding parse_edition to_lower trim_space
test_edition = refl
