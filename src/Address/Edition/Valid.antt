-- ===== src/Address/Edition/Valid.antt =====
-- What a target that passed `validate` (editions.go) guarantees to the code behind it.
use minecraft_ping.Base.{
  ℕ, ◌≤◌, ◌≡◌, ◌≢◌, refl, Bool, true, false, ◌&&◌, ◌||◌, [], Bytes, length, if◌then◌else◌, ok,
  arith, some, All, ◌∷◌, ◌⊎◌, inl, inr, bytes_eq_iff, Bool-cases,
}
use minecraft_ping.Base.Int.{ℤ, pos, negsuc, ltb_ℤ}
use minecraft_ping.Text.{trim_space, contains_byte}
use minecraft_ping.Net.{Addr, is6, unmap}
use minecraft_ping.Net.Parse.{parse_addr}
use minecraft_ping.Address.Endpoint.{has_control, validate_server_address, to_uint16}
use minecraft_ping.Address.Edition.{
  Edition, java, bedrock, is_bedrock, default_java_port, default_bedrock_port,
  default_bedrock_port_v6, TargetSpec, validate_target, port_for_addr,
}

-- A host that may go into a handshake: short, no brackets, no control characters, and a colon only
-- in an IP literal.
pub record IsServerAddress (server : Bytes) : Type 0 where
  pub short : length server ≤ 253
  pub no_open : contains_byte b'[' server ≡ false
  pub no_close : contains_byte b']' server ≡ false
  pub printable : All (λ c. (0x20 ≤ c) × (c ≢ 0x7f)) server
  pub colon_in_literal :
      (contains_byte b':' server ≡ false) ⊎ ((a : Addr) × (parse_addr server ≡ some a))

printable-All :
    (server : Bytes) → has_control server ≡ false → All (λ c. (0x20 ≤ c) × (c ≢ 0x7f)) server
unfolding has_control
printable-All [] h = tt
printable-All (c ∷ server) h =
    ((ground arith, λ e. ground arith), printable-All server (ground arith))

pub validate_server_address-IsServerAddress :
    (server : Bytes) → validate_server_address server ≡ ok tt → IsServerAddress server
unfolding validate_server_address
validate_server_address-IsServerAddress server h = record {
  short = ground arith;
  no_open = ground arith;
  no_close = ground arith;
  printable = printable-All server (ground arith);
  colon_in_literal = ground arith;
}

-- A target that `validate` accepts has such a host, and a port of 1 to 65535 if it names one.
pub record IsValidTarget (t : TargetSpec) : Type 0 where
  pub not_blank : trim_space t.host ≢ []
  pub server_address : IsServerAddress t.host
  pub port_in_range :
      (t.port_explicit ≡ false) ⊎ ((n : ℕ) × (t.port ≡ pos n) × (1 ≤ n) × (n ≤ 65535))

port_bounds :
    (port : ℤ)
    → (ltb_ℤ port (pos 1) || ltb_ℤ (pos 65535) port) ≡ false
    → (n : ℕ) × (port ≡ pos n) × (1 ≤ n) × (n ≤ 65535)
port_bounds (pos n) h = (n, refl, ground arith, ground arith)
port_bounds (negsuc n) h = ground arith

-- The host of an accepted target is not blank, has at most 253 bytes, no bracket, no control
-- character, and a colon only in a literal address; its port, if it names one, is from 1 to 65535.
pub validate_target-IsValidTarget : (t : TargetSpec) → validate_target t ≡ ok tt → IsValidTarget t
unfolding validate_target
validate_target-IsValidTarget t h = record {
  not_blank = λ e. ground (arith, bytes_eq_iff (trim_space t.host) []);
  server_address = validate_server_address-IsServerAddress t.host (ground arith);
  port_in_range = elim (Bool-cases t.port_explicit) [
    | inl named ↦ inr (port_bounds t.port (ground arith))
    | inr default ↦ inl default
  ];
}

default_port-in_range :
    (v6 : Bool) (ed : Edition)
    → (n : ℕ) × ((if is_bedrock ed && v6
          then pos default_bedrock_port_v6
          else if is_bedrock ed
          then pos default_bedrock_port
          else pos default_java_port)
        ≡ pos n)
      × (1 ≤ n)
      × (n ≤ 65535)
default_port-in_range v6 java = (25565, refl, omega arith, omega arith)
default_port-in_range true bedrock = (19133, refl, omega arith, omega arith)
default_port-in_range false bedrock = (19132, refl, omega arith, omega arith)

port_for_addr-in_range :
    (t : TargetSpec) (addr : Addr) (ed : Edition)
    → validate_target t ≡ ok tt
    → (n : ℕ) × (port_for_addr t addr ed ≡ pos n) × (1 ≤ n) × (n ≤ 65535)
unfolding port_for_addr
port_for_addr-in_range t addr ed h = elim (Bool-cases t.port_explicit) [
  | inl named ↦ elim (validate_target-IsValidTarget t h).port_in_range [
    | inl default ↦ absurd (cc)
    | inr range ↦ rw named range
  ]
  | inr default ↦ rw default (default_port-in_range (is6 (unmap addr)) ed)
]

to_uint16-fits : (z : ℤ) (n : ℕ) → z ≡ pos n → n ≤ 65535 → to_uint16 z ≡ ok n
unfolding to_uint16
to_uint16-fits z n e h = rw e (ground arith)

-- Every port that a target accepted by `validate` yields is a uint16 from 1 on, so the error that
-- `resolveBedrockCandidates` drops for resolved addresses never happens.
pub port_for_addr-fits :
    (t : TargetSpec) (addr : Addr) (ed : Edition)
    → validate_target t ≡ ok tt
    → (n : ℕ) × (to_uint16 (port_for_addr t addr ed) ≡ ok n) × (1 ≤ n) × (n ≤ 65535)
port_for_addr-fits t addr ed h =
    let (n, e, lo, hi) = port_for_addr-in_range t addr ed h in
    (n, to_uint16-fits (port_for_addr t addr ed) n e hi, lo, hi)
