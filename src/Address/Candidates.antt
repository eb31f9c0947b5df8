-- ===== src/Address/Candidates.antt =====
-- address.go: the addresses that are dialled, filtered, without duplicates, in the order of dialling.
pub mod Interleave
pub mod Filter
pub mod Build
pub mod Distinct
pub mod Resolved
pub mod Outcome
pub mod Literal
use minecraft_ping.Base.{
  ℕ, zero, suc, ◌+◌, max, ◌≡◌, refl, Bool, true, false, not, ◌&&◌, ◌||◌, List, [], ◌∷◌, ◌++◌,
  Option, none, some, Bytes, length, get_elem?, ltb, ◌==◌, if◌then◌else◌, Result, ok, err, ◌>>=◌,
  ◌>>◌,
}
use minecraft_ping.Text.{codes}
use minecraft_ping.Net.{Addr, invalid, v4, v6, is_valid, is4, is6, unmap, addr_eq, AddrPort}
use minecraft_ping.Address.Errors.{
  AddressFamily, Error, not_a_literal, wrong_family, refused_non_public, none_resolved,
  only_non_public, none_dialable,
}
use minecraft_ping.Address.Family.{matches, family_for_addr, forced_flag}
use minecraft_ping.Address.Endpoint.{
  PingOptions, Endpoint, is_non_public_addr, literal_ip, uint16_port, quad,
}

pub record DialCandidate : Type 0 where
  pub address : AddrPort

pub network : DialCandidate → Bytes
network c = if is4 c.address.addr then codes "tcp4" else codes "tcp6"

pub udp_network : DialCandidate → Bytes
udp_network c = if is4 c.address.addr then codes "udp4" else codes "udp6"

abbrev pub candidate_of : Addr → ℕ → DialCandidate
candidate_of addr port = record { address = record { addr = addr; port = port } }

unfoldable pub dial_candidate_for_literal_ip :
    Endpoint → PingOptions → Result Error (List DialCandidate)
dial_candidate_for_literal_ip target options = elim (literal_ip target) [
  | none ↦ err (not_a_literal target.host)
  | some addr ↦
      if not (matches options.address_family addr)
      then err
          (wrong_family target.host (family_for_addr addr) (forced_flag options.address_family))
      else if not options.allow_private_addresses && is_non_public_addr addr
      then err (refused_non_public target.host)
      else do port ← uint16_port target; ok (candidate_of addr port ∷ [])
]

-- What the filtering loop has collected.
pub record Filtered : Type 0 where
  pub kept : List Addr
  pub matched_family : Bool
  pub filtered_non_public : Bool

abbrev pub filter_addr : AddressFamily → Bool → Addr → Filtered → Filtered
filter_addr family allow_private addr s =
    if not (is_valid addr)
    then s
    else if not (matches family addr)
    then s
    else if not allow_private && is_non_public_addr addr
    then record s { matched_family = true; filtered_non_public = true }
    else record s { kept = s.kept ++ (addr ∷ []); matched_family = true }

unfoldable pub filter_loop : AddressFamily → Bool → List Addr → Filtered → Filtered
filter_loop family allow_private [] s = s
filter_loop family allow_private (addr ∷ addrs) s =
    filter_loop family allow_private addrs (filter_addr family allow_private (unmap addr) s)

abbrev pub nothing_filtered : Filtered
nothing_filtered = record { kept = []; matched_family = false; filtered_non_public = false }

-- `seen[addr]`
unfoldable pub is_seen : List Addr → Addr → Bool
is_seen [] addr = false
is_seen (a ∷ seen) addr = addr_eq a addr || is_seen seen addr

-- The variables of the loop that builds the candidates.
pub record Building : Type 0 where
  pub seen : List Addr
  pub ipv4 : List DialCandidate
  pub ipv6 : List DialCandidate
  pub primary_family_is_v6 : Bool
  pub primary_family_set : Bool

abbrev pub add_candidate : (Addr → ℕ) → Addr → Building → Building
add_candidate port_for_addr addr s =
    let candidate = candidate_of addr (port_for_addr addr) in
    let primary = if s.primary_family_set then s.primary_family_is_v6 else is6 addr in
    if is6 addr
    then record s {
      seen = addr ∷ s.seen;
      ipv6 = s.ipv6 ++ (candidate ∷ []);
      primary_family_is_v6 = primary;
      primary_family_set = true;
    }
    else record s {
      seen = addr ∷ s.seen;
      ipv4 = s.ipv4 ++ (candidate ∷ []);
      primary_family_is_v6 = primary;
      primary_family_set = true;
    }

abbrev pub build_addr : (Addr → ℕ) → Addr → Building → Building
build_addr port_for_addr addr s =
    if not (is_valid addr)
    then s
    else if is_seen s.seen addr
    then s
    else add_candidate port_for_addr addr s

unfoldable pub build_loop : (Addr → ℕ) → List Addr → Building → Building
unfolding is_seen addr_eq
build_loop port_for_addr [] s = s
build_loop port_for_addr (addr ∷ addrs) s =
    build_loop port_for_addr addrs (build_addr port_for_addr (unmap addr) s)

abbrev pub nothing_built : Building
nothing_built = record {
  seen = [];
  ipv4 = [];
  ipv6 = [];
  primary_family_is_v6 = false;
  primary_family_set = false;
}

abbrev pub element {ℓ} : {A : Type ℓ} → List A → ℕ → List A
element xs i = elim (get_elem? xs i) [ none ↦ [] | some x ↦ x ∷ [] ]

-- `for i := range limit`, from `i` on with `rounds` rounds left.
unfoldable pub interleave_loop {ℓ} : {A : Type ℓ} → ℕ → ℕ → List A → List A → List A → List A
interleave_loop zero i primary secondary ordered = ordered
interleave_loop (suc rounds) i primary secondary ordered =
    interleave_loop rounds (suc i) primary secondary
      ((ordered ++ element primary i) ++ element secondary i)

unfoldable pub interleave_dial_candidates :
    List DialCandidate → List DialCandidate → List DialCandidate
unfolding interleave_loop
interleave_dial_candidates primary secondary =
    interleave_loop (max (length secondary) (length primary)) 0 primary secondary []

abbrev pub order_families : Bool → List DialCandidate → List DialCandidate → List DialCandidate
order_families v6_first ipv4 ipv6 =
    if length ipv4 == 0
    then ipv6
    else if length ipv6 == 0
    then ipv4
    else if v6_first
    then interleave_dial_candidates ipv6 ipv4
    else interleave_dial_candidates ipv4 ipv6

unfoldable pub build_dial_candidates_with_port_func : List Addr → (Addr → ℕ) → List DialCandidate
unfolding build_loop
build_dial_candidates_with_port_func addrs port_for_addr =
    let s = build_loop port_for_addr addrs nothing_built in
    order_families s.primary_family_is_v6 s.ipv4 s.ipv6

abbrev pub verdict : Bytes → Filtered → List DialCandidate → Result Error (List DialCandidate)
verdict host s candidates =
    if not (length candidates == 0)
    then ok candidates
    else if s.matched_family && s.filtered_non_public
    then err (only_non_public host)
    else err (none_dialable host)

unfoldable pub dial_candidates_for_resolved_ips_by_addr :
    Bytes → List Addr → AddressFamily → Bool → (Addr → ℕ) → Result Error (List DialCandidate)
unfolding filter_loop
dial_candidates_for_resolved_ips_by_addr host addrs family allow_private port_for_addr =
    if length addrs == 0
    then err (none_resolved host)
    else let s = filter_loop family allow_private addrs nothing_filtered in
      verdict host s (build_dial_candidates_with_port_func s.kept port_for_addr)

unfoldable pub dial_candidates_for_resolved_ips :
    Bytes → ℕ → List Addr → PingOptions → Result Error (List DialCandidate)
dial_candidates_for_resolved_ips host port addrs options =
    dial_candidates_for_resolved_ips_by_addr host addrs options.address_family
      options.allow_private_addresses (λ addr. port)
