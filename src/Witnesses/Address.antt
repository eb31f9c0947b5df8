-- ===== src/Witnesses/Address.antt =====
-- address.go, endpoint.go, editions.go and java.go at concrete inputs.
use minecraft_ping.Base.{
  List, ℕ, ◌≡◌, refl, [], ◌∷◌, ok, err, true, false, none, All, ◌^◌, bytes_eq, if◌then◌else◌,
  length, ◌==◌,
}
use minecraft_ping.Base.Int.{pos}
use minecraft_ping.Text.{codes, trim_space, contains_byte}
use minecraft_ping.Net.{Addr, v4, v6, unmap}
use minecraft_ping.Net.Parse.{parse_addr}
use minecraft_ping.Address.Errors.{family_any, family4, none_resolved}
use minecraft_ping.Address.Family.{matches}
use minecraft_ping.Address.Endpoint.{
  PingOptions, quad, is_non_public_addr, validate_server_address, has_control, literal_ip,
}
use minecraft_ping.Address.Edition.{TargetSpec, validate_target, fallback_endpoint}
use minecraft_ping.Address.Edition.Valid.{IsValidTarget, validate_target-IsValidTarget}
use minecraft_ping.Address.Guard.{is_reserved, is_non_public_addr-is_reserved, zone_passes_guard}
use minecraft_ping.Address.Candidates.{
  candidate_of, build_dial_candidates_with_port_func, dial_candidates_for_resolved_ips_by_addr,
  filter_loop,
}
use minecraft_ping.Address.Candidates.Build.{
  IsPlain, in_turn, first_is_v6, firsts, family_candidates, build-in_turn,
}
use minecraft_ping.Address.Candidates.Outcome.{
  verdict_on, any_wanted, dialable, dial_candidates-verdict_on,
}
use minecraft_ping.Client.{LookupSrv, JavaPreparedProbe, resolve_java_route_context, trim_dot}
use minecraft_ping.Client.Guarded.{KeepsHost, resolve_java_route-KeepsHost}
use minecraft_ping.Bedrock.Probe.{LookupNetIp}

abbrev eight : Addr
eight = v4 (quad 8 8 8 8)

abbrev nine : Addr
nine = v4 (quad 9 9 9 9)

abbrev six : Addr
six = v6 (2 ^ 125) []

is_non_public_addr-is_reserved_example :
    is_non_public_addr (v4 (quad 10 1 2 3)) ≡ is_reserved (v4 (quad 10 1 2 3))
is_non_public_addr-is_reserved_example = is_non_public_addr-is_reserved (v4 (quad 10 1 2 3))

zone_passes_guard_example :
    (is_non_public_addr (v6 1 []) ≡ true) × (is_non_public_addr (v6 1 (codes "1")) ≡ false)
zone_passes_guard_example = zone_passes_guard 1 b'1' [] refl refl

abbrev port : Addr → ℕ
port a = 25565

six-IsPlain : All IsPlain (eight ∷ six ∷ eight ∷ [])
unfolding unmap
six-IsPlain = ((refl, refl), ((refl, refl), ((refl, refl), tt)))

build-in_turn_example :
    build_dial_candidates_with_port_func (eight ∷ six ∷ eight ∷ []) port
    ≡ in_turn
        (first_is_v6 false (firsts [] (eight ∷ six ∷ eight ∷ [])))
        (family_candidates port false (firsts [] (eight ∷ six ∷ eight ∷ [])))
        (family_candidates port true (firsts [] (eight ∷ six ∷ eight ∷ [])))
build-in_turn_example = build-in_turn (eight ∷ six ∷ eight ∷ []) port six-IsPlain

resolves :
    dial_candidates_for_resolved_ips_by_addr
      (codes "h")
      (eight ∷ v4 (quad 10 0 0 1) ∷ [])
      family4
      false
      port
    ≡ ok (candidate_of eight 25565 ∷ [])
unfolding dial_candidates_for_resolved_ips_by_addr build_dial_candidates_with_port_func filter_loop
    is_non_public_addr matches
resolves = refl

-- A private address, which is left out, and a public one that is given twice.
abbrev answers : List Addr
answers = v4 (quad 10 0 0 1) ∷ eight ∷ eight ∷ []

dial_candidates-verdict_on_example :
    dial_candidates_for_resolved_ips_by_addr (codes "h") answers family4 false port ≡ (
      if length answers == 0
      then err (none_resolved (codes "h"))
      else verdict_on family4 false
          (codes "h")
          (any_wanted family4 false answers)
          port
          (dialable family4 false answers))
dial_candidates-verdict_on_example =
    dial_candidates-verdict_on family4 false (codes "h") answers port

abbrev target : TargetSpec
target = record { host = codes "mc.example"; port = pos 0; port_explicit = false }

abbrev named_target : TargetSpec
named_target = record { host = codes "mc.example"; port = pos 19000; port_explicit = true }

target-accepted : validate_target target ≡ ok tt
unfolding validate_target validate_server_address trim_space has_control contains_byte bytes_eq
target-accepted = refl

validate_target-IsValidTarget_example : IsValidTarget target
validate_target-IsValidTarget_example = validate_target-IsValidTarget target target-accepted

-- An SRV record that leads to another host, and a resolver with one address for it.
abbrev srv : LookupSrv
srv host = ok (record { target = codes "s.example."; port = 25577 } ∷ [])

abbrev lookup : LookupNetIp
lookup kind host = ok (eight ∷ [])

abbrev options : PingOptions
options = record { address_family = family_any; allow_private_addresses = false }

abbrev probe : JavaPreparedProbe
probe = record {
  target = target;
  route = record {
    dial = record { host = codes "s.example"; port = pos 25577 };
    handshake = record { host = codes "mc.example"; port = pos 25577 };
  };
  candidates = candidate_of eight 25577 ∷ [];
  display_target = record { addr = eight; port = 25577 };
}

routes : resolve_java_route_context srv none target ≡ ok probe.route
unfolding resolve_java_route_context fallback_endpoint literal_ip parse_addr trim_dot bytes_eq
routes = refl

resolve_java_route-KeepsHost_example : KeepsHost target probe.route
resolve_java_route-KeepsHost_example =
    resolve_java_route-KeepsHost srv none target probe.route routes
