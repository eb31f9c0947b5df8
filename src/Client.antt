-- ===== src/Client.antt =====
-- client.go, java.go and bedrock.go: the route to a server and the probe that is prepared for it.
-- The resolver and the texts of addresses are parameters.
pub mod Guarded
pub mod Dialing
use minecraft_ping.Base.{
  ℕ, zero, suc, ◌≡◌, refl, Bool, true, false, not, ◌&&◌, ◌||◌, List, [], ◌∷◌, ◌++◌, Bytes, length,
  take, drop, get_or, ◌-◌, ◌==◌, if◌then◌else◌, Option, none, some, Result, ok, err, map_err, ◌>>=◌,
  bytes_eq,
}
use minecraft_ping.Base.Int.{ℤ, pos, ltb_ℤ}
use minecraft_ping.Text.{codes}
use minecraft_ping.Net.{Addr, invalid, is_valid, AddrPort}
use minecraft_ping.Address.Errors.{Error, lookup_failed, family_any}
use minecraft_ping.Address.Family.{resolver_network}
use minecraft_ping.Address.Endpoint.{PingOptions, Endpoint, EndpointRoute, literal_ip, uint16_port}
use minecraft_ping.Address.Edition.{
  Edition, java, bedrock, edition_name, TargetSpec, default_java_port, default_port,
  fallback_endpoint,
}
use minecraft_ping.Address.Candidates.{
  DialCandidate, dial_candidate_for_literal_ip, dial_candidates_for_resolved_ips,
}
use minecraft_ping.Bedrock.Probe.{LookupNetIp, resolve_bedrock_candidates}

unfoldable pub resolve_dial_candidates :
    LookupNetIp → Endpoint → PingOptions → Result Error (List DialCandidate)
resolve_dial_candidates lookup target options = elim (literal_ip target) [
  | some _ ↦ dial_candidate_for_literal_ip target options
  | none ↦ do
    port ← uint16_port target
    addrs ← map_err lookup_failed (lookup (resolver_network options.address_family) target.host)
    dial_candidates_for_resolved_ips target.host port addrs options
]

-- A record of `net.LookupSRV`; its port is a uint16.
pub record Srv : Type 0 where
  pub target : Bytes
  pub port : ℕ

-- `LookupSRV("minecraft", "tcp", host)`; its errors by a code.
abbrev pub LookupSrv : Type 0
LookupSrv = Bytes → Result ℕ (List Srv)

-- `strings.TrimSuffix(…, ".")`
abbrev dot_only : Bytes → Bool
dot_only s = bytes_eq s (codes ".")

unfoldable pub trim_dot : Bytes → Bytes
trim_dot [] = []
trim_dot (c ∷ s) = let rest = trim_dot s in if bytes_eq (c ∷ s) (codes ".") then [] else c ∷ rest

abbrev pub equal_ℤ : ℤ → ℕ → Bool
equal_ℤ z n = not (ltb_ℤ z (pos n)) && not (ltb_ℤ (pos n) z)

abbrev pub direct : Endpoint → EndpointRoute
direct e = record { dial = e; handshake = e }

abbrev pub without_records : Option ℕ → Endpoint → Result ℕ EndpointRoute
without_records (some e) target = err e
without_records none target = ok (direct target)

abbrev pub by_record : Endpoint → Srv → EndpointRoute
by_record target r =
    let srv_target = trim_dot r.target in
    if bytes_eq srv_target [] || r.port == 0 then direct target else record {
      dial = record { host = srv_target; port = pos r.port };
      handshake = record { host = target.host; port = pos r.port };
    }

abbrev pub by_answer : Option ℕ → Endpoint → Result ℕ (List Srv) → Result ℕ EndpointRoute
by_answer ctx_err target (err _) = without_records ctx_err target
by_answer ctx_err target (ok []) = without_records ctx_err target
by_answer ctx_err target (ok (r ∷ rs)) = ok (by_record target r)

-- `ctx_err` is that of the context behind the lookup.
unfoldable pub resolve_java_route_context :
    LookupSrv → Option ℕ → TargetSpec → Result ℕ EndpointRoute
resolve_java_route_context lookup_srv ctx_err target =
    let route_target = fallback_endpoint target family_any java in
    if target.port_explicit || not (equal_ℤ route_target.port default_java_port)
    then ok (direct route_target)
    else elim (literal_ip route_target) [
      | some _ ↦ ok (direct route_target)
      | none ↦ by_answer ctx_err route_target (lookup_srv route_target.host)
    ]

pub record JavaPreparedProbe : Type 0 where
  pub target : TargetSpec
  pub route : EndpointRoute
  pub candidates : List DialCandidate
  pub display_target : AddrPort

pub record BedrockPreparedProbe : Type 0 where
  pub target : TargetSpec
  pub candidates : List DialCandidate
  pub display_target : AddrPort

-- What is shown before the first sample: the only candidate, or the zero `AddrPort`.
abbrev pub zero_addr_port : AddrPort
zero_addr_port = record { addr = invalid; port = 0 }

abbrev pub only_address : List DialCandidate → AddrPort
only_address (c ∷ []) = c.address
only_address cs = zero_addr_port

pub data PrepareError : Type 0 where
  route_failed : Bytes → ℕ → PrepareError
  resolve_failed : Edition → Bytes → Error → PrepareError

unfoldable pub prepare_java_probe :
    LookupSrv
    → Option ℕ
    → LookupNetIp
    → TargetSpec
    → PingOptions
    → Result PrepareError JavaPreparedProbe
prepare_java_probe lookup_srv ctx_err lookup target options = do
  route ← map_err (route_failed target.host) (resolve_java_route_context lookup_srv ctx_err target)
  candidates ←
      map_err (resolve_failed java target.host) (resolve_dial_candidates lookup route.dial options)
  ok (record {
    target = target;
    route = route;
    candidates = candidates;
    display_target = only_address candidates;
  })

unfoldable pub prepare_bedrock_probe :
    LookupNetIp → TargetSpec → PingOptions → Result PrepareError BedrockPreparedProbe
prepare_bedrock_probe lookup target options = do
  candidates ←
      map_err (resolve_failed bedrock target.host)
        (resolve_bedrock_candidates lookup target options)
  ok (record { target = target; candidates = candidates; display_target = only_address candidates })

pub record ProbeSample : Type 0 where
  pub latency : ℕ
  pub remote : AddrPort

-- `AddrPort.IsValid`
abbrev pub has_addr : AddrPort → Bool
has_addr a = is_valid a.addr

unfoldable pub observe_java_sample : ProbeSample → JavaPreparedProbe → JavaPreparedProbe
observe_java_sample sample p =
    if has_addr sample.remote then record p { display_target = sample.remote } else p

unfoldable pub observe_bedrock_sample : ProbeSample → BedrockPreparedProbe → BedrockPreparedProbe
observe_bedrock_sample sample p =
    if has_addr sample.remote then record p { display_target = sample.remote } else p

-- `Addr.String` and the decimal form of an integer are parameters of the texts.
module _ (addr_text : Addr → Bytes) (decimal : ℤ → Bytes) where
  abbrev pub summary_label : Bytes → AddrPort → Bool → Bytes
  summary_label host shown numeric =
      if numeric && has_addr shown then addr_text shown.addr else host

  unfoldable pub java_summary_label : JavaPreparedProbe → Bool → Bytes
  java_summary_label p numeric = summary_label p.target.host p.display_target numeric

  unfoldable pub bedrock_summary_label : BedrockPreparedProbe → Bool → Bytes
  bedrock_summary_label p numeric = summary_label p.target.host p.display_target numeric

  abbrev named_line : Bytes → Bytes → ℤ → Edition → Bytes
  named_line name address port ed =
      codes "PING "
      ++ (name
          ++ (codes " ("
              ++ (address
                  ++ (codes ") port "
                      ++ (decimal port ++ (codes " [" ++ (edition_name ed ++ codes "]:")))))))

  abbrev plain_line : Bytes → ℤ → Edition → Bytes
  plain_line name port ed =
      codes "PING "
      ++ (name
          ++ (codes " port " ++ (decimal port ++ (codes " [" ++ (edition_name ed ++ codes "]:")))))

  abbrev shows_both : Bytes → AddrPort → Bool → Bool
  shows_both host shown numeric =
      has_addr shown && (not numeric && not (bytes_eq host (addr_text shown.addr)))

  unfoldable pub java_banner : JavaPreparedProbe → Bool → Bytes
  java_banner p numeric =
      let display_port = p.route.handshake.port in
      if shows_both p.target.host p.display_target numeric
      then named_line p.target.host (addr_text p.display_target.addr) display_port java
      else if has_addr p.display_target
      then plain_line (addr_text p.display_target.addr) display_port java
      else plain_line (summary_label p.target.host p.display_target numeric) display_port java

  unfoldable pub bedrock_banner : BedrockPreparedProbe → Bool → Bytes
  bedrock_banner p numeric =
      let display_port =
        if has_addr p.display_target
        then pos p.display_target.port
        else default_port p.target family_any bedrock in
      if shows_both p.target.host p.display_target numeric
      then named_line p.target.host (addr_text p.display_target.addr) display_port bedrock
      else plain_line (summary_label p.target.host p.display_target numeric) display_port bedrock
