-- ===== src/Client/Guarded.antt =====
-- java.go, client.go, bedrock.go: what a prepared probe may dial.
use minecraft_ping.Base.{
  ℕ, ◌≡◌, ◌≢◌, refl, true, not, ◌||◌, List, [], ◌∷◌, Option, none, some, ok, err, Result,
  Bool-cases, Option-cases, inl, inr, >>=-eq-ok, map_err, arith, bytes_eq, ◌==◌,
}
use mathlib.Core.Path.{subst}
use minecraft_ping.Address.Errors.{lookup_failed, family_any}
use minecraft_ping.Address.Family.{resolver_network}
use minecraft_ping.Address.Endpoint.{PingOptions, Endpoint, EndpointRoute, literal_ip, uint16_port}
use minecraft_ping.Address.Edition.{TargetSpec, java, default_java_port, fallback_endpoint}
use minecraft_ping.Address.Candidates.{DialCandidate, dial_candidates_for_resolved_ips}
use minecraft_ping.Address.Candidates.Resolved.{IsDialable, dial_candidates-IsDialable}
use minecraft_ping.Address.Candidates.Literal.{literal-IsDialable}
use minecraft_ping.Bedrock.Probe.{LookupNetIp}
use minecraft_ping.Client.{
  resolve_dial_candidates, LookupSrv, Srv, trim_dot, by_record, direct, without_records,
  resolve_java_route_context, route_failed, resolve_failed, JavaPreparedProbe, prepare_java_probe,
  only_address, equal_ℤ, by_answer,
}

abbrev pub IsGuarded : PingOptions → Endpoint → List DialCandidate → Type 0
IsGuarded options target cs =
    (port : ℕ) × (uint16_port target ≡ ok port)
    × IsDialable options.address_family options.allow_private_addresses (λ _. port) cs
    × (cs ≢ [])

-- The addresses behind an endpoint, spelled out or resolved.
pub resolve_dial_candidates-IsGuarded :
    (lookup : LookupNetIp) (target : Endpoint) (options : PingOptions) (cs : List DialCandidate)
    → resolve_dial_candidates lookup target options ≡ ok cs
    → IsGuarded options target cs
unfolding resolve_dial_candidates dial_candidates_for_resolved_ips
resolve_dial_candidates-IsGuarded lookup target options cs h =
    elim (Option-cases (literal_ip target)) [
      | inr (a, e) ↦ literal-IsDialable target options cs (rw (e, resolve_dial_candidates) at h)
      | inl e ↦
          let h' = rw (e, resolve_dial_candidates) at h in
          let (port, fits, h'') = >>=-eq-ok (uint16_port target) _ h' in
          let (addrs, looked, built) =
            >>=-eq-ok
              (map_err lookup_failed (lookup (resolver_network options.address_family) target.host))
              _ h'' in
          let (dialable, some_left) =
            dial_candidates-IsDialable target.host addrs options.address_family
              options.allow_private_addresses (λ _. port) cs built in
          (port, fits, dialable, some_left)
    ]

pub prepare_java_probe-IsGuarded :
    (lookup_srv : LookupSrv) (ctx_err : Option ℕ) (lookup : LookupNetIp) (target : TargetSpec)
    (options : PingOptions) (p : JavaPreparedProbe)
    → prepare_java_probe lookup_srv ctx_err lookup target options ≡ ok p
    → IsGuarded options p.route.dial p.candidates
unfolding prepare_java_probe
prepare_java_probe-IsGuarded lookup_srv ctx_err lookup target options p h =
    let (route, routed, h') =
      >>=-eq-ok
        (map_err (route_failed target.host) (resolve_java_route_context lookup_srv ctx_err target))
        _ h in
    let (cs, resolved, built) =
      >>=-eq-ok
        (map_err (resolve_failed java target.host)
          (resolve_dial_candidates lookup route.dial options))
        _ h' in
    let same : record {
      target = target;
      route = route;
      candidates = cs;
      display_target = only_address cs;
    }
        ≡ p =
      ground arith in
    subst (λ (q : JavaPreparedProbe). IsGuarded options q.route.dial q.candidates) same
      (resolve_dial_candidates-IsGuarded lookup route.dial options cs (ground arith))

-- The route of a target: both ends have the same port, and the host of the handshake is that of the
-- target.
abbrev pub KeepsHost : TargetSpec → EndpointRoute → Type 0
KeepsHost target route =
    (route.handshake.host ≡ target.host) × (route.handshake.port ≡ route.dial.port)

by_record-KeepsHost :
    (target : TargetSpec) (r : Srv)
    → KeepsHost target (by_record (fallback_endpoint target family_any java) r)
unfolding fallback_endpoint
by_record-KeepsHost target r = elim (Bool-cases (bytes_eq (trim_dot r.target) [] || r.port == 0)) [
  | inl e ↦ rw (e, by_record) (refl, refl)
  | inr e ↦ rw (e, by_record) (refl, refl)
]

without_records-KeepsHost :
    (ctx_err : Option ℕ) (target : TargetSpec) (route : EndpointRoute)
    → without_records ctx_err (fallback_endpoint target family_any java) ≡ ok route
    → KeepsHost target route
unfolding fallback_endpoint
without_records-KeepsHost (some e) target route h = cc
without_records-KeepsHost none target route h =
    let same : direct (fallback_endpoint target family_any java) ≡ route = ground arith in
    subst (KeepsHost target) same (refl, refl)

by_answer-KeepsHost :
    (ctx_err : Option ℕ) (target : TargetSpec) (answer : Result ℕ (List Srv))
    (route : EndpointRoute)
    → by_answer ctx_err (fallback_endpoint target family_any java) answer ≡ ok route
    → KeepsHost target route
by_answer-KeepsHost ctx_err target (err e) route h =
    without_records-KeepsHost ctx_err target route h
by_answer-KeepsHost ctx_err target (ok []) route h =
    without_records-KeepsHost ctx_err target route h
by_answer-KeepsHost ctx_err target (ok (r ∷ rs)) route h =
    let same : by_record (fallback_endpoint target family_any java) r ≡ route = ground arith in
    subst (KeepsHost target) same (by_record-KeepsHost target r)

-- However the SRV lookup ends: the handshake names the host of the target, and the port that is
-- dialled.
pub resolve_java_route-KeepsHost :
    (lookup_srv : LookupSrv) (ctx_err : Option ℕ) (target : TargetSpec) (route : EndpointRoute)
    → resolve_java_route_context lookup_srv ctx_err target ≡ ok route
    → KeepsHost target route
unfolding resolve_java_route_context fallback_endpoint
resolve_java_route-KeepsHost lookup_srv ctx_err target route h =
    let own = fallback_endpoint target family_any java in
    elim (Bool-cases (target.port_explicit || not (equal_ℤ own.port default_java_port))) [
      | inl e ↦
          let same : direct own ≡ route = ground arith in subst (KeepsHost target) same (refl, refl)
      | inr e ↦ elim (Option-cases (literal_ip own)) [
        | inr (a, e') ↦
            let same : direct own ≡ route = ground arith in
            subst (KeepsHost target) same (refl, refl)
        | inl e' ↦ by_answer-KeepsHost ctx_err target (lookup_srv own.host) route (ground arith)
      ]
    ]

-- A target with a port of its own is dialled itself: no SRV record is followed, whatever the lookup
-- would say.
pub named_port-direct :
    (lookup_srv : LookupSrv) (ctx_err : Option ℕ) (target : TargetSpec)
    → target.port_explicit ≡ true
    → resolve_java_route_context lookup_srv ctx_err target
      ≡ ok (direct (fallback_endpoint target family_any java))
unfolding resolve_java_route_context
named_port-direct lookup_srv ctx_err target named = ground arith
