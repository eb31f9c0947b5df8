-- ===== src/Bedrock/Resolve.antt =====
-- bedrock.go: what `resolveBedrockCandidates` lets through.
use minecraft_ping.Base.{
  ℕ, ◌≡◌, ◌≢◌, true, false, not, ◌&&◌, List, [], ◌∷◌, ok, Option-cases, inl, inr, >>=-eq-ok,
  map_err, ◌>>=◌, arith,
}
use minecraft_ping.Net.{Addr}
use minecraft_ping.Net.Parse.{parse_addr}
use minecraft_ping.Address.Errors.{derive_port, lookup_failed}
use minecraft_ping.Address.Family.{matches, resolver_network}
use minecraft_ping.Address.Endpoint.{PingOptions, is_non_public_addr, unmapped, to_uint16}
use minecraft_ping.Address.Edition.{TargetSpec, bedrock, target_literal_ip, port_for_addr}
use minecraft_ping.Address.Candidates.{
  DialCandidate, candidate_of, dial_candidates_for_resolved_ips_by_addr,
}
use minecraft_ping.Address.Candidates.Resolved.{IsDialable, dial_candidates-IsDialable}
use minecraft_ping.Address.Candidates.Literal.{single-IsDialable, unmapped-plain}
use minecraft_ping.Bedrock.Probe.{
  LookupNetIp, bedrock_port, port_or_zero, resolve_bedrock_candidates,
}

bedrock_port-is :
    (target : TargetSpec) (a : Addr) (port : ℕ)
    → map_err (derive_port target.host) (to_uint16 (port_for_addr target a bedrock)) ≡ ok port
    → port ≡ bedrock_port target a
unfolding bedrock_port port_or_zero
bedrock_port-is target a port h = ground arith

-- Whatever the resolver answers: if `resolveBedrockCandidates` succeeds, there is a candidate, and
-- every candidate is a valid address of the requested family, passes the guard unless private ones are
-- allowed, occurs once, and has the port that the target has for it.
pub resolve_bedrock_candidates-IsDialable :
    (lookup : LookupNetIp) (target : TargetSpec) (options : PingOptions) (cs : List DialCandidate)
    → resolve_bedrock_candidates lookup target options ≡ ok cs
    → IsDialable options.address_family options.allow_private_addresses (bedrock_port target) cs
      × (cs ≢ [])
unfolding resolve_bedrock_candidates target_literal_ip
resolve_bedrock_candidates-IsDialable lookup target options cs h =
    elim (Option-cases (unmapped (parse_addr target.host))) [
      | inl e ↦
          let h' = rw (e, resolve_bedrock_candidates) at h in
          let found : (map_err lookup_failed
                  (lookup (resolver_network options.address_family) target.host)
                >>= λ addrs.
                    dial_candidates_for_resolved_ips_by_addr target.host addrs
                      options.address_family options.allow_private_addresses (bedrock_port target))
              ≡ ok cs =
            ground arith in
          let (addrs, looked, built) =
            >>=-eq-ok
              (map_err lookup_failed (lookup (resolver_network options.address_family) target.host))
              _ found in
          dial_candidates-IsDialable target.host addrs options.address_family
            options.allow_private_addresses (bedrock_port target) cs built
      | inr (a, e) ↦
          let h' = rw (e, resolve_bedrock_candidates) at h in
          let family : matches options.address_family a ≡ true = ground arith in
          let guard : (not options.allow_private_addresses && is_non_public_addr a) ≡ false =
            ground arith in
          let rest : (map_err (derive_port target.host) (to_uint16 (port_for_addr target a bedrock))
                >>= λ port. ok (candidate_of a port ∷ []))
              ≡ ok cs =
            ground arith in
          let (port, fits, built) =
            >>=-eq-ok
              (map_err (derive_port target.host) (to_uint16 (port_for_addr target a bedrock))) _
              rest in
          let same : (candidate_of a port ∷ []) ≡ cs = ground arith in
          (
            rw same at (
                single-IsDialable options.address_family options.allow_private_addresses
                  (bedrock_port target) a port (unmapped-plain (parse_addr target.host) a e) family
                  guard (bedrock_port-is target a port fits)),
            λ empty. ground arith,
          )
    ]
