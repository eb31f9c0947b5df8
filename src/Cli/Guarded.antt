-- ===== src/Cli/Guarded.antt =====
-- cli.go: what a program may dial, from its arguments to the candidates.
use mathlib.Core.Path.{subst}
use minecraft_ping.Base.{
  ℕ, ◌≡◌, ◌≢◌, refl, ap, ◌∙◌, List, [], ◌∷◌, ok, map_err, ◌>>=◌, >>=-eq-ok, arith, All,
}
use minecraft_ping.Net.{Addr}
use minecraft_ping.Address.Endpoint.{PingOptions}
use minecraft_ping.Address.Edition.{TargetSpec, Edition, java, bedrock}
use minecraft_ping.Address.Candidates.{DialCandidate}
use minecraft_ping.Address.Candidates.Filter.{IsAllowed, IsOfFamily, IsLetThrough}
use minecraft_ping.Address.Candidates.Resolved.{IsDialable}
use minecraft_ping.Bedrock.Probe.{resolve_bedrock_candidates, bedrock_port, LookupNetIp}
use minecraft_ping.Bedrock.Resolve.{resolve_bedrock_candidates-IsDialable}
use minecraft_ping.Client.{
  BedrockPreparedProbe, resolve_failed, prepare_java_probe, prepare_bedrock_probe, only_address,
}
use minecraft_ping.Client.Guarded.{prepare_java_probe-IsGuarded}
use minecraft_ping.Cli.Config.{CliConfig}
use minecraft_ping.Cli.Run.{PreparedProbe, java_probe, bedrock_probe, Resolver, prepare_probe}

abbrev pub candidates_of : PreparedProbe → List DialCandidate
candidates_of (java_probe p) = p.candidates
candidates_of (bedrock_probe p) = p.candidates

-- A candidate that the options let through.
abbrev pub MayBeDialled : PingOptions → DialCandidate → Type 0
MayBeDialled options c =
    IsOfFamily options.address_family c.address.addr
    × IsLetThrough options.allow_private_addresses c.address.addr

let_through :
    (options : PingOptions) (port : Addr → ℕ) (cs : List DialCandidate)
    → IsDialable options.address_family options.allow_private_addresses port cs
    → All (MayBeDialled options) cs
let_through options port cs d = of_all cs d.allowed
  where
    of_all :
        (ds : List DialCandidate)
        → All
            (λ c.
              IsAllowed options.address_family options.allow_private_addresses c.address.addr
              × (c.address.port ≡ port c.address.addr))
            ds
        → All (MayBeDialled options) ds
    of_all [] h = tt
    of_all (c ∷ ds) h = ((h.0.0.of_family, h.0.0.let_through), of_all ds h.1)

java-MayBeDialled :
    (r : Resolver) (cfg : CliConfig) (p : PreparedProbe)
    → (prepare_java_probe r.lookup_srv r.ctx_err r.lookup_net_ip cfg.target cfg.options >>= λ q.
        ok (java_probe q))
      ≡ ok p
    → All (MayBeDialled cfg.options) (candidates_of p) × (candidates_of p ≢ [])
java-MayBeDialled r cfg p h =
    let (q, prepared, built) =
      >>=-eq-ok (prepare_java_probe r.lookup_srv r.ctx_err r.lookup_net_ip cfg.target cfg.options) _
        h in
    let same : java_probe q ≡ p = ground arith in
    let (port, fits, dialable, some_left) =
      prepare_java_probe-IsGuarded r.lookup_srv r.ctx_err r.lookup_net_ip cfg.target cfg.options q
        prepared in
    subst
      (λ (t : PreparedProbe).
        All (MayBeDialled cfg.options) (candidates_of t) × (candidates_of t ≢ []))
      same (let_through cfg.options (λ _. port) q.candidates dialable, some_left)

bedrock_candidates :
    (lookup : LookupNetIp) (target : TargetSpec) (options : PingOptions) (q : BedrockPreparedProbe)
    → prepare_bedrock_probe lookup target options ≡ ok q
    → resolve_bedrock_candidates lookup target options ≡ ok q.candidates
unfolding prepare_bedrock_probe
bedrock_candidates lookup target options q h =
    let (cs, resolved, built) =
      >>=-eq-ok
        (map_err (resolve_failed bedrock target.host)
          (resolve_bedrock_candidates lookup target options))
        _ h in
    let same : record { target = target; candidates = cs; display_target = only_address cs } ≡ q =
      ground arith in
    let plain : resolve_bedrock_candidates lookup target options ≡ ok cs = ground arith in
    plain ∙ ap (λ (t : BedrockPreparedProbe). ok t.candidates) same

bedrock-MayBeDialled :
    (r : Resolver) (cfg : CliConfig) (p : PreparedProbe)
    → (prepare_bedrock_probe r.lookup_net_ip cfg.target cfg.options >>= λ q. ok (bedrock_probe q))
      ≡ ok p
    → All (MayBeDialled cfg.options) (candidates_of p) × (candidates_of p ≢ [])
bedrock-MayBeDialled r cfg p h =
    let (q, prepared, built) =
      >>=-eq-ok (prepare_bedrock_probe r.lookup_net_ip cfg.target cfg.options) _ h in
    let same : bedrock_probe q ≡ p = ground arith in
    let (dialable, some_left) =
      resolve_bedrock_candidates-IsDialable r.lookup_net_ip cfg.target cfg.options q.candidates
        (bedrock_candidates r.lookup_net_ip cfg.target cfg.options q prepared) in
    subst
      (λ (t : PreparedProbe).
        All (MayBeDialled cfg.options) (candidates_of t) × (candidates_of t ≢ []))
      same (let_through cfg.options (bedrock_port cfg.target) q.candidates dialable, some_left)

-- For either edition and whatever the resolver answers, a probe that is prepared has a candidate,
-- and dials only addresses of the requested family that, unless the arguments allow private ones,
-- are outside the reserved ranges or are IPv6 addresses with a zone, which the guard lets through.
pub prepare_probe-MayBeDialled :
    (r : Resolver) (cfg : CliConfig) (p : PreparedProbe)
    → prepare_probe r cfg ≡ ok p
    → All (MayBeDialled cfg.options) (candidates_of p) × (candidates_of p ≢ [])
unfolding prepare_probe
prepare_probe-MayBeDialled r cfg p h = by_edition cfg.edition refl h
  where
    by_edition :
        (e : Edition)
        → cfg.edition ≡ e
        → prepare_probe r (record cfg { edition = e }) ≡ ok p
        → All (MayBeDialled cfg.options) (candidates_of p) × (candidates_of p ≢ [])
    by_edition java is k = java-MayBeDialled r cfg p k
    by_edition bedrock is k = bedrock-MayBeDialled r cfg p k
