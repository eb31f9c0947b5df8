-- ===== src/Bedrock/Probe.antt =====
-- bedrock.go: the candidates of a target, the exchange with one of them, and the search through
-- them. The resolver, the clock, the context and the network are parameters.
use minecraft_ping.Base.{
  ℕ, suc, ◌+◌, ◌-◌, not, ◌&&◌, List, [], ◌∷◌, ◌++◌, Bytes, length, take, ◌==◌, if◌then◌else◌,
  Option, none, some, Result, ok, err, map_err, ◌>>=◌, ◌>>◌,
}
use minecraft_ping.Io.{IoError, Conn, conn_write, conn_set_deadline}
use minecraft_ping.Net.{Addr}
use minecraft_ping.Address.Errors.{wrong_family, refused_non_public, derive_port, lookup_failed}
use minecraft_ping.Address.Errors.{Error as AddressError}
use minecraft_ping.Address.Family.{
  validate_family, resolver_network, matches, family_for_addr, forced_flag,
}
use minecraft_ping.Address.Endpoint.{PingOptions, is_non_public_addr, to_uint16}
use minecraft_ping.Address.Edition.{
  TargetSpec, bedrock, validate_target, target_literal_ip, port_for_addr,
}
use minecraft_ping.Address.Candidates.{
  DialCandidate, candidate_of, dial_candidates_for_resolved_ips_by_addr,
}
use minecraft_ping.Bedrock.{
  Error, io, build_bedrock_status_request_with, parse_bedrock_status_response,
}

-- `LookupNetIP` on a network and a host; its errors by a code.
abbrev pub LookupNetIp : Type 0
LookupNetIp = Bytes → Bytes → Result ℕ (List Addr)

-- `port, _ := toUint16(…)`: 0 where there is an error.
unfoldable pub port_or_zero : Result AddressError ℕ → ℕ
port_or_zero (ok port) = port
port_or_zero (err e) = 0

unfoldable pub bedrock_port : TargetSpec → Addr → ℕ
bedrock_port target addr = port_or_zero (to_uint16 (port_for_addr target addr bedrock))

unfoldable pub resolve_bedrock_candidates :
    LookupNetIp → TargetSpec → PingOptions → Result AddressError (List DialCandidate)
resolve_bedrock_candidates lookup target options =
    validate_target target
    >> (validate_family options.address_family >> (elim (target_literal_ip target) [
      | some parsed ↦
          if not (matches options.address_family parsed)
          then err (
              wrong_family target.host (family_for_addr parsed)
                (forced_flag options.address_family))
          else if not options.allow_private_addresses && is_non_public_addr parsed
          then err (refused_non_public target.host)
          else (map_err (derive_port target.host) (to_uint16 (port_for_addr target parsed bedrock))
              >>= λ port. ok (candidate_of parsed port ∷ []))
      | none ↦
          map_err lookup_failed (lookup (resolver_network options.address_family) target.host)
          >>= λ addrs.
              dial_candidates_for_resolved_ips_by_addr target.host addrs options.address_family
                options.allow_private_addresses (bedrock_port target)
    ]))

-- What one exchange meets: the deadline of the context, four readings of the clock, what the
-- random source gives, and what `Read` returns, the next datagram or an error.
pub record Meets : Type 0 where
  pub ctx_deadline : Option ℕ
  pub dialled : ℕ
  pub unix_millis : ℕ
  pub started : ℕ
  pub finished : ℕ
  pub random : Result ℕ Bytes
  pub reply : Result IoError Bytes

abbrev pub read_buffer : ℕ
read_buffer = 2048

abbrev pub exchange_deadline : Meets → ℕ → ℕ
exchange_deadline m timeout = elim m.ctx_deadline [ some at ↦ at | none ↦ m.dialled + timeout ]

-- `Read` into a buffer of 2048 bytes cuts a longer datagram off.
unfoldable pub read_reply : Meets → ℕ → Result Error ℕ
read_reply m ping_time = map_err io m.reply >>= λ datagram.
    parse_bedrock_status_response (take read_buffer datagram) ping_time >>= λ status.
    ok (m.finished - m.started)

abbrev pub after_write : Meets → ℕ → Result IoError (Unit {0}) × Conn → Result Error ℕ × Conn
after_write m ping_time (err e, c) = (err (io e), c)
after_write m ping_time (ok u, c) = (read_reply m ping_time, c)

abbrev pub send_request : Meets → Conn → Result Error (Bytes × ℕ) → Result Error ℕ × Conn
send_request m c (err e) = (err e, c)
send_request m c (ok (request, ping_time)) = after_write m ping_time (conn_write request c)

abbrev pub after_deadline : Meets → Result IoError (Unit {0}) × Conn → Result Error ℕ × Conn
after_deadline m (err e, c) = (err (io e), c)
after_deadline m (ok u, c) =
    send_request m c (build_bedrock_status_request_with m.unix_millis m.random)

-- `pingBedrockCandidate` behind the dialling; the result is the latency.
unfoldable pub ping_bedrock_candidate : Meets → ℕ → Conn → Result Error ℕ × Conn
ping_bedrock_candidate m timeout c =
    after_deadline m (conn_set_deadline (exchange_deadline m timeout) c)

-- The search through the candidates. What each attempt meets depends on its number: whether the
-- context has ended before it, and how the attempt ends.
pub data SearchError (E : Type 0) : Type 0 where
  no_candidates : SearchError E
  context_ended : E → SearchError E
  all_failed : List (DialCandidate × E) → SearchError E

module _ {E S : Type 0} (ctx_err : ℕ → Option E) (attempt : ℕ → DialCandidate → Result E S) where
  abbrev pub stopped : E → List (DialCandidate × E) → SearchError E
  stopped e [] = context_ended e
  stopped e (f ∷ fs) = all_failed (f ∷ fs)

  unfoldable pub search_loop :
      ℕ → List (DialCandidate × E) → List DialCandidate → Result (SearchError E) S
  search_loop i errs [] = err (all_failed errs)
  search_loop i errs (c ∷ cs) = elim (ctx_err i) [
    | some e ↦ err (stopped e errs)
    | none ↦ elim (attempt i c) [
      | ok sample ↦ ok sample
      | err e ↦ search_loop (suc i) (errs ++ ((c, e) ∷ [])) cs
    ]
  ]

  unfoldable pub ping_bedrock_candidates : List DialCandidate → Result (SearchError E) S
  unfolding search_loop
  ping_bedrock_candidates candidates =
      if length candidates == 0 then err no_candidates else search_loop 0 [] candidates
