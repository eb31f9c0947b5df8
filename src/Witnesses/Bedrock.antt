-- ===== src/Witnesses/Bedrock.antt =====
-- bedrock.go of the client and of the staging server at concrete inputs.
use minecraft_ping.Base.{
  take, ℕ, zero, suc, ◌≡◌, refl, List, [], ◌∷◌, ◌++◌, Bytes, ok, err, false, Option, none, some,
  Result, arith, bytes_eq,
}
use minecraft_ping.Base.Words.{put_uint64, be_bytes, be_value}
use minecraft_ping.Base.Int.{pos}
use minecraft_ping.Text.{codes, has_prefix, split, atoi, trim_space}
use minecraft_ping.Text.Utf8.{utf8_valid}
use minecraft_ping.Net.{v4}
use minecraft_ping.Net.Parse.{parse_addr}
use minecraft_ping.Address.Errors.{family_any}
use minecraft_ping.Address.Family.{validate_family, matches}
use minecraft_ping.Address.Endpoint.{
  PingOptions, quad, is_non_public_addr, to_uint16, validate_server_address,
}
use minecraft_ping.Address.Edition.{TargetSpec, validate_target, target_literal_ip, port_for_addr}
use minecraft_ping.Address.Candidates.{DialCandidate, candidate_of}
use minecraft_ping.Release.Relay.{Upstream, serve_datagrams}
use minecraft_ping.Release.Relay.Serving.{served_by, relayed_ping-completes}
use minecraft_ping.Effects.Balanced.{still_open}
use minecraft_ping.Bedrock.{
  Error, magic_mismatch, BedrockStatus, magic, build_bedrock_status_request_with,
  parse_bedrock_status_text, parse_bedrock_status_response,
}
use minecraft_ping.Bedrock.Probed.{probe_request-answered}
use minecraft_ping.Bedrock.RoundTrip.{bedrock_exchange-completes}
use minecraft_ping.Bedrock.Agreement.{IsPong, parse_bedrock_status_response-IsPong}
use minecraft_ping.Bedrock.Probe.{
  LookupNetIp, resolve_bedrock_candidates, bedrock_port, ping_bedrock_candidates,
}
use minecraft_ping.Bedrock.Search.{Tried, Ending, ping_bedrock_candidates-ends}
use minecraft_ping.Staging.Bedrock.{
  validate_bedrock_status, build_bedrock_status_response, probe_request, parse_bedrock_pong,
}

abbrev text : Bytes
text = codes "MCPE;a;9;1.0;2;10"

abbrev guid : Bytes
guid = 0 ∷ 0 ∷ 0 ∷ 0 ∷ 0 ∷ 0 ∷ 0 ∷ 5 ∷ []

abbrev request : Bytes
request = (1 ∷ []) ++ (put_uint64 77 ++ (magic ++ guid))

builds : build_bedrock_status_request_with 77 (ok guid) ≡ ok (request, 77)
unfolding build_bedrock_status_request_with be_value be_bytes
builds = refl

text-valid : validate_bedrock_status text ≡ ok tt
unfolding validate_bedrock_status utf8_valid has_prefix bytes_eq
text-valid = refl

bedrock_exchange-completes_example :
    (pong : Bytes) × (build_bedrock_status_response (take 2048 request) text ≡ ok pong)
    × (parse_bedrock_status_response (take 2048 pong) 77 ≡ parse_bedrock_status_text text)
bedrock_exchange-completes_example =
    bedrock_exchange-completes 77 guid text request 77 builds text-valid (omega arith)

-- A datagram whose upstream cannot be dialled comes before the ping, and one that is no ping behind
-- it.
abbrev cut_off : Upstream Error
cut_off = record {
  dial = err magic_mismatch;
  set_deadline = ok tt;
  write = ok tt;
  answer = λ payload. ok payload;
  write_back = ok tt;
}

abbrev earlier : List (Bytes × ℕ × Upstream Error)
earlier = (1 ∷ [], 5, cut_off) ∷ []

abbrev later : List (Bytes × ℕ × Upstream Error)
later = (2 ∷ [], 7, served_by text) ∷ []

abbrev datagrams : List (Bytes × ℕ × Upstream Error)
datagrams = earlier ++ ((request, 6, served_by text) ∷ later)

relayed_ping-completes_example :
    (pong : Bytes) × ((serve_datagrams datagrams).sent
      ≡ (serve_datagrams earlier).sent ++ ((6, pong) ∷ (serve_datagrams later).sent))
    × (parse_bedrock_status_response pong 77 ≡ parse_bedrock_status_text text)
    × (still_open [] (serve_datagrams datagrams).events ≡ some [])
relayed_ping-completes_example =
    relayed_ping-completes 77 guid text request 77 6 earlier later builds text-valid (omega arith)

abbrev status : BedrockStatus
status = record {
  brand = codes "MCPE";
  motd = codes "a";
  protocol = pos 9;
  version = codes "1.0";
  players_online = pos 2;
  players_max = pos 10;
  server_id = [];
  map_name = [];
  game_mode = [];
}

abbrev pong : Bytes
pong =
    0x1c
    ∷ 0
    ∷ 0
    ∷ 0
    ∷ 0
    ∷ 0
    ∷ 0
    ∷ 0
    ∷ 77
    ∷ 0
    ∷ 0
    ∷ 0
    ∷ 0
    ∷ 0
    ∷ 0
    ∷ 0
    ∷ 1
    ∷ (magic ++ (0 ∷ 17 ∷ text))

accepts : parse_bedrock_status_response pong 77 ≡ ok status
unfolding parse_bedrock_status_response be_value bytes_eq utf8_valid parse_bedrock_status_text split
    atoi
accepts = refl

parse_bedrock_status_response-IsPong_example :
    IsPong pong 77 × (parse_bedrock_status_text text ≡ ok status)
parse_bedrock_status_response-IsPong_example =
    parse_bedrock_status_response-IsPong pong 77 status accepts

abbrev target : TargetSpec
target = record { host = codes "mc.example"; port = pos 0; port_explicit = false }

abbrev options : PingOptions
options = record { address_family = family_any; allow_private_addresses = false }

abbrev lookup : LookupNetIp
lookup kind host = ok (v4 (quad 8 8 8 8) ∷ v4 (quad 127 0 0 1) ∷ [])

abbrev candidate : DialCandidate
candidate = candidate_of (v4 (quad 8 8 8 8)) 19132

resolves : resolve_bedrock_candidates lookup target options ≡ ok (candidate ∷ [])
unfolding resolve_bedrock_candidates validate_target bytes_eq trim_space validate_server_address
    validate_family target_literal_ip parse_addr
    minecraft_ping.Address.Candidates.dial_candidates_for_resolved_ips_by_addr
    minecraft_ping.Address.Candidates.build_dial_candidates_with_port_func minecraft_ping.Net.unmap
    matches is_non_public_addr bedrock_port minecraft_ping.Bedrock.Probe.port_or_zero to_uint16
    port_for_addr
resolves = refl

-- The first attempt fails with the error 3, the second gives the sample 42.
abbrev ctx_err : ℕ → Option ℕ
ctx_err i = none

abbrev attempt : ℕ → DialCandidate → Result ℕ ℕ
attempt zero c = err 3
attempt (suc i) c = ok 42

ping_bedrock_candidates-ends_example :
    (j : ℕ) × (ds : List DialCandidate) × (fs : List (DialCandidate × ℕ)) × Tried ctx_err attempt 0
      (candidate ∷ candidate ∷ [])
      j
      ds
      fs
    × Ending ctx_err attempt fs j ds
        (ping_bedrock_candidates ctx_err attempt (candidate ∷ candidate ∷ []))
ping_bedrock_candidates-ends_example =
    ping_bedrock_candidates-ends ctx_err attempt candidate (candidate ∷ [])

probe_request-answered_example :
    (answer : Bytes) × (build_bedrock_status_response (take 2048 (probe_request 77)) text
      ≡ ok answer)
    × (parse_bedrock_pong (take 2048 answer) 77 ≡ ok tt)
probe_request-answered_example =
    probe_request-answered 77 text (omega arith) text-valid (omega arith)
