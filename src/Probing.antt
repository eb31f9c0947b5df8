-- ===== src/Probing.antt =====
-- java.go, bedrock.go, internal/stagingserver: the probes from their dials on, with the connection
-- that they open. The dials, what `net.Addr.String` says of the peer, `netip.ParseAddrPort` and
-- `net.LookupPort` are parameters.
use minecraft_ping.Base.{
  ℕ, ◌+◌, false, ◌||◌, List, [], ◌∷◌, Bytes, take, if◌then◌else◌, Option, none, some, Result, ok,
  err, map_err,
}
use minecraft_ping.Base.Int.{ℤ, pos, pos_part, ltb_ℤ}
use minecraft_ping.Text.{decimal}
use minecraft_ping.Io.{IoError, Conn, conn_write, conn_set_deadline}
use minecraft_ping.Net.{Addr, invalid, unmap, AddrPort, join_host_port}
use minecraft_ping.Net.Parse.{parse_addr, split_host_port}
use minecraft_ping.Effects.{connection, Act, done, over}
use minecraft_ping.Address.Errors.{family_any}
use minecraft_ping.Address.Errors as AddressErrors
use minecraft_ping.Address.Endpoint.{EndpointRoute, to_uint16}
use minecraft_ping.Address.Candidates.{DialCandidate, udp_network}
use minecraft_ping.Java.Errors as JavaErrors
use minecraft_ping.Java.Messages.{Json}
use minecraft_ping.Java.Ping.{Moments, ping_exchange}
use minecraft_ping.Bedrock
use minecraft_ping.Bedrock.Probe.{LookupNetIp, Meets, ping_bedrock_candidate}
use minecraft_ping.Client.{ProbeSample, resolve_dial_candidates}
use minecraft_ping.Staging.Server.{probe_conn}
use minecraft_ping.Staging.Bedrock.{probe_request, parse_bedrock_pong}

pub data ProbeError (E : Type 0) : Type 0 where
  unresolved : AddressErrors.Error → ProbeError E
  dial_failed : E → ProbeError E
  invalid_port : ℤ → ProbeError E
  in_java : JavaErrors.Error → ProbeError E
  in_bedrock : Bedrock.Error → ProbeError E

abbrev pub no_addr_port : AddrPort
no_addr_port = record { addr = invalid; port = 0 }

-- What `remoteAddrPort` has from outside: the peer's text (`none` for a peer without an address),
-- and the two functions of Go's library.
pub record Peer : Type 0 where
  pub text : Option Bytes
  pub parse_addr_port : Bytes → Option AddrPort
  pub lookup_port : Bytes → Option ℤ

module _ (p : Peer) where
  abbrev pub with_port16 : Addr → Result AddressErrors.Error ℕ → AddrPort
  with_port16 ip (err e) = no_addr_port
  with_port16 ip (ok port) = record { addr = unmap ip; port = port }

  abbrev pub with_port : Addr → Option ℤ → AddrPort
  with_port ip none = no_addr_port
  with_port ip (some port) = with_port16 ip (to_uint16 port)

  abbrev pub with_ip : Option Addr → Bytes → AddrPort
  with_ip none port_text = no_addr_port
  with_ip (some ip) port_text = with_port ip (p.lookup_port port_text)

  abbrev pub by_parts : Option (Bytes × Bytes) → AddrPort
  by_parts none = no_addr_port
  by_parts (some (host, port_text)) = with_ip (parse_addr host) port_text

  abbrev pub by_text : Bytes → Option AddrPort → AddrPort
  by_text text (some addr_port) = addr_port
  by_text text none = by_parts (split_host_port text)

  abbrev pub by_peer : Option Bytes → AddrPort
  by_peer none = no_addr_port
  by_peer (some text) = by_text text (p.parse_addr_port text)

  unfoldable pub remote_addr_port : AddrPort
  unfolding parse_addr split_host_port to_uint16
  remote_addr_port = by_peer p.text

-- What the client that pings has: its resolver, its dialler, its token source, and the rest of
-- `pingJavaPreparedContext`'s surroundings. `dial` is what `dialCandidates` returns; the connections
-- that its goroutines open besides are those of Client.Dialing, and not in the log here.
pub record JavaSurroundings (E : Type 0) : Type 0 where
  pub lookup : LookupNetIp
  pub dial : List DialCandidate → Result E Conn
  pub unmarshal : Bytes → Option Json
  pub moments : Moments
  pub token_source : Result JavaErrors.Error ℕ
  pub peer : Peer

module _ {E : Type 0} where
  -- Without prepared candidates, the route is resolved again, with the options that allow no
  -- private address.
  unfoldable pub candidates_to_dial :
      JavaSurroundings E
      → EndpointRoute
      → List DialCandidate
      → Result (ProbeError E) (List DialCandidate)
  candidates_to_dial s route [] = map_err unresolved (
      resolve_dial_candidates s.lookup route.dial
        (record { address_family = family_any; allow_private_addresses = false }))
  candidates_to_dial s route (c ∷ cs) = ok (c ∷ cs)

  abbrev pub java_dialled :
      JavaSurroundings E → Result (ProbeError E) (List DialCandidate) → Result (ProbeError E) Conn
  java_dialled s (err e) = err e
  java_dialled s (ok cs) = map_err dial_failed (s.dial cs)

  abbrev pub java_sample :
      JavaSurroundings E → Result (ProbeError E) ℕ → Result (ProbeError E) ProbeSample
  java_sample s (err e) = err e
  java_sample s (ok latency) = ok (record { latency = latency; remote = remote_addr_port s.peer })

  abbrev pub java_over :
      JavaSurroundings E → EndpointRoute → ℕ → Conn → Act (ProbeError E) ProbeSample
  java_over s route timeout c = done (
      java_sample s (
        map_err in_java
          (ping_exchange s.unmarshal s.moments timeout s.token_source route.handshake c).0))

  unfoldable pub ping_java_prepared_context :
      JavaSurroundings E → EndpointRoute → List DialCandidate → ℕ → Act (ProbeError E) ProbeSample
  unfolding candidates_to_dial ping_exchange
  ping_java_prepared_context s route candidates timeout =
      over connection (java_dialled s (candidates_to_dial s route candidates))
        (java_over s route timeout)

  abbrev pub bedrock_sample : Peer → Result (ProbeError E) ℕ → Result (ProbeError E) ProbeSample
  bedrock_sample peer (err e) = err e
  bedrock_sample peer (ok latency) =
      ok (record { latency = latency; remote = remote_addr_port peer })

  -- `pingBedrockCandidate`, with its dial over a network.
  unfoldable pub ping_dialled_candidate :
      (Bytes → DialCandidate → Result E Conn)
      → Meets
      → Peer
      → DialCandidate
      → ℕ
      → Act (ProbeError E) ProbeSample
  unfolding ping_bedrock_candidate
  ping_dialled_candidate dial m peer candidate timeout =
      over connection (map_err dial_failed (dial (udp_network candidate) candidate)) (λ c.
        done (bedrock_sample peer (map_err in_bedrock (ping_bedrock_candidate m timeout c).0)))

  -- A port, then the dial of a host at it over a network.
  abbrev pub checked_dial :
      (Bytes → Bytes → Result E Conn) → Bytes → Bytes → ℤ → Result (ProbeError E) Conn
  checked_dial dial network host port =
      if ltb_ℤ port (pos 0) || ltb_ℤ (pos 65535) port
      then err (invalid_port port)
      else map_err dial_failed (dial network (join_host_port host (decimal port)))

  -- `Probe` of the staging server.
  unfoldable pub probe :
      (Bytes → Bytes → Result E Conn) → ℕ → Bytes → Bytes → ℤ → ℕ → Act (ProbeError E) (Unit {0})
  unfolding probe_conn join_host_port
  probe dial now network host port timeout =
      over connection (checked_dial dial network host port)
        (λ c. done (map_err in_java (probe_conn now host (pos_part port) timeout c).0))

  abbrev pub bedrock_reply : ℕ → Result IoError Bytes → Result (ProbeError E) (Unit {0})
  bedrock_reply ping_time (err e) = err (in_bedrock (Bedrock.io e))
  bedrock_reply ping_time (ok datagram) =
      map_err in_bedrock (parse_bedrock_pong (take 2048 datagram) ping_time)

  abbrev pub bedrock_written :
      ℕ → Result IoError Bytes → Result IoError (Unit {0}) × Conn → Result (ProbeError E) (Unit {0})
  bedrock_written ping_time reply (err e, c) = err (in_bedrock (Bedrock.io e))
  bedrock_written ping_time reply (ok u, c) = bedrock_reply ping_time reply

  abbrev pub bedrock_limited :
      ℕ → Result IoError Bytes → Result IoError (Unit {0}) × Conn → Result (ProbeError E) (Unit {0})
  bedrock_limited ping_time reply (err e, c) = err (in_bedrock (Bedrock.io e))
  bedrock_limited ping_time reply (ok u, c) =
      bedrock_written ping_time reply (conn_write (probe_request ping_time) c)

  -- `ProbeBedrock`; `ping_time` is the time in milliseconds, and `reply` what is read.
  unfoldable pub probe_bedrock :
      (Bytes → Bytes → Result E Conn)
      → ℕ
      → ℕ
      → Result IoError Bytes
      → Bytes
      → Bytes
      → ℤ
      → ℕ
      → Act (ProbeError E) (Unit {0})
  unfolding conn_set_deadline conn_write probe_request parse_bedrock_pong join_host_port
  probe_bedrock dial now ping_time reply network host port timeout =
      over connection (checked_dial dial network host port)
        (λ c. done (bedrock_limited ping_time reply (conn_set_deadline (now + timeout) c)))
