-- ===== src/Staging/Serve.antt =====
-- internal/stagingserver/server.go, bedrock.go: `Serve`, from its configuration to its exit, and the
-- loops of its listeners. Sockets, the JSON validity and how the service ends are parameters.
pub mod Closed
pub mod Status
pub mod Loops
use minecraft_ping.Base.{
  ℕ, ◌+◌, ◌*◌, ◌≡◌, refl, Bool, true, false, not, ◌&&◌, ◌||◌, List, [], ◌∷◌, ◌++◌, Bytes, length,
  take, get_or, ltb, ◌==◌, if◌then◌else◌, Option, none, some, Result, ok, err, bytes_eq,
}
use minecraft_ping.Base.Int.{ℤ, pos, leb_ℤ}
use minecraft_ping.Text.{codes, decimal}
use minecraft_ping.Bedrock.{Error}
use minecraft_ping.Staging.Codec.{max_status_json_length}
use minecraft_ping.Staging.Bedrock.{validate_bedrock_status, build_bedrock_status_response}
use minecraft_ping.Effects.{
  Resource, listener4, listener6, packet_listener4, packet_listener6, Event, opened, served, Act,
  done, ◌>>=◌, ◌>>◌, logged, registering, closing_all,
}

pub record ServerConfig : Type 0 where
  pub listen_ipv4 : Bytes
  pub listen_ipv6 : Bytes
  pub bedrock_listen_ipv4 : Bytes
  pub bedrock_listen_ipv6 : Bytes
  pub status_json : Bytes
  pub bedrock_status : Bytes
  pub connection_deadline : ℤ

pub data ServeError (E : Type 0) : Type 0 where
  status_json_too_long : ℕ → ServeError E
  status_json_invalid no_listen_address : ServeError E
  listen_failed : Bytes → E → ServeError E
  bedrock_status_refused : Error → ServeError E
  serving_failed : E → ServeError E

-- `LocalAddr`: the address of a UDP socket is an IP as bytes with a port.
pub data LocalAddr : Type 0 where
  no_udp_addr : LocalAddr
  udp_addr : Bytes → ℤ → LocalAddr

pub record ServeWorld (E : Type 0) : Type 0 where
  pub json_valid : Bytes → Bool
  pub listen : Resource → Bytes → Result E (Unit {0})
  pub local_addr : Resource → LocalAddr
  pub serving_end : Result E (Unit {0})
  pub closed_by_context : List Resource

unfoldable pub default_status_json : Bytes
default_status_json =
    codes
      "{\"version\":{\"name\":\"staging\",\"protocol\":109},\"players\":{\"max\":0,\"online\":0,\"sample\":[]},\"description\":{\"text\":\"minecraft-ping staging\"}}"

abbrev pub default_connection_deadline : ℕ
default_connection_deadline = 10 * 1_000_000_000

unfoldable pub with_defaults : ServerConfig → ServerConfig
unfolding default_status_json
with_defaults cfg = record cfg {
  status_json = if bytes_eq cfg.status_json [] then default_status_json else cfg.status_json;
  connection_deadline =
      if leb_ℤ cfg.connection_deadline (pos 0)
      then pos default_connection_deadline
      else cfg.connection_deadline;
}

-- `net.IP.To4` and `net.IP.To16`, as tests.
abbrev pub is_zeros : ℕ → Bytes → Bool
is_zeros n ip = bytes_eq (take n ip) (take n (0 ∷ 0 ∷ 0 ∷ 0 ∷ 0 ∷ 0 ∷ 0 ∷ 0 ∷ 0 ∷ 0 ∷ []))

abbrev pub is_to4 : Bytes → Bool
is_to4 ip =
    length ip == 4
    || (length ip == 16 && (is_zeros 10 ip && (get_or ip 10 0 == 0xff && get_or ip 11 0 == 0xff)))

abbrev pub is_to16 : Bytes → Bool
is_to16 ip = length ip == 4 || length ip == 16

unfoldable pub default_bedrock_status : ℤ → ℤ → Bytes
unfolding decimal
default_bedrock_status ipv4_port ipv6_port =
    codes "MCPE;minecraft-ping staging;924;1.26.3;0;10;1;staging;Creative;1;"
    ++ (decimal ipv4_port ++ (b';' ∷ (decimal ipv6_port ++ codes ";0;")))

abbrev pub ports_for : ℤ × ℤ → LocalAddr → ℤ × ℤ
ports_for ports no_udp_addr = ports
ports_for (ipv4_port, ipv6_port) (udp_addr ip port) =
    if is_to4 ip
    then (port, ipv6_port)
    else if is_to16 ip
    then (ipv4_port, port)
    else (ipv4_port, ipv6_port)

unfoldable pub ports_loop : ℤ × ℤ → List LocalAddr → ℤ × ℤ
ports_loop ports [] = ports
ports_loop ports (addr ∷ addrs) = ports_loop (ports_for ports addr) addrs

unfoldable pub default_bedrock_status_for_listeners : List LocalAddr → Bytes
unfolding ports_loop default_bedrock_status
default_bedrock_status_for_listeners addrs =
    let (ipv4_port, ipv6_port) = ports_loop (pos 19_132, pos 19_133) addrs in
    default_bedrock_status ipv4_port ipv6_port

module _ {E : Type 0} (w : ServeWorld E) where
  unfoldable pub validate_status_json : Bytes → Result (ServeError E) (Unit {0})
  validate_status_json status_json =
      if ltb max_status_json_length (length status_json)
      then err (status_json_too_long (length status_json))
      else if not (w.json_valid status_json)
      then err status_json_invalid
      else ok tt

  -- What a block that listens does behind its `Listen`: where that failed, `closeAll` closes the
  -- listeners that are open (none at the first block).
  abbrev pub listened :
      List Resource
      → Resource
      → Bytes
      → Result E (Unit {0})
      → (List Resource → Act (ServeError E) (Unit {0}))
      → Act (ServeError E) (Unit {0})
  listened held r address (ok u) next = logged (opened r) >> next (held ++ (r ∷ []))
  listened held r address (err e) next = closing_all held (done (err (listen_failed address e)))

  -- One of the four blocks that listen, where its address is given.
  abbrev pub listen_at :
      List Resource
      → Resource × Bytes
      → (List Resource → Act (ServeError E) (Unit {0}))
      → Act (ServeError E) (Unit {0})
  listen_at held (r, address) next =
      if bytes_eq address [] then next held else listened held r address (w.listen r address) next

  unfoldable pub listen_loop :
      List Resource
      → List (Resource × Bytes)
      → (List Resource → Act (ServeError E) (Unit {0}))
      → Act (ServeError E) (Unit {0})
  listen_loop held [] next = next held
  listen_loop held (block ∷ blocks) next =
      listen_at held block (λ held'. listen_loop held' blocks next)

  abbrev pub blocks : ServerConfig → List (Resource × Bytes)
  blocks cfg =
      (listener4, cfg.listen_ipv4)
      ∷ (listener6, cfg.listen_ipv6)
      ∷ (packet_listener4, cfg.bedrock_listen_ipv4)
      ∷ (packet_listener6, cfg.bedrock_listen_ipv6)
      ∷ []

  abbrev pub local_addrs : List (Resource × Bytes) → List LocalAddr
  local_addrs [] = []
  local_addrs ((r, address) ∷ rest) =
      if bytes_eq address [] then local_addrs rest else w.local_addr r ∷ local_addrs rest

  abbrev pub packet_blocks : ServerConfig → List (Resource × Bytes)
  packet_blocks cfg =
      (packet_listener4, cfg.bedrock_listen_ipv4) ∷ (packet_listener6, cfg.bedrock_listen_ipv6) ∷ []

  abbrev pub refused_status : Bytes → Result Error (Unit {0}) → Result (ServeError E) Bytes
  refused_status status (ok u) = ok status
  refused_status status (err e) = err (bedrock_status_refused e)

  abbrev pub java_enabled : ServerConfig → Bool
  java_enabled cfg = not (bytes_eq cfg.listen_ipv4 []) || not (bytes_eq cfg.listen_ipv6 [])

  abbrev pub bedrock_enabled : ServerConfig → Bool
  bedrock_enabled cfg =
      not (bytes_eq cfg.bedrock_listen_ipv4 []) || not (bytes_eq cfg.bedrock_listen_ipv6 [])

  abbrev pub status_or_default : ServerConfig → Bytes
  status_or_default cfg =
      if bytes_eq cfg.bedrock_status []
      then default_bedrock_status_for_listeners (local_addrs (packet_blocks cfg))
      else cfg.bedrock_status

  -- The status that the Bedrock listeners shall serve.
  unfoldable pub bedrock_status_of : ServerConfig → Result (ServeError E) Bytes
  unfolding default_bedrock_status_for_listeners validate_bedrock_status
  bedrock_status_of cfg =
      if bedrock_enabled cfg
      then refused_status (status_or_default cfg) (validate_bedrock_status (status_or_default cfg))
      else ok cfg.bedrock_status

  abbrev pub served_end : Result E (Unit {0}) → Result (ServeError E) (Unit {0})
  served_end (ok u) = ok tt
  served_end (err e) = err (serving_failed e)

  -- The goroutine of a listener closes it when the context ends: those that do so before the
  -- deferred `closeAll`. A second close of a listener does nothing.
  abbrev pub closed_early : Result E (Unit {0}) → List Resource
  closed_early (ok u) = w.closed_by_context
  closed_early (err e) = []

  -- The listeners run until the context ends or one of them reports an error.
  abbrev pub serving : ServerConfig → List Resource → Bytes → Act (ServeError E) (Unit {0})
  serving cfg held bedrock_status =
      logged (served cfg.status_json bedrock_status)
      >> closing_all (closed_early w.serving_end)
          (closing_all held (done (served_end w.serving_end)))

  abbrev pub status_checked :
      ServerConfig → List Resource → Result (ServeError E) Bytes → Act (ServeError E) (Unit {0})
  status_checked cfg held (ok bedrock_status) = serving cfg held bedrock_status
  status_checked cfg held (err e) = closing_all held (done (err e))

  abbrev pub listening : ServerConfig → Act (ServeError E) (Unit {0})
  listening cfg =
      listen_loop [] (blocks cfg) (λ held. status_checked cfg held (bedrock_status_of cfg))

  abbrev pub checked_json : ServerConfig → Result (ServeError E) (Unit {0})
  checked_json cfg = if java_enabled cfg then validate_status_json cfg.status_json else ok tt

  abbrev pub checked_addresses : ServerConfig → Result (ServeError E) (Unit {0})
  checked_addresses cfg =
      if not (java_enabled cfg) && not (bedrock_enabled cfg) then err no_listen_address else ok tt

  unfoldable pub serve : ServerConfig → Act (ServeError E) (Unit {0})
  unfolding with_defaults validate_status_json listen_loop bedrock_status_of
  serve given =
      let cfg = with_defaults given in
      done (checked_json cfg) >> (done (checked_addresses cfg) >> listening cfg)
