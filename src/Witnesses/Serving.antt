-- ===== src/Witnesses/Serving.antt =====
-- internal/stagingserver: `Serve` and its loops at concrete inputs.
use minecraft_ping.Base.{
  ℕ, ◌≡◌, refl, Bool, true, false, Bytes, [], ◌∷◌, ◌++◌, Result, ok, err, arith, bytes_eq,
}
use minecraft_ping.Base.Int.{pos}
use minecraft_ping.Text.{codes, has_prefix}
use minecraft_ping.Effects.{Resource, packet_listener6}
use minecraft_ping.Staging.Bedrock.{probe_request, validate_bedrock_status}
use minecraft_ping.Text.Utf8.{utf8_valid}
use minecraft_ping.Staging.Serve.{
  LocalAddr, is_to4, ServerConfig, ServeWorld, udp_addr, serve, bedrock_status_of, bedrock_enabled,
}
use minecraft_ping.Staging.Serve.Closed.{left_open, serve-closes}
use minecraft_ping.Staging.Serve.Status.{made_up_status, socket_port, bedrock_status_of-default}
use minecraft_ping.Staging.Serve.Loops.{
  read_failed, delivered, replies, serve_bedrock_listener, serve_bedrock_listener-replies,
}

abbrev config : ServerConfig
config = record {
  listen_ipv4 = codes "127.0.0.1:25565";
  listen_ipv6 = [];
  bedrock_listen_ipv4 = codes "127.0.0.1:0";
  bedrock_listen_ipv6 = codes "[::1]:0";
  status_json = [];
  bedrock_status = [];
  connection_deadline = pos 0;
}

-- The last of the sockets cannot be opened.
abbrev listens : Resource → Bytes → Result ℕ (Unit {0})
listens packet_listener6 address = err 98
listens r address = ok tt

abbrev loopback6 : Bytes
loopback6 = 0 ∷ 0 ∷ 0 ∷ 0 ∷ 0 ∷ 0 ∷ 0 ∷ 0 ∷ 0 ∷ 0 ∷ 0 ∷ 0 ∷ 0 ∷ 0 ∷ 0 ∷ 1 ∷ []

abbrev local_addr_of : Resource → LocalAddr
local_addr_of packet_listener6 = udp_addr loopback6 (pos 40001)
local_addr_of r = udp_addr (127 ∷ 0 ∷ 0 ∷ 1 ∷ []) (pos 40000)

no_mapped : is_to4 loopback6 ≡ false
unfolding bytes_eq
no_mapped = refl

abbrev world : ServeWorld ℕ
world = record {
  json_valid = λ text. true;
  listen = listens;
  local_addr = local_addr_of;
  serving_end = ok tt;
  closed_by_context = packet_listener6 ∷ [];
}

serve-closes_example : left_open [] (serve world config).events ≡ []
serve-closes_example = serve-closes world config

enabled : bedrock_enabled world config ≡ true
unfolding bytes_eq
enabled = refl

bedrock_status_of-default_example :
    bedrock_status_of world config
    ≡ ok (
        made_up_status
          (socket_port config.bedrock_listen_ipv4 40000 19132)
          (socket_port config.bedrock_listen_ipv6 40001 19133))
bedrock_status_of-default_example =
    bedrock_status_of-default world (127 ∷ 0 ∷ 0 ∷ 1 ∷ []) loopback6 40000 40001 config refl refl
      refl no_mapped refl (omega arith) (omega arith) enabled refl

abbrev quiet : ℕ → Bool
quiet e = false

abbrev status : Bytes
status = codes "MCPE;x"

status-valid : validate_bedrock_status status ≡ ok tt
unfolding validate_bedrock_status utf8_valid has_prefix bytes_eq
status-valid = refl

-- A datagram that is no ping, and a ping of another sender behind it.
serve_bedrock_listener-replies_example :
    serve_bedrock_listener quiet {A = ℕ} status (
      delivered quiet {A = ℕ} status ((1 ∷ 2 ∷ [], 10) ∷ (probe_request 77, 11) ∷ [])
      ++ (read_failed 5 ∷ []))
    ≡ (
      replies quiet {A = ℕ} status ((1 ∷ 2 ∷ [], 10) ∷ (probe_request 77, 11) ∷ [])
          ++ (serve_bedrock_listener quiet {A = ℕ} status (read_failed 5 ∷ [])).0,
      (serve_bedrock_listener quiet {A = ℕ} status (read_failed 5 ∷ [])).1,
    )
serve_bedrock_listener-replies_example =
    serve_bedrock_listener-replies quiet {A = ℕ} status
      ((1 ∷ 2 ∷ [], 10) ∷ (probe_request 77, 11) ∷ []) (read_failed 5 ∷ []) status-valid
