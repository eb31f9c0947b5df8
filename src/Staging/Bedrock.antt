-- ===== src/Staging/Bedrock.antt =====
-- internal/stagingserver/bedrock.go: the pong of the staging server, and its own probe.
use minecraft_ping.Base.{
  ℕ, ◌+◌, ◌^◌, ◌%◌, not, ◌||◌, [], ◌∷◌, ◌++◌, Bytes, length, take, drop, get_or, ltb, ◌==◌,
  if◌then◌else◌, Option, none, some, Result, ok, err, ◌>>=◌, ◌>>◌, bytes_eq,
}
use minecraft_ping.Base.Int.{ℤ, pos, ltb_ℤ, leb_ℤ}
use minecraft_ping.Base.Words.{put_uint16, put_uint64, big_endian}
use minecraft_ping.Text.{codes, has_prefix, atoi}
use minecraft_ping.Text.Utf8.{utf8_valid}
use minecraft_ping.Net.Parse.{split_host_port}
use minecraft_ping.Bedrock.{
  Error, pong_too_short, unexpected_packet_id, ping_time_mismatch, magic_mismatch, length_mismatch,
  status_not_utf8, ping_length, status_empty, status_too_long, status_prefix,
}

abbrev pub unconnected_ping_packet_id : ℕ
unconnected_ping_packet_id = 0x01

abbrev pub unconnected_pong_packet_id : ℕ
unconnected_pong_packet_id = 0x1c

abbrev pub server_guid : ℕ
server_guid = 1

abbrev pub probe_client_guid : ℕ
probe_client_guid = 1

abbrev pub max_bedrock_status_length : ℕ
max_bedrock_status_length = 65535

abbrev pub magic : Bytes
magic =
    0x00 ∷ 0xff ∷ 0xff ∷ 0x00 ∷ 0xfe ∷ 0xfe ∷ 0xfe ∷ 0xfe ∷ 0xfd ∷ 0xfd ∷ 0xfd ∷ 0xfd ∷ 0x12 ∷ 0x34
    ∷ 0x56 ∷ 0x78 ∷ []

unfoldable pub validate_bedrock_status : Bytes → Result Error (Unit {0})
validate_bedrock_status status =
    if bytes_eq status []
    then err status_empty
    else if not (utf8_valid status)
    then err status_not_utf8
    else if ltb max_bedrock_status_length (length status)
    then err (status_too_long (length status))
    else if not (has_prefix status (codes "MCPE;"))
    then err status_prefix
    else ok tt

abbrev port_or : ℤ → Option ℤ → ℤ
port_or fallback none = fallback
port_or fallback (some port) =
    if leb_ℤ port (pos 0) || ltb_ℤ (pos 65535) port then fallback else port

unfoldable pub configured_port : Bytes → ℤ → ℤ
configured_port address fallback =
    if bytes_eq address [] then fallback else elim (split_host_port address) [
      | none ↦ fallback
      | some (host, port_text) ↦ port_or fallback (atoi port_text)
    ]

unfoldable pub parse_bedrock_unconnected_ping : Bytes → Result Error ℕ
parse_bedrock_unconnected_ping payload =
    if not (length payload == 33)
    then err (ping_length (length payload))
    else if not (get_or payload 0 0 == unconnected_ping_packet_id)
    then err (unexpected_packet_id (get_or payload 0 0))
    else if not (bytes_eq (take 16 (drop 9 payload)) magic)
    then err magic_mismatch
    else ok (big_endian (take 8 (drop 1 payload)))

unfoldable pub encode_bedrock_unconnected_pong : ℕ → Bytes → Result Error Bytes
encode_bedrock_unconnected_pong ping_time status =
    validate_bedrock_status status
    >> ok (
        (unconnected_pong_packet_id ∷ [])
        ++ (put_uint64 ping_time
            ++ (put_uint64 server_guid
                ++ (magic ++ (put_uint16 (length status % 2 ^ 16) ++ status)))))

unfoldable pub build_bedrock_status_response : Bytes → Bytes → Result Error Bytes
build_bedrock_status_response request status = do
  ping_time ← parse_bedrock_unconnected_ping request
  encode_bedrock_unconnected_pong ping_time status

-- The request of `ProbeBedrock`; the ping time is `time.Now().UnixMilli()` as a uint64.
unfoldable pub probe_request : ℕ → Bytes
probe_request ping_time =
    (unconnected_ping_packet_id ∷ [])
    ++ (put_uint64 ping_time ++ (magic ++ put_uint64 probe_client_guid))

unfoldable pub parse_bedrock_pong : Bytes → ℕ → Result Error (Unit {0})
parse_bedrock_pong payload expected_ping_time =
    let status_length = big_endian (take 2 (drop 33 payload)) in
    if ltb (length payload) 35
    then err (pong_too_short (length payload))
    else if not (get_or payload 0 0 == unconnected_pong_packet_id)
    then err (unexpected_packet_id (get_or payload 0 0))
    else if not (big_endian (take 8 (drop 1 payload)) == expected_ping_time)
    then err ping_time_mismatch
    else if not (bytes_eq (take 16 (drop 17 payload)) magic)
    then err magic_mismatch
    else if not (length payload == 35 + status_length)
    then err (length_mismatch (length payload) (35 + status_length))
    else validate_bedrock_status (drop 35 payload)
