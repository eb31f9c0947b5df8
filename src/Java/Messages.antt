-- ===== src/Java/Messages.antt =====
-- protocol.go: the messages of the status exchange, as the client sends and reads them. What
-- `encoding/json` makes of a text is a parameter.
pub mod Framing
pub mod Replies
use minecraft_ping.Base.{
  ℕ, ◌+◌, ◌*◌, ◌^◌, ◌%◌, ◌≡◌, refl, Bool, true, false, not, ◌&&◌, ◌||◌, List, [], ◌∷◌, ◌++◌, Bytes,
  length, take, drop, ltb, leb, ◌==◌, if◌then◌else◌, Result, ok, err, map_err, Option, none, some,
  ◌>>=◌ as ◌then_result◌, bytes_eq,
}
use minecraft_ping.Base.Words.{put_uint16, put_uint64, big_endian}
use minecraft_ping.Io.{Stream, Conn}
use minecraft_ping.Address.Endpoint.{Endpoint, uint16_port}
use minecraft_ping.Java.Errors.{
  Error, io, port_out_of_range, unexpected_packet_id, bad_framing, invalid_json, json_not_object,
  bad_pong_size, pong_mismatch, no_token,
}
use minecraft_ping.Java.Action.{Action, ◌>>=◌, ◌>>◌, of_result, receive, write}
use minecraft_ping.Java.VarInt.{read_var_int_from_bytes, write_var_int}
use minecraft_ping.Java.Packet.{
  max_packet_length, max_status_json_length, max_handshake_host_byte_size, write_packet,
  read_packet, write_string, read_string_from_bytes,
}

-- -1 as a bit pattern.
abbrev pub status_protocol_version : ℕ
status_protocol_version = 0xffff_ffff

abbrev pub packet_id_handshake : ℕ
packet_id_handshake = 0

abbrev pub next_state_status : ℕ
next_state_status = 1

abbrev pub packet_id_status_request : ℕ
packet_id_status_request = 0

abbrev pub packet_id_status_response : ℕ
packet_id_status_response = 0

abbrev pub packet_id_ping : ℕ
packet_id_ping = 1

abbrev pub packet_id_pong : ℕ
packet_id_pong = 1

-- `generatePingToken`, on what `rand.Read` put into its eight bytes.
unfoldable pub generate_ping_token : Result ℕ Bytes → Result Error ℕ
generate_ping_token (ok payload) = ok (big_endian payload)
generate_ping_token (err e) = err (no_token e)

-- The payload that `sendHandshakePacket` builds before it writes.
unfoldable pub handshake_payload : Endpoint → Result Error Bytes
handshake_payload target = map_err port_out_of_range (uint16_port target) then_result λ port.
    write_string target.host max_handshake_host_byte_size then_result λ host. ok (
      write_var_int packet_id_handshake
      ++ (write_var_int status_protocol_version
          ++ (host ++ (put_uint16 port ++ write_var_int next_state_status))))

unfoldable pub send_handshake_packet : Endpoint → Action (Unit {0})
send_handshake_packet target = do
  payload ← of_result (handshake_payload target)
  write_packet payload

unfoldable pub send_status_request_packet : Action (Unit {0})
send_status_request_packet = write_packet (packet_id_status_request ∷ [])

unfoldable pub ping_payload : ℕ → Bytes
ping_payload payload_value = write_var_int packet_id_ping ++ put_uint64 payload_value

unfoldable pub send_ping_packet : ℕ → Action (Unit {0})
send_ping_packet payload_value = write_packet (ping_payload payload_value)

-- What `json.Unmarshal` into an `any` yields, as far as the client looks.
pub data Json : Type 0 where
  object : Json
  other_value : Json

abbrev pub expect_object : Option Json → Result Error (Unit {0})
expect_object none = err invalid_json
expect_object (some other_value) = err json_not_object
expect_object (some object) = ok tt

module _ (unmarshal : Bytes → Option Json) where
  -- `readStatusResponse` behind its `readPacket`.
  unfoldable pub check_status_response : Bytes → Result Error (Unit {0})
  check_status_response payload =
      read_var_int_from_bytes payload then_result λ (packet_id, consumed).
      if not (packet_id == packet_id_status_response)
      then err (unexpected_packet_id packet_id)
      else read_string_from_bytes (drop consumed payload) max_status_json_length
        then_result λ (json_payload, json_consumed).
            if not (consumed + json_consumed == length payload)
            then err bad_framing
            else expect_object (unmarshal json_payload)

  unfoldable pub read_status_response : Action (Unit {0})
  read_status_response = do
    payload ← receive (read_packet max_packet_length)
    of_result (check_status_response payload)

-- `readPongPacket` behind its `readPacket`.
unfoldable pub check_pong : ℕ → Bytes → Result Error (Unit {0})
check_pong expected payload = read_var_int_from_bytes payload then_result λ (packet_id, consumed).
    if not (packet_id == packet_id_pong)
    then err (unexpected_packet_id packet_id)
    else if not (length (drop consumed payload) == 8)
    then err bad_pong_size
    else if not (big_endian (drop consumed payload) == expected)
    then err pong_mismatch
    else ok tt

unfoldable pub read_pong_packet : ℕ → Action (Unit {0})
read_pong_packet expected = do
  payload ← receive (read_packet max_packet_length)
  of_result (check_pong expected payload)
