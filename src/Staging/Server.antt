-- ===== src/Staging/Server.antt =====
-- internal/stagingserver/server.go: one connection of the Java side, and the server's own probe.
pub mod Exchange
pub mod Probing
use minecraft_ping.Base.{
  ℕ, ◌+◌, ◌-◌, ◌*◌, ◌^◌, ◌%◌, ◌<◌, ◌≡◌, refl, Bool, true, false, not, ◌&&◌, ◌||◌, List, [], ◌∷◌,
  ◌++◌, Bytes, length, take, drop, ltb, ◌==◌, if◌then◌else◌, Result, ok, err, map_err, Option, none,
  some, ◌>>=◌ as ◌then_result◌, bytes_eq,
}
use minecraft_ping.Base.Int.{ℤ, pos, negsuc}
use minecraft_ping.Base.Words.{put_uint16, put_uint64, big_endian}
use minecraft_ping.Io.{Stream, Conn}
use minecraft_ping.Java.Errors.{
  Error, wrapped, handshake_packet_id, handshake_protocol, handshake_host, handshake_next_state,
  status_request, status_request_packet_id, status_response, status_response_packet_id,
  status_response_payload, pong, pong_packet_id, unexpected_packet_id, missing_port_bytes,
  unexpected_next_state, trailing_bytes, bad_pong_size, pong_mismatch,
}
use minecraft_ping.Java.Action.{
  Action, ◌>>=◌, ◌>>◌, return, of_result, receive, write, set_deadline,
}
use minecraft_ping.Staging.Codec.{
  max_packet_length, max_status_json_length, max_handshake_host_byte_size, read_packet,
  write_packet, read_var_int_from_bytes, write_var_int, read_string_from_bytes, write_string,
}

abbrev pub status_protocol_version : ℕ
status_protocol_version = 0xffff_ffff

abbrev pub packet_id_handshake : ℕ
packet_id_handshake = 0

abbrev pub next_state_status : ℕ
next_state_status = 1

abbrev pub packet_id_status_request : ℕ
packet_id_status_request = 0

abbrev pub packet_id_status_response : ℕ
packet_id_status_response = 0

abbrev pub packet_id_ping : ℕ
packet_id_ping = 1

abbrev pub packet_id_pong : ℕ
packet_id_pong = 1

-- The handshake of `expectStatusHandshake`, behind its `readPacket`.
unfoldable pub check_handshake : Bytes → Result Error (Unit {0})
check_handshake handshake =
    map_err (wrapped handshake_packet_id) (read_var_int_from_bytes handshake)
    then_result λ (packet_id, id_bytes).
        if not (packet_id == packet_id_handshake)
        then err (unexpected_packet_id packet_id)
        else map_err (wrapped handshake_protocol)
            (read_var_int_from_bytes (drop id_bytes handshake))
          then_result λ (protocol, protocol_bytes).
              let at_host = id_bytes + protocol_bytes in
              map_err (wrapped handshake_host)
                (read_string_from_bytes (drop at_host handshake) max_handshake_host_byte_size)
              then_result λ (host, host_bytes).
                  let at_port = at_host + host_bytes in
                  if ltb (length (drop at_port handshake)) 2
                  then err missing_port_bytes
                  else map_err (wrapped handshake_next_state)
                      (read_var_int_from_bytes (drop (at_port + 2) handshake))
                    then_result λ (next_state, state_bytes).
                        let consumed = at_port + 2 + state_bytes in
                        if not (next_state == next_state_status)
                        then err (unexpected_next_state next_state)
                        else if not (consumed == length handshake)
                        then err (trailing_bytes (length handshake - consumed))
                        else ok tt

unfoldable pub check_status_request : Bytes → Result Error (Unit {0})
check_status_request request =
    map_err (wrapped status_request_packet_id) (read_var_int_from_bytes request)
    then_result λ (request_id, request_bytes).
        if not (request_id == packet_id_status_request)
        then err (unexpected_packet_id request_id)
        else if not (request_bytes == length request)
        then err (trailing_bytes (length request - request_bytes))
        else ok tt

abbrev pub wrapping :
    {A : Type 0} → (Error → Error) → (Stream → Result Error A) → Stream → Result Error A
wrapping w read r = map_err w (read r)

unfoldable pub expect_status_handshake : Action (Unit {0})
expect_status_handshake = do
  handshake ← receive (read_packet max_packet_length)
  of_result (check_handshake handshake)
  request ← receive (wrapping (wrapped status_request) (read_packet max_packet_length))
  of_result (check_status_request request)

unfoldable pub status_payload : Bytes → Result Error Bytes
status_payload status_json = write_string status_json max_status_json_length then_result λ text.
    ok (write_var_int packet_id_status_response ++ text)

unfoldable pub send_status_json : Bytes → Action (Unit {0})
send_status_json status_json = do
  payload ← of_result (status_payload status_json)
  write_packet payload

-- `expectPingToken` behind its `readPacket`.
unfoldable pub check_ping : Bytes → Result Error ℕ
check_ping packet = read_var_int_from_bytes packet then_result λ (packet_id, consumed).
    if not (packet_id == packet_id_ping)
    then err (unexpected_packet_id packet_id)
    else if not (length (drop consumed packet) == 8)
    then err bad_pong_size
    else ok (big_endian (drop consumed packet))

unfoldable pub expect_ping_token : Action ℕ
expect_ping_token = do
  packet ← receive (read_packet max_packet_length)
  of_result (check_ping packet)

unfoldable pub pong_payload : ℕ → Bytes
pong_payload token = write_var_int packet_id_pong ++ put_uint64 token

unfoldable pub send_pong : ℕ → Action (Unit {0})
send_pong token = write_packet (pong_payload token)

-- `time.Now()` is a parameter, in nanoseconds.
unfoldable pub handle_conn : ℕ → Bytes → ℕ → Action (Unit {0})
handle_conn now status_json deadline = do
  set_deadline (now + deadline)
  expect_status_handshake
  send_status_json status_json
  token ← expect_ping_token
  send_pong token

pub handle_conn-steps :
    (now : ℕ) (status_json : Bytes) (deadline : ℕ) (c : Conn)
    → handle_conn now status_json deadline c
      ≡ (set_deadline (now + deadline) >>= λ _.
            (expect_status_handshake >>= λ _.
            (send_status_json status_json >>= λ _. (expect_ping_token >>= send_pong))))
          c
unfolding handle_conn
handle_conn-steps now status_json deadline c = refl

abbrev pub probe_token : ℕ
probe_token = 0x0102_0304_0506_0708

-- The handshake that `probeConn` builds; `uint16(port)` keeps the low 16 bits.
unfoldable pub probe_handshake : Bytes → ℕ → Result Error Bytes
probe_handshake host port = write_string host max_handshake_host_byte_size then_result λ text. ok (
    write_var_int packet_id_handshake
    ++ (write_var_int status_protocol_version
        ++ (text ++ (put_uint16 (port % 2 ^ 16) ++ write_var_int next_state_status))))

unfoldable pub check_probe_status : Bytes → Result Error (Unit {0})
check_probe_status response =
    map_err (wrapped status_response_packet_id) (read_var_int_from_bytes response)
    then_result λ (packet_id, consumed).
        if not (packet_id == packet_id_status_response)
        then err (unexpected_packet_id packet_id)
        else map_err (wrapped status_response_payload)
            (read_string_from_bytes (drop consumed response) max_status_json_length)
          then_result λ text. ok tt

unfoldable pub check_probe_pong : Bytes → Result Error (Unit {0})
check_probe_pong packet =
    map_err (wrapped pong_packet_id) (read_var_int_from_bytes packet)
    then_result λ (packet_id, consumed).
        if not (packet_id == packet_id_pong)
        then err (unexpected_packet_id packet_id)
        else if not (length (drop consumed packet) == 8)
        then err bad_pong_size
        else if not (bytes_eq (drop consumed packet) (put_uint64 probe_token))
        then err pong_mismatch
        else ok tt

unfoldable pub probe_conn : ℕ → Bytes → ℕ → ℕ → Action (Unit {0})
probe_conn now host port timeout = do
  set_deadline (now + timeout)
  handshake ← of_result (probe_handshake host port)
  write_packet handshake
  write_packet (packet_id_status_request ∷ [])
  response ← receive (wrapping (wrapped status_response) (read_packet max_packet_length))
  of_result (check_probe_status response)
  write_packet (write_var_int packet_id_ping ++ put_uint64 probe_token)
  packet ← receive (wrapping (wrapped pong) (read_packet max_packet_length))
  of_result (check_probe_pong packet)
