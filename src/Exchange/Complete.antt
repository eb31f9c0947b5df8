-- ===== src/Exchange/Complete.antt =====
-- The client (java.go) and the staging server (server.go) at both ends of one connection.
use minecraft_ping.Base.{
  ℕ, ◌+◌, ◌-◌, ◌^◌, ◌%◌, max, ◌≡◌, ◌<◌, ◌≤◌, sym, ap, ◌∙◌, [], ◌∷◌, ◌++◌, Bytes, length, Option,
  none, some, ok, map_err, arith, append-nil, true, length-append, >>=-eq-ok,
}
use mathlib.Core.Path.{subst}
use minecraft_ping.Base.Words.{put_uint16, length-be_bytes}
use minecraft_ping.Text.Utf8.{utf8_valid}
use minecraft_ping.Io.{IoError}
use minecraft_ping.Address.Endpoint.{Endpoint, uint16_port}
use minecraft_ping.Java.Errors.{port_out_of_range}
use minecraft_ping.Java.Action.{set_deadline, then_ok}
use minecraft_ping.Java.VarInt.{write_var_int}
use minecraft_ping.Java.VarInt.Encoding.{write_var_int_shape}
use minecraft_ping.Java.Packet.{
  frame, max_packet_length, max_status_json_length, max_handshake_host_byte_size, write_string,
  validate_string_byte_length,
}
use minecraft_ping.Java.Messages.{
  Json, object, handshake_payload, ping_payload, packet_id_handshake, status_protocol_version,
  next_state_status, check_status_response,
}
use minecraft_ping.Java.Messages.Replies.{check_status_response-object}
use minecraft_ping.Java.Ping.{Moments, millisecond, io_deadline, ping_exchange}
use minecraft_ping.Staging.Codec.Agreement.{write_string-agrees}
use minecraft_ping.Staging.Codec
use minecraft_ping.Staging.Server.{
  handle_conn, expect_status_handshake, send_status_json, expect_ping_token, send_pong,
  check_handshake, status_payload, handle_conn-steps,
}
use minecraft_ping.Staging.Server.Exchange.{check_handshake-written}
use minecraft_ping.Staging.Server.Probing.{quiet, quiet-set_deadline}
use minecraft_ping.Exchange.{client_script, server_script, client_runs}
use minecraft_ping.Exchange.Serving.{
  expect_status_handshake-runs, send_status_json-runs, expect_ping_token-runs, send_pong-runs,
}

-- A string that `writeString` takes is at most five bytes longer than its value.
length-write_string :
    (value bytes : Bytes) (max_bytes : ℕ)
    → write_string value max_bytes ≡ ok bytes
    → (length bytes ≤ max_bytes + 5) × (1 ≤ length bytes)
unfolding write_string validate_string_byte_length
length-write_string value bytes max_bytes h =
    let size = write_var_int (length value % 2 ^ 32) in
    let shape = write_var_int_shape (length value % 2 ^ 32) (omega arith) in
    let (u, fits, built) = >>=-eq-ok (validate_string_byte_length (length value) max_bytes) _ h in
    ground (arith, length-append size value, shape.1, shape.2)

abbrev wire : Bytes → ℕ → Bytes
wire text port =
    write_var_int packet_id_handshake
    ++ (write_var_int status_protocol_version
        ++ (text ++ (put_uint16 port ++ write_var_int next_state_status)))

length-wire : (text : Bytes) (port : ℕ) → length (wire text port) ≡ length text + 9
unfolding write_var_int
length-wire text port =
    let state = write_var_int next_state_status in
    let from_port = put_uint16 port ++ state in
    omega (
      arith,
      length-be_bytes 2 port,
      length-append (put_uint16 port) state,
      length-append text from_port,
      length-append (write_var_int status_protocol_version) (text ++ from_port),
      length-append (write_var_int packet_id_handshake)
          (write_var_int status_protocol_version ++ (text ++ from_port)),
    )

wire-accepted :
    (host text : Bytes) (port : ℕ)
    → write_string host max_handshake_host_byte_size ≡ ok text
    → utf8_valid host ≡ true
    → (check_handshake (wire text port) ≡ ok tt)
      × (0 < length (wire text port))
      × (length (wire text port) ≤ max_packet_length)
wire-accepted host text port w utf8 =
    let bound = length-write_string host text max_handshake_host_byte_size w in
    (
      check_handshake-written host text (put_uint16 port) w utf8 (length-be_bytes 2 port),
      omega (arith, length-wire text port),
      omega (arith, length-wire text port, bound.0),
    )

-- A handshake that the client builds fits a packet and passes the server's check.
handshake_payload-accepted :
    (target : Endpoint) (handshake : Bytes)
    → handshake_payload target ≡ ok handshake
    → utf8_valid target.host ≡ true
    → (check_handshake handshake ≡ ok tt)
      × (0 < length handshake)
      × (length handshake ≤ max_packet_length)
unfolding handshake_payload
handshake_payload-accepted target handshake h utf8 =
    let (port, is_port, h') = >>=-eq-ok (map_err port_out_of_range (uint16_port target)) _ h in
    let (text, written, h'') =
      >>=-eq-ok (write_string target.host max_handshake_host_byte_size) _ h' in
    let built : wire text port ≡ handshake = ground arith in
    rw built at (wire-accepted target.host text port written utf8)

abbrev IsAccepted : (Bytes → Option Json) → Bytes → Type 0
IsAccepted unmarshal status =
    (check_status_response unmarshal status ≡ ok tt)
    × (0 < length status)
    × (length status ≤ max_packet_length)

zero_text-IsAccepted :
    (unmarshal : Bytes → Option Json) (json text : Bytes)
    → write_string json max_status_json_length ≡ ok text
    → utf8_valid json ≡ true
    → unmarshal json ≡ some object
    → IsAccepted unmarshal (0 ∷ text)
unfolding write_var_int
zero_text-IsAccepted unmarshal json text w utf8 is_object =
    let bound = length-write_string json text max_status_json_length w in
    (
      check_status_response-object unmarshal json text w utf8 is_object,
      omega arith,
      omega (arith, bound.0),
    )

-- A status that the server encodes fits a packet and passes the client's check.
status_payload-IsAccepted :
    (unmarshal : Bytes → Option Json) (json status : Bytes)
    → status_payload json ≡ ok status
    → utf8_valid json ≡ true
    → unmarshal json ≡ some object
    → IsAccepted unmarshal status
unfolding status_payload Codec.write_var_int
status_payload-IsAccepted unmarshal json status h utf8 is_object =
    let (text, written, h') = >>=-eq-ok (Codec.write_string json max_status_json_length) _ h in
    let w = sym (write_string-agrees json max_status_json_length (omega arith) utf8) ∙ written in
    let built : (0 ∷ text) ≡ status = ground arith in
    subst (IsAccepted unmarshal) built (zero_text-IsAccepted unmarshal json text w utf8 is_object)

server_runs :
    (ends : IoError) (now deadline token : ℕ) (json handshake status : Bytes)
    → check_handshake handshake ≡ ok tt
    → 0 < length handshake
    → length handshake ≤ max_packet_length
    → status_payload json ≡ ok status
    → 0 < length status
    → length status ≤ max_packet_length
    → token < 2 ^ 64
    → handle_conn now json deadline (quiet (client_script handshake token) ends [] none)
      ≡ (ok tt, quiet [] ends (server_script status token) (some (now + deadline)))
server_runs ends now deadline token json handshake status good lo hi built slo shi fits =
    let at = some (now + deadline) in
    let later = frame (ping_payload token) ++ [] in
    handle_conn-steps now json deadline _
    ∙ then_ok (set_deadline (now + deadline)) _ _
        (quiet-set_deadline ends (now + deadline) (client_script handshake token) [] none)
    ∙ then_ok expect_status_handshake _ _
        (expect_status_handshake-runs ends handshake later [] at lo hi good)
    ∙ then_ok (send_status_json json) _ _
        (send_status_json-runs ends json status later [] at built slo shi)
    ∙ then_ok expect_ping_token send_pong _
        (expect_ping_token-runs ends token [] (frame status) at fits)
    ∙ send_pong-runs ends token [] (frame status) at
    ∙ ap (λ (t : Bytes). (ok tt, quiet [] ends t at))
        (ap (frame status ++◌) (sym (append-nil (frame (ping_payload token)))))

-- Client and server over one connection on which nothing fails, whose two directions hold what the
-- other end writes: for a handshake that the client can encode with a host in valid UTF-8, a status
-- that the server can encode, a JSON object in valid UTF-8, and a token of 64 bits, both ends run
-- to their end without an error, each reads all that the other wrote, and the client reports the
-- time between its two readings of the clock, a millisecond at least.
pub exchange-completes :
    (unmarshal : Bytes → Option Json) (ends ends' : IoError) (m : Moments)
    (timeout now deadline token : ℕ) (target : Endpoint) (json handshake status : Bytes)
    → handshake_payload target ≡ ok handshake
    → utf8_valid target.host ≡ true
    → status_payload json ≡ ok status
    → utf8_valid json ≡ true
    → unmarshal json ≡ some object
    → token < 2 ^ 64
    → (to_server : Bytes) × (to_client : Bytes) × (ping_exchange unmarshal m timeout
          (ok token)
          target
          (quiet to_client ends [] none)
        ≡ (
          ok (max (m.finished - m.started) millisecond),
          quiet [] ends to_server (some (io_deadline m timeout)),
        ))
      × (handle_conn now json deadline (quiet to_server ends' [] none)
          ≡ (ok tt, quiet [] ends' to_client (some (now + deadline))))
exchange-completes unmarshal ends ends' m timeout now deadline token target json handshake status
      built utf8 encoded json_utf8 is_object fits =
    let (good, lo, hi) = handshake_payload-accepted target handshake built utf8 in
    let (sgood, slo, shi) =
      status_payload-IsAccepted unmarshal json status encoded json_utf8 is_object in
    (
      client_script handshake token,
      server_script status token,
      client_runs unmarshal ends m timeout token target handshake status built lo hi slo shi sgood
          fits,
      server_runs ends' now deadline token json handshake status good lo hi encoded slo shi fits,
    )
