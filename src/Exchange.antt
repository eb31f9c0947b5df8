-- ===== src/Exchange.antt =====
-- The client (protocol.go, java.go) and the staging server (server.go) over one connection.
pub mod Serving
pub mod Complete
use minecraft_ping.Base.{
  ℕ, ◌+◌, ◌-◌, ◌*◌, ◌^◌, ◌%◌, max, ◌≡◌, ◌<◌, ◌≤◌, refl, sym, ap, ◌∙◌, List, [], ◌∷◌, ◌++◌, Bytes,
  length, Option, none, some, Result, ok, err, map_err, arith, append_assoc, append-nil, true,
  length-append,
}
use minecraft_ping.Base.Words.{put_uint16, put_uint64, length-be_bytes}
use minecraft_ping.Text.Utf8.{utf8_valid}
use minecraft_ping.Io.{IoError, Conn}
use minecraft_ping.Address.Endpoint.{Endpoint}
use minecraft_ping.Java.Errors.{Error}
use minecraft_ping.Java.Action.{Action, receive, of_result, set_deadline, then_ok}
use minecraft_ping.Java.VarInt.{write_var_int}
use minecraft_ping.Java.Packet.{frame, write_packet, write_string, max_packet_length, read_packet}
use minecraft_ping.Java.Messages.{
  Json, object, handshake_payload, ping_payload, send_handshake_packet, send_status_request_packet,
  send_ping_packet, read_status_response, read_pong_packet, check_status_response, check_pong,
}
use minecraft_ping.Java.Messages.Replies.{check_pong-token, check_status_response-object}
use minecraft_ping.Java.Ping.{Moments, millisecond, io_deadline, ping_exchange, ping_exchange-steps}
use minecraft_ping.Staging.Codec.Agreement.{read_packet-agrees, write_packet-agrees}
use minecraft_ping.Staging.Server.{
  handle_conn, expect_status_handshake, send_status_json, expect_ping_token, send_pong,
  check_handshake, check_status_request, check_ping, status_payload, pong_payload,
}
use minecraft_ping.Staging.Server.Exchange.{
  check_handshake-written, check_status_request-zero, check_ping-token,
}
use minecraft_ping.Staging.Server.Probing.{
  quiet, quiet-set_deadline, quiet-write_packet, quiet-receive,
}

-- The bytes of the client: handshake, status request and ping.
abbrev pub client_script : Bytes → ℕ → Bytes
client_script handshake token =
    frame handshake ++ (frame (0 ∷ []) ++ (frame (ping_payload token) ++ []))

-- The bytes of the server: status response and pong, which has the payload of the ping.
abbrev pub server_script : Bytes → ℕ → Bytes
server_script status token = frame status ++ (frame (ping_payload token) ++ [])

token_payload : (token : ℕ) → length (write_var_int 1 ++ put_uint64 token) ≡ 9
unfolding write_var_int
token_payload token =
    omega (arith, length-append (write_var_int 1) (put_uint64 token), length-be_bytes 8 token)

script : (a b c : Bytes) → (a ++ b) ++ c ≡ a ++ (b ++ (c ++ []))
script a b c = append_assoc a b c ∙ ap (λ (t : Bytes). a ++ (b ++ t)) (sym (append-nil c))

module _ (unmarshal : Bytes → Option Json) (ends : IoError) where
  pub client_runs :
      (m : Moments) (timeout token : ℕ) (target : Endpoint) (handshake status : Bytes)
      → handshake_payload target ≡ ok handshake
      → 0 < length handshake
      → length handshake ≤ max_packet_length
      → 0 < length status
      → length status ≤ max_packet_length
      → check_status_response unmarshal status ≡ ok tt
      → token < 2 ^ 64
      → ping_exchange unmarshal m timeout
          (ok token)
          target
          (quiet (server_script status token) ends [] none)
        ≡ (
          ok (max (m.finished - m.started) millisecond),
          quiet [] ends (client_script handshake token) (some (io_deadline m timeout)),
        )
  unfolding send_handshake_packet send_status_request_packet send_ping_packet read_status_response
      read_pong_packet ping_payload
  client_runs m timeout token target handshake status built lo hi slo shi good fits =
      let at = some (io_deadline m timeout) in
      let pong = write_var_int 1 ++ put_uint64 token in
      let nine = token_payload token in
      let later = frame pong ++ [] in
      let begun = frame handshake ++ frame (0 ∷ []) in
      ping_exchange-steps unmarshal m timeout (ok token) target _
      ∙ then_ok (set_deadline (io_deadline m timeout)) _
          (quiet (frame status ++ later) ends [] none)
          (quiet-set_deadline ends (io_deadline m timeout) (frame status ++ later) [] none)
      ∙ then_ok (send_handshake_packet target) _ (quiet (frame status ++ later) ends [] at) (
          then_ok (of_result (handshake_payload target)) write_packet _
            (λ i. (built i, quiet (frame status ++ later) ends [] at))
          ∙ quiet-write_packet ends handshake (frame status ++ later) [] at lo hi)
      ∙ then_ok send_status_request_packet _ _ (
          quiet-write_packet ends (0 ∷ []) (frame status ++ later) (frame handshake) at
            (omega arith) (omega arith))
      ∙ then_ok (read_status_response unmarshal) _ _ (
          then_ok (receive (read_packet max_packet_length)) _ _
            (quiet-receive ends status later begun at slo shi)
          ∙ (λ i. (good i, quiet later ends begun at)))
      ∙ then_ok (of_result (ok token)) _ _ refl
      ∙ then_ok (send_ping_packet token) _ _
          (quiet-write_packet ends pong later begun at (omega (arith, nine)) (omega (arith, nine)))
      ∙ then_ok (read_pong_packet token) _ _ (
          then_ok (receive (read_packet max_packet_length)) _ _ (
            quiet-receive ends pong [] (begun ++ frame pong) at (omega (arith, nine))
              (omega (arith, nine)))
          ∙ (λ i. (check_pong-token token fits i, quiet [] ends (begun ++ frame pong) at)))
      ∙ ap (λ (t : Bytes). (ok (max (m.finished - m.started) millisecond), quiet [] ends t at))
          (script (frame handshake) (frame (0 ∷ [])) (frame pong))
