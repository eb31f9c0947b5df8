-- ===== src/Exchange/Serving.antt =====
-- The staging server (server.go) on what the client sends, and both ends of one connection.
use minecraft_ping.Base.{
  ℕ, ◌^◌, ◌≡◌, ◌<◌, ◌≤◌, refl, ap, ◌∙◌, [], ◌∷◌, ◌++◌, Bytes, length, Option, ok, map_err, arith,
}
use minecraft_ping.Base.Words.{put_uint64}
use minecraft_ping.Io.{IoError}
use minecraft_ping.Java.Errors.{Error, wrapped, status_request}
use minecraft_ping.Java.Action.{Action, receive, received, of_result, then_ok}
use minecraft_ping.Java.VarInt.{write_var_int}
use minecraft_ping.Java.Packet.{frame, max_packet_length}
use minecraft_ping.Java.Messages.{ping_payload}
use minecraft_ping.Java.Messages.Framing.{read_packet-frame}
use minecraft_ping.Staging.Codec.{read_packet, write_packet}
use minecraft_ping.Staging.Codec.Agreement.{read_packet-agrees, write_packet-agrees}
use minecraft_ping.Staging.Server.{
  expect_status_handshake, send_status_json, expect_ping_token, send_pong, check_handshake,
  status_payload, pong_payload, wrapping,
}
use minecraft_ping.Staging.Server.Exchange.{check_status_request-zero, check_ping-token}
use minecraft_ping.Staging.Server.Probing.{quiet, quiet-write_packet, quiet-receive}
use minecraft_ping.Exchange.{token_payload}

module _ (ends : IoError) where
  server-write_packet :
      (payload bytes sent : Bytes) (deadline : Option ℕ)
      → 0 < length payload
      → length payload ≤ max_packet_length
      → write_packet payload (quiet bytes ends sent deadline)
        ≡ (ok tt, quiet bytes ends (sent ++ frame payload) deadline)
  server-write_packet payload bytes sent deadline lo hi =
      ap (λ (w : Action (Unit {0})). w (quiet bytes ends sent deadline))
        (write_packet-agrees payload)
      ∙ quiet-write_packet ends payload bytes sent deadline lo hi

  server-receive :
      (payload bytes sent : Bytes) (deadline : Option ℕ)
      → 0 < length payload
      → length payload ≤ max_packet_length
      → receive (read_packet max_packet_length) (quiet (frame payload ++ bytes) ends sent deadline)
        ≡ (ok payload, quiet bytes ends sent deadline)
  server-receive payload bytes sent deadline lo hi =
      let c = quiet (frame payload ++ bytes) ends sent deadline in
      ap (received c) (read_packet-agrees max_packet_length c.incoming)
      ∙ quiet-receive ends payload bytes sent deadline lo hi

  server-receive_wrapped :
      (w : Error → Error) (payload bytes sent : Bytes) (deadline : Option ℕ)
      → 0 < length payload
      → length payload ≤ max_packet_length
      → receive
          (wrapping w (read_packet max_packet_length))
          (quiet (frame payload ++ bytes) ends sent deadline)
        ≡ (ok payload, quiet bytes ends sent deadline)
  server-receive_wrapped w payload bytes sent deadline lo hi =
      let c = quiet (frame payload ++ bytes) ends sent deadline in
      ap (λ r. received c (map_err w r))
        (read_packet-agrees max_packet_length c.incoming
          ∙ read_packet-frame payload bytes ends max_packet_length lo hi (omega arith))

  pub expect_status_handshake-runs :
      (handshake later sent : Bytes) (at : Option ℕ)
      → 0 < length handshake
      → length handshake ≤ max_packet_length
      → check_handshake handshake ≡ ok tt
      → expect_status_handshake (quiet (frame handshake ++ (frame (0 ∷ []) ++ later)) ends sent at)
        ≡ (ok tt, quiet later ends sent at)
  unfolding expect_status_handshake
  expect_status_handshake-runs handshake later sent at lo hi good =
      then_ok (receive (read_packet max_packet_length)) _ _
        (server-receive handshake (frame (0 ∷ []) ++ later) sent at lo hi)
      ∙ then_ok (of_result (check_handshake handshake)) _ _
          (λ i. (good i, quiet (frame (0 ∷ []) ++ later) ends sent at))
      ∙ then_ok (receive (wrapping (wrapped status_request) (read_packet max_packet_length))) _ _ (
          server-receive_wrapped (wrapped status_request) (0 ∷ []) later sent at (omega arith)
            (omega arith))
      ∙ (λ i. (check_status_request-zero i, quiet later ends sent at))

  pub send_status_json-runs :
      (json status later sent : Bytes) (at : Option ℕ)
      → status_payload json ≡ ok status
      → 0 < length status
      → length status ≤ max_packet_length
      → send_status_json json (quiet later ends sent at)
        ≡ (ok tt, quiet later ends (sent ++ frame status) at)
  unfolding send_status_json
  send_status_json-runs json status later sent at built lo hi =
      then_ok (of_result (status_payload json)) write_packet _
        (λ i. (built i, quiet later ends sent at))
      ∙ server-write_packet status later sent at lo hi

  pub expect_ping_token-runs :
      (token : ℕ) (later sent : Bytes) (at : Option ℕ)
      → token < 2 ^ 64
      → expect_ping_token (quiet (frame (ping_payload token) ++ later) ends sent at)
        ≡ (ok token, quiet later ends sent at)
  unfolding expect_ping_token ping_payload
  expect_ping_token-runs token later sent at fits =
      let nine = token_payload token in
      then_ok (receive (read_packet max_packet_length)) _ _ (
        server-receive (write_var_int 1 ++ put_uint64 token) later sent at (omega (arith, nine))
          (omega (arith, nine)))
      ∙ (λ i. (check_ping-token token fits i, quiet later ends sent at))

  pong-is_ping : (token : ℕ) → pong_payload token ≡ ping_payload token
  unfolding pong_payload ping_payload write_var_int minecraft_ping.Staging.Codec.write_var_int
  pong-is_ping token = refl

  pub send_pong-runs :
      (token : ℕ) (later sent : Bytes) (at : Option ℕ)
      → send_pong token (quiet later ends sent at)
        ≡ (ok tt, quiet later ends (sent ++ frame (ping_payload token)) at)
  unfolding send_pong ping_payload
  send_pong-runs token later sent at =
      let nine = token_payload token in
      ap (λ p. write_packet p (quiet later ends sent at)) (pong-is_ping token)
      ∙ server-write_packet (write_var_int 1 ++ put_uint64 token) later sent at
          (omega (arith, nine)) (omega (arith, nine))
