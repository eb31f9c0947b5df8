-- ===== src/Java/Errors.antt =====
-- The errors of the Java packet codec, shared by the client and by the staging server.
use minecraft_ping.Base.{ℕ}
use minecraft_ping.Io.{IoError}
use minecraft_ping.Address.Errors.{Error as AddressError}

-- What a wrapped error (`fmt.Errorf("read …: %w", err)`) says in front of its cause.
pub data Step : Type 0 where
  handshake_packet_id handshake_protocol handshake_host handshake_next_state : Step
  status_request status_request_packet_id : Step
  status_response status_response_packet_id status_response_payload : Step
  pong pong_packet_id : Step

pub data Error : Type 0 where
  io : IoError → Error
  varint_too_long empty_payload : Error
  payload_too_large : ℕ → Error
  invalid_packet_length : ℕ → Error
  packet_too_long : ℕ → ℕ → Error
  unexpected_packet_id : ℕ → Error
  string_too_long : ℕ → ℕ → Error
  string_beyond_int32 : ℕ → Error
  invalid_string_size : ℕ → Error
  string_not_utf8 bad_framing invalid_json json_not_object : Error
  bad_pong_size pong_mismatch : Error
  port_out_of_range : AddressError → Error
  no_token : ℕ → Error
  missing_port_bytes : Error
  unexpected_next_state : ℕ → Error
  trailing_bytes : ℕ → Error
  wrapped : Step → Error → Error
