-- ===== src/Staging/Server/Exchange.antt =====
-- The messages of the client and of the probe as the staging server (server.go) reads them.
use minecraft_ping.Base.{
  ℕ, ◌+◌, ◌^◌, ◌≡◌, ◌<◌, refl, sym, ap, ◌∙◌, true, [], ◌∷◌, ◌++◌, Bytes, length, drop, ok, map_err,
  arith, drop-append, drop_behind, length-append, append-nil,
}
use minecraft_ping.Base.Words.{put_uint64, big_endian-put_uint64, length-be_bytes}
use minecraft_ping.Text.Utf8.{utf8_valid}
use minecraft_ping.Java.VarInt.{write_var_int, IsWord32}
use minecraft_ping.Java.VarInt.RoundTrip.{read_var_int_from_bytes-write_var_int}
use minecraft_ping.Java.Packet
use minecraft_ping.Java.Messages.Framing.{read_string-write_string}
use minecraft_ping.Staging.Codec.{
  read_var_int_from_bytes, read_string_from_bytes, max_handshake_host_byte_size,
}
use minecraft_ping.Staging.Codec.Agreement.{
  read_var_int_from_bytes-agrees, read_string_from_bytes-agrees, unexpected,
}
use minecraft_ping.Staging.Server.{
  check_handshake, check_status_request, check_ping, packet_id_handshake, status_protocol_version,
  next_state_status, packet_id_ping,
}

-- The server's readers on what the client's writers wrote.
pub reads_var_int :
    (v : ℕ) (rest : Bytes)
    → IsWord32 v
    → read_var_int_from_bytes (write_var_int v ++ rest) ≡ ok (v, length (write_var_int v))
reads_var_int v rest h =
    read_var_int_from_bytes-agrees (write_var_int v ++ rest)
    ∙ ap (map_err unexpected) (read_var_int_from_bytes-write_var_int v rest h)

pub reads_last_var_int :
    (v : ℕ)
    → IsWord32 v
    → read_var_int_from_bytes (write_var_int v) ≡ ok (v, length (write_var_int v))
reads_last_var_int v h = rw append-nil at (reads_var_int v [] h)

pub reads_string :
    (value rest bytes : Bytes) (max_bytes : ℕ)
    → Packet.write_string value max_bytes ≡ ok bytes
    → max_bytes < 2 ^ 31
    → utf8_valid value ≡ true
    → read_string_from_bytes (bytes ++ rest) max_bytes ≡ ok (value, length bytes)
reads_string value rest bytes max_bytes w word utf8 =
    read_string_from_bytes-agrees (bytes ++ rest) max_bytes
    ∙ ap (map_err unexpected) (read_string-write_string value rest bytes max_bytes w word utf8)

pub check_ping-token :
    (token : ℕ)
    → token < 2 ^ 64
    → check_ping (write_var_int packet_id_ping ++ put_uint64 token) ≡ ok token
unfolding check_ping
check_ping-token token h =
    let id = write_var_int packet_id_ping in
    rw (reads_var_int packet_id_ping (put_uint64 token) (omega arith)) (
      rw (drop-append id (put_uint64 token) (length id) refl)
        (ground (arith, length-be_bytes 8 token, big_endian-put_uint64 token h)))

pub check_status_request-zero : check_status_request (0 ∷ []) ≡ ok tt
unfolding check_status_request read_var_int_from_bytes
check_status_request-zero = refl

-- A handshake whose host `writeString` of the client accepted passes the server's checks.
pub check_handshake-written :
    (host text port : Bytes)
    → Packet.write_string host max_handshake_host_byte_size ≡ ok text
    → utf8_valid host ≡ true
    → length port ≡ 2
    → check_handshake (
        write_var_int packet_id_handshake
        ++ (write_var_int status_protocol_version
            ++ (text ++ (port ++ write_var_int next_state_status))))
      ≡ ok tt
unfolding check_handshake
check_handshake-written host text port w utf8 two =
    rw (reads_var_int packet_id_handshake at_version (omega arith)) (
      rw (drop-append id at_version (length id) refl) (
        rw (reads_var_int status_protocol_version at_text (omega arith)) (
          rw to_text (
            rw (reads_string host at_port text max_handshake_host_byte_size w (omega arith) utf8) (
              rw to_port (
                rw to_state (
                  rw (reads_last_var_int next_state_status (omega arith)) (
                    ground (
                      arith,
                      two,
                      length-append port state,
                      length-append id at_version,
                      length-append version at_text,
                      length-append text at_port,
                    )))))))))
  where
    id : Bytes
    id = write_var_int packet_id_handshake

    version : Bytes
    version = write_var_int status_protocol_version

    state : Bytes
    state = write_var_int next_state_status

    at_port : Bytes
    at_port = port ++ state

    at_text : Bytes
    at_text = text ++ at_port

    at_version : Bytes
    at_version = version ++ at_text

    n : ℕ
    n = length id + length version

    to_text : drop n (id ++ at_version) ≡ at_text
    to_text =
        drop_behind id at_version n (length version) refl
        ∙ drop-append version at_text (length version) refl

    to_port : drop (n + length text) (id ++ at_version) ≡ at_port
    to_port =
        drop_behind id at_version (n + length text) (length version + length text) (omega arith)
        ∙ drop_behind version at_text (length version + length text) (length text) refl
        ∙ drop-append text at_port (length text) refl

    to_state : drop (n + length text + 2) (id ++ at_version) ≡ state
    to_state =
        drop_behind id at_version (n + length text + 2) (length version + length text + 2)
          (omega arith)
        ∙ drop_behind version at_text (length version + length text + 2) (length text + 2)
            (omega arith)
        ∙ drop_behind text at_port (length text + 2) 2 refl
        ∙ drop-append port state 2 (sym two)
