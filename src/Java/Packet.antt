-- ===== src/Java/Packet.antt =====
-- protocol.go: packets and strings.
use minecraft_ping.Base.{
  ℕ, ◌+◌, ◌-◌, ◌*◌, ◌^◌, ◌%◌, not, ◌||◌, ◌++◌, Bytes, length, take, drop, ltb, ◌==◌, if◌then◌else◌,
  Result, ok, err, map_err, ◌>>=◌, ◌>>◌,
}
use minecraft_ping.Text.Utf8.{utf8_valid}
use minecraft_ping.Io.{unexpected_eof, Stream, read_full}
use minecraft_ping.Java.Errors.{
  Error, io, empty_payload, payload_too_large, invalid_packet_length, packet_too_long,
  string_too_long, string_beyond_int32, invalid_string_size, string_not_utf8,
}
use minecraft_ping.Java.Action.{Action, of_result, write}
use minecraft_ping.Java.VarInt.{is_negative, read_var_int, read_var_int_from_bytes, write_var_int}

abbrev pub max_packet_length : ℕ
max_packet_length = 2 * 1024 * 1024

abbrev pub max_status_json_length : ℕ
max_status_json_length = 1024 * 1024

abbrev pub max_handshake_host_byte_size : ℕ
max_handshake_host_byte_size = 255

-- `int32(len(payload))` in front of the payload.
unfoldable pub frame : Bytes → Bytes
frame payload = write_var_int (length payload % 2 ^ 32) ++ payload

unfoldable pub write_packet : Bytes → Action (Unit {0})
write_packet payload =
    if length payload == 0
    then of_result (err empty_payload)
    else if ltb max_packet_length (length payload)
    then of_result (err (payload_too_large (length payload)))
    else write (frame payload)

unfoldable pub read_packet : ℕ → Stream → Result Error (Bytes × Stream)
read_packet max_length r = do
  (packet_length, r') ← read_var_int r
  if is_negative packet_length || packet_length == 0
      then err (invalid_packet_length packet_length)
      else if ltb max_length packet_length
      then err (packet_too_long packet_length max_length)
      else map_err io (read_full packet_length r')

unfoldable pub validate_string_byte_length : ℕ → ℕ → Result Error (Unit {0})
validate_string_byte_length size max_bytes =
    if ltb max_bytes size
    then err (string_too_long size max_bytes)
    else if ltb (2 ^ 31 - 1) size
    then err (string_beyond_int32 size)
    else ok tt

-- The bytes that `writeString` appends to its buffer.
unfoldable pub write_string : Bytes → ℕ → Result Error Bytes
unfolding validate_string_byte_length
write_string value max_bytes = do
  validate_string_byte_length (length value) max_bytes
  ok (write_var_int (length value % 2 ^ 32) ++ value)

-- The string behind its length, and the number of bytes that both take.
unfoldable pub read_string_from_bytes : Bytes → ℕ → Result Error (Bytes × ℕ)
read_string_from_bytes bytes max_bytes = do
  (size, consumed) ← read_var_int_from_bytes bytes
  let total = consumed + size
  let raw = take size (drop consumed bytes)
  if is_negative size
      then err (invalid_string_size size)
      else if ltb max_bytes size
      then err (string_too_long size max_bytes)
      else if ltb (length bytes) total
      then err (io unexpected_eof)
      else if not (utf8_valid raw)
      then err string_not_utf8
      else ok (raw, total)
