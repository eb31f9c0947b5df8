-- ===== src/Staging/Codec.antt =====
-- internal/stagingserver/server.go: packets, variable-length integers and strings, as the server
-- writes and reads them.
pub mod Agreement
use Prim.Native.Nat.{bit_and, bit_or}
use mathlib.Core.WellFounded.{Acc}
use minecraft_ping.Base.{
  ℕ, zero, suc, ◌+◌, ◌-◌, ◌*◌, ◌/◌, ◌%◌, ◌^◌, ◌<◌, ◌≤◌, ◌≡◌, ◌≢◌, refl, Bool, true, false, not,
  ◌||◌, List, [], ◌∷◌, ◌++◌, arith, leb, ltb, ◌==◌, if◌then◌else◌, Bytes, length, take, drop,
  Result, ok, err, lt_wf, dite, ℕ_discrete, ◌>>=◌, ◌>>◌, map_err,
}
use minecraft_ping.Text.Utf8.{utf8_valid}
use minecraft_ping.Io.{IoError, unexpected_eof, Stream, read_full}
use minecraft_ping.Java.Errors.{
  Error, io, varint_too_long, empty_payload, payload_too_large, invalid_packet_length,
  packet_too_long, invalid_string_size, string_too_long, string_not_utf8,
}
use minecraft_ping.Java.Action.{Action, of_result, write}
use minecraft_ping.Java.VarInt.{IsWord32, is_negative}

abbrev pub max_packet_length : ℕ
max_packet_length = 2 * 1024 * 1024

abbrev pub max_status_json_length : ℕ
max_status_json_length = 1024 * 1024

abbrev pub max_handshake_host_byte_size : ℕ
max_handshake_host_byte_size = 255

abbrev pub max_var_int_bytes : ℕ
max_var_int_bytes = 5

-- `result |= value << (7 * numRead)` with `value := int32(b & 0x7F)`
abbrev next_result : ℕ → ℕ → ℕ → ℕ
next_result result b num_read = bit_or result (bit_and b 0x7f * 2 ^ (7 * num_read) % 2 ^ 32)

-- `readVarInt` over the bytes that the reader has yet to deliver.
unfoldable pub read_var_int_loop : Bytes → IoError → ℕ → ℕ → Result Error (ℕ × Stream)
read_var_int_loop [] ends num_read result =
    if leb max_var_int_bytes num_read then err varint_too_long else err (io ends)
read_var_int_loop (b ∷ bs) ends num_read result =
    let result' = next_result result b num_read in
    let rest = read_var_int_loop bs ends (num_read + 1) result' in
    if leb max_var_int_bytes num_read
    then err varint_too_long
    else if bit_and b 0x80 == 0
    then ok (result', record { bytes = bs; ends = ends })
    else rest

unfoldable pub read_var_int : Stream → Result Error (ℕ × Stream)
unfolding read_var_int_loop
read_var_int r = read_var_int_loop r.bytes r.ends 0 0

-- `readVarIntFromBytes` indexes its slice: the list is `payload[numRead:]`.
unfoldable pub read_from_bytes_loop : Bytes → ℕ → ℕ → Result Error (ℕ × ℕ)
read_from_bytes_loop [] num_read result =
    if leb max_var_int_bytes num_read then err varint_too_long else err (io unexpected_eof)
read_from_bytes_loop (b ∷ bs) num_read result =
    let result' = next_result result b num_read in
    let rest = read_from_bytes_loop bs (num_read + 1) result' in
    if leb max_var_int_bytes num_read
    then err varint_too_long
    else if bit_and b 0x80 == 0
    then ok (result', num_read + 1)
    else rest

unfoldable pub read_var_int_from_bytes : Bytes → Result Error (ℕ × ℕ)
unfolding read_from_bytes_loop
read_var_int_from_bytes payload = read_from_bytes_loop payload 0 0

pub quotient_shrinks : (v : ℕ) → v / 128 ≢ 0 → v / 128 < v
quotient_shrinks v h = omega arith

-- The loop of `writeVarInt`: it ends once the shifted value is 0.
unfoldable pub write_var_int_loop : (v : ℕ) → Acc ◌<◌ v → Bytes
unfolding ℕ_discrete
write_var_int_loop v (Acc.intro _ smaller) =
    let temp = bit_and v 0x7f in
    dite (ℕ_discrete (v / 128) 0) (λ _. temp ∷ [])
      (λ more.
        bit_or temp 0x80 ∷ write_var_int_loop (v / 128) (smaller _ (quotient_shrinks v more)))

unfoldable pub write_var_int : ℕ → Bytes
unfolding write_var_int_loop lt_wf
write_var_int value = write_var_int_loop value (lt_wf.apply value)

unfoldable pub frame : Bytes → Bytes
frame payload = write_var_int (length payload % 2 ^ 32) ++ payload

unfoldable pub write_packet : Bytes → Action (Unit {0})
write_packet payload =
    if length payload == 0
    then of_result (err empty_payload)
    else if ltb max_packet_length (length payload)
    then of_result (err (payload_too_large (length payload)))
    else write (frame payload)

unfoldable pub read_packet : ℕ → Stream → Result Error (Bytes × Stream)
read_packet max_length r = do
  (packet_length, r') ← read_var_int r
  if is_negative packet_length || packet_length == 0
      then err (invalid_packet_length packet_length)
      else if ltb max_length packet_length
      then err (packet_too_long packet_length max_length)
      else map_err io (read_full packet_length r')

unfoldable pub read_string_from_bytes : Bytes → ℕ → Result Error (Bytes × ℕ)
read_string_from_bytes payload max_bytes = do
  (string_length, consumed) ← read_var_int_from_bytes payload
  let end = consumed + string_length
  let value = take string_length (drop consumed payload)
  if is_negative string_length
      then err (invalid_string_size string_length)
      else if ltb max_bytes string_length
      then err (string_too_long string_length max_bytes)
      else if ltb (length payload) end
      then err (io unexpected_eof)
      else if not (utf8_valid value)
      then err string_not_utf8
      else ok (value, end)

-- The bytes that `writeString` writes to its buffer. Unlike the client's it refuses what is not
-- valid UTF-8.
unfoldable pub write_string : Bytes → ℕ → Result Error Bytes
write_string value max_bytes =
    if not (utf8_valid value)
    then err string_not_utf8
    else if ltb max_bytes (length value)
    then err (string_too_long (length value) max_bytes)
    else ok (write_var_int (length value % 2 ^ 32) ++ value)
