-- ===== src/Java/Messages/Replies.antt =====
-- The replies that the client (protocol.go) accepts.
use minecraft_ping.Base.{
  ℕ, ◌+◌, ◌^◌, ◌≡◌, ◌<◌, ◌≤◌, refl, ap, ◌∙◌, true, not, [], ◌++◌, Bytes, length, drop, ◌==◌,
  if◌then◌else◌, ok, err, ◌>>=◌, >>=-eq-ok, arith, drop-append, length-append, Option, none, some,
  append-nil,
}
use minecraft_ping.Base.Words.{put_uint64, big_endian, big_endian-put_uint64, length-be_bytes}
use minecraft_ping.Text.Utf8.{utf8_valid}
use minecraft_ping.Java.Errors.{bad_framing}
use minecraft_ping.Java.VarInt.{write_var_int, read_var_int_from_bytes}
use minecraft_ping.Java.VarInt.RoundTrip.{read_var_int_from_bytes-write_var_int}
use minecraft_ping.Java.Packet.{max_status_json_length, read_string_from_bytes, write_string}
use minecraft_ping.Java.Messages.{
  Json, object, other_value, expect_object, check_status_response, check_pong,
  packet_id_status_response, packet_id_pong,
}
use minecraft_ping.Java.Messages.Framing.{read_string-write_string, read_string_sound}

-- The client takes a pong with the token that it sent.
pub check_pong-token :
    (token : ℕ)
    → token < 2 ^ 64
    → check_pong token (write_var_int packet_id_pong ++ put_uint64 token) ≡ ok tt
unfolding check_pong
check_pong-token token h =
    let id = write_var_int packet_id_pong in
    rw (read_var_int_from_bytes-write_var_int packet_id_pong (put_uint64 token) (omega arith)) (
      rw (drop-append id (put_uint64 token) (length id) refl)
        (ground (arith, length-be_bytes 8 token, big_endian-put_uint64 token h)))

-- A pong that the client takes ends in eight bytes that hold the token it expects.
pub check_pong_sound :
    (expected : ℕ) (payload : Bytes)
    → check_pong expected payload ≡ ok tt
    → (consumed : ℕ) × (read_var_int_from_bytes payload ≡ ok (packet_id_pong, consumed))
      × (length (drop consumed payload) ≡ 8)
      × (big_endian (drop consumed payload) ≡ expected)
unfolding check_pong
check_pong_sound expected payload h =
    let ((id, consumed), e, h') = >>=-eq-ok (read_var_int_from_bytes payload) _ h in
    let is_pong : id ≡ packet_id_pong = ground arith in
    (consumed, e ∙ ap (λ (t : ℕ). ok (t, consumed)) is_pong, ground arith, ground arith)

expect_object-ok : (o : Option Json) → expect_object o ≡ ok tt → o ≡ some object
expect_object-ok none h = cc
expect_object-ok (some object) h = refl
expect_object-ok (some other_value) h = cc

module _ (unmarshal : Bytes → Option Json) where
  -- A status response that holds a JSON object, written by `writeString`, is accepted.
  pub check_status_response-object :
      (text bytes : Bytes)
      → write_string text max_status_json_length ≡ ok bytes
      → utf8_valid text ≡ true
      → unmarshal text ≡ some object
      → check_status_response unmarshal (write_var_int packet_id_status_response ++ bytes) ≡ ok tt
  unfolding check_status_response
  check_status_response-object text bytes w utf8 json =
      let id = write_var_int packet_id_status_response in
      let read =
        read_string-write_string text [] bytes max_status_json_length w (omega arith) utf8 in
      rw (read_var_int_from_bytes-write_var_int packet_id_status_response bytes (omega arith)) (
        rw (drop-append id bytes (length id) refl)
          (rw (rw append-nil at read) (ground (arith, length-append id bytes, json))))

  -- An accepted status response is the packet id 0 and one string, valid UTF-8 within the limit,
  -- that holds a JSON object, with no byte behind it.
  pub check_status_response_sound :
      (payload : Bytes)
      → check_status_response unmarshal payload ≡ ok tt
      → (text : Bytes) × (consumed : ℕ) × (size : ℕ) × (read_var_int_from_bytes payload
          ≡ ok (packet_id_status_response, consumed))
        × (read_string_from_bytes (drop consumed payload) max_status_json_length ≡ ok (text, size))
        × (utf8_valid text ≡ true)
        × (length text ≤ max_status_json_length)
        × (consumed + size ≡ length payload)
        × (unmarshal text ≡ some object)
  unfolding check_status_response
  check_status_response_sound payload h =
      let ((id, consumed), e, h') = >>=-eq-ok (read_var_int_from_bytes payload) _ h in
      let is_status : id ≡ packet_id_status_response = ground arith in
      let later : (read_string_from_bytes (drop consumed payload) max_status_json_length
            >>= λ (text, size).
                if not (consumed + size == length payload)
                then err bad_framing
                else expect_object (unmarshal text))
          ≡ ok tt =
        ground arith in
      let ((text, size), r, h'') =
        >>=-eq-ok (read_string_from_bytes (drop consumed payload) max_status_json_length) _ later in
      let sound = read_string_sound (drop consumed payload) max_status_json_length text size r in
      (
        text,
        consumed,
        size,
        e ∙ ap (λ (t : ℕ). ok (t, consumed)) is_status,
        r,
        sound.0,
        sound.1,
        ground arith,
        expect_object-ok (unmarshal text) (ground arith),
      )
