-- ===== src/Witnesses/Java.antt =====
-- protocol.go at concrete inputs.
use minecraft_ping.Base.{
  ℕ, ◌+◌, ◌≡◌, ◌≤◌, refl, [], ◌∷◌, ◌++◌, Bytes, length, drop, ok, err, true, Option, none, some,
  arith,
}
use minecraft_ping.Base.Words.{be_value}
use minecraft_ping.Text.{codes}
use minecraft_ping.Text.Utf8.{utf8_valid}
use minecraft_ping.Io.{eof, Stream, read_full}
use minecraft_ping.Java.Errors.{varint_too_long}
use minecraft_ping.Java.VarInt.{read_var_int, read_var_int_from_bytes, write_var_int}
use minecraft_ping.Java.VarInt.RoundTrip.{read_var_int-write_var_int}
use minecraft_ping.Java.Packet.{
  frame, read_packet, write_string, read_string_from_bytes, max_status_json_length,
  validate_string_byte_length,
}
use minecraft_ping.Java.Messages.{
  Json, object, check_status_response, check_pong, packet_id_status_response,
}
use minecraft_ping.Java.Messages.Framing.{
  read_packet-frame, IsFramed, read_packet-IsFramed, read_string-write_string,
}
use minecraft_ping.Java.Messages.Replies.{check_status_response_sound}

abbrev behind : Stream
behind = record { bytes = 9 ∷ []; ends = eof }

read_var_int-write_var_int_example :
    read_var_int (record { bytes = write_var_int 0xffff_ffff ++ (9 ∷ []); ends = eof })
    ≡ ok (0xffff_ffff, behind)
read_var_int-write_var_int_example =
    read_var_int-write_var_int 0xffff_ffff (9 ∷ []) eof (omega arith)

abbrev three_hundred : Stream
three_hundred = record { bytes = 0xac ∷ 2 ∷ 9 ∷ []; ends = eof }

reads_300 : read_var_int three_hundred ≡ ok (300, behind)
unfolding read_var_int
reads_300 = refl

too_long :
    read_var_int (record { bytes = 0x80 ∷ 0xff ∷ 0x80 ∷ 0x80 ∷ 0x80 ∷ 1 ∷ []; ends = eof })
    ≡ err varint_too_long
unfolding read_var_int
too_long = refl

read_packet-frame_example :
    read_packet 10 (record { bytes = frame (4 ∷ 5 ∷ []) ++ (9 ∷ []); ends = eof })
    ≡ ok (4 ∷ 5 ∷ [], behind)
read_packet-frame_example =
    read_packet-frame (4 ∷ 5 ∷ []) (9 ∷ []) eof 10 (omega arith) (omega arith) (omega arith)

abbrev packet : Stream
packet = record { bytes = 2 ∷ 4 ∷ 5 ∷ 9 ∷ []; ends = eof }

reads_packet : read_packet 10 packet ≡ ok (4 ∷ 5 ∷ [], behind)
unfolding read_packet read_var_int read_full
reads_packet = refl

read_packet-IsFramed_example : IsFramed 10 packet (4 ∷ 5 ∷ []) behind
read_packet-IsFramed_example = read_packet-IsFramed 10 packet (4 ∷ 5 ∷ []) behind reads_packet

abbrev word : Bytes
word = codes "mc"

written : write_string word 10 ≡ ok (2 ∷ word)
unfolding write_string write_var_int validate_string_byte_length
written = refl

word-utf8 : utf8_valid word ≡ true
unfolding utf8_valid
word-utf8 = refl

read_string-write_string_example : read_string_from_bytes ((2 ∷ word) ++ (9 ∷ [])) 10 ≡ ok (word, 3)
read_string-write_string_example =
    read_string-write_string word (9 ∷ []) (2 ∷ word) 10 written (omega arith) word-utf8

reads_word : read_string_from_bytes (2 ∷ word) 10 ≡ ok (word, 3)
unfolding read_string_from_bytes read_var_int_from_bytes utf8_valid
reads_word = refl

takes_pong : check_pong 7 (1 ∷ 0 ∷ 0 ∷ 0 ∷ 0 ∷ 0 ∷ 0 ∷ 0 ∷ 7 ∷ []) ≡ ok tt
unfolding check_pong read_var_int_from_bytes be_value
takes_pong = refl

-- A parser that takes one text, the empty object.
abbrev only_braces : Bytes → Option Json
only_braces (c ∷ d ∷ []) = some object
only_braces s = none

abbrev status : Bytes
status = 0 ∷ 2 ∷ codes "{}"

takes_status : check_status_response only_braces status ≡ ok tt
unfolding check_status_response read_var_int_from_bytes read_string_from_bytes utf8_valid
takes_status = refl

check_status_response_sound_example :
    (text : Bytes) × (consumed : ℕ) × (size : ℕ) × (read_var_int_from_bytes status
      ≡ ok (packet_id_status_response, consumed))
    × (read_string_from_bytes (drop consumed status) max_status_json_length ≡ ok (text, size))
    × (utf8_valid text ≡ true)
    × (length text ≤ max_status_json_length)
    × (consumed + size ≡ length status)
    × (only_braces text ≡ some object)
check_status_response_sound_example = check_status_response_sound only_braces status takes_status
