-- ===== src/Bedrock.antt =====
-- bedrock.go: the unconnected ping and pong of the Bedrock edition.
pub mod RoundTrip
pub mod Agreement
pub mod Probe
pub mod Probed
pub mod Resolve
pub mod Search
use minecraft_ping.Base.{
  ℕ, ◌+◌, ◌^◌, ◌%◌, ◌≡◌, refl, Bool, true, false, not, List, [], ◌∷◌, ◌++◌, Bytes, length, take,
  drop, get_or, ltb, ◌==◌, if◌then◌else◌, Option, none, some, Result, ok, err, ◌>>=◌, bytes_eq,
}
use minecraft_ping.Base.Int.{ℤ, pos}
use minecraft_ping.Base.Words.{put_uint64, big_endian}
use minecraft_ping.Text.{codes, split, atoi}
use minecraft_ping.Text.Utf8.{utf8_valid}
use minecraft_ping.Io.{IoError}

pub data Error : Type 0 where
  io : IoError → Error
  no_identifier : ℕ → Error
  pong_too_short : ℕ → Error
  unexpected_packet_id : ℕ → Error
  ping_time_mismatch magic_mismatch : Error
  unexpected_eof : Error
  length_mismatch : ℕ → ℕ → Error
  status_not_utf8 : Error
  too_few_fields : ℕ → Error
  unexpected_brand : Bytes → Error
  invalid_protocol invalid_online invalid_max_players : Bytes → Error
  ping_length : ℕ → Error
  status_empty : Error
  status_too_long : ℕ → Error
  status_prefix : Error

abbrev pub unconnected_ping_packet_id : ℕ
unconnected_ping_packet_id = 0x01

abbrev pub unconnected_pong_packet_id : ℕ
unconnected_pong_packet_id = 0x1c

abbrev pub status_min_fields : ℕ
status_min_fields = 6

abbrev pub magic : Bytes
magic =
    0x00 ∷ 0xff ∷ 0xff ∷ 0x00 ∷ 0xfe ∷ 0xfe ∷ 0xfe ∷ 0xfe ∷ 0xfd ∷ 0xfd ∷ 0xfd ∷ 0xfd ∷ 0x12 ∷ 0x34
    ∷ 0x56 ∷ 0x78 ∷ []

pub record BedrockStatus : Type 0 where
  pub brand : Bytes
  pub motd : Bytes
  pub protocol : ℤ
  pub version : Bytes
  pub players_online : ℤ
  pub players_max : ℤ
  pub server_id : Bytes
  pub map_name : Bytes
  pub game_mode : Bytes

-- On what `read` put into the eight bytes of its buffer.
unfoldable pub random_uint64_with : Result ℕ Bytes → Result Error ℕ
random_uint64_with (err e) = err (no_identifier e)
random_uint64_with (ok buf) = ok (big_endian buf)

-- `now` is `now.UnixMilli()`, from 1970 on.
unfoldable pub build_bedrock_status_request_with : ℕ → Result ℕ Bytes → Result Error (Bytes × ℕ)
unfolding random_uint64_with
build_bedrock_status_request_with now read = do
  client_guid ← random_uint64_with read
  let ping_time = now % 2 ^ 64
  ok (
    (unconnected_ping_packet_id ∷ [])
        ++ (put_uint64 ping_time ++ (magic ++ put_uint64 client_guid)),
    ping_time,
  )

-- `strconv.Atoi` with the error of the field.
abbrev number : (Bytes → Error) → Bytes → Result Error ℤ
number e field = elim (atoi field) [ none ↦ err (e field) | some n ↦ ok n ]

-- The fields from the seventh on are empty where they are missing.
unfoldable pub parse_bedrock_status_text : Bytes → Result Error BedrockStatus
parse_bedrock_status_text status_text =
    let fields = split b';' status_text in
    let field = λ (i : ℕ). get_or fields i [] in
    if ltb (length fields) status_min_fields
    then err (too_few_fields (length fields))
    else if not (bytes_eq (field 0) (codes "MCPE"))
    then err (unexpected_brand (field 0))
    else number invalid_protocol (field 2) >>= λ protocol.
        number invalid_online (field 4) >>= λ online.
        number invalid_max_players (field 5) >>= λ max_players. ok (record {
          brand = field 0;
          motd = field 1;
          protocol = protocol;
          version = field 3;
          players_online = online;
          players_max = max_players;
          server_id = field 6;
          map_name = field 7;
          game_mode = field 8;
        })

unfoldable pub parse_bedrock_status_response : Bytes → ℕ → Result Error BedrockStatus
parse_bedrock_status_response payload expected_ping_time =
    let name_length = big_endian (take 2 (drop 33 payload)) in
    let status_bytes = take name_length (drop 35 payload) in
    if ltb (length payload) 35
    then err (pong_too_short (length payload))
    else if not (get_or payload 0 0 == unconnected_pong_packet_id)
    then err (unexpected_packet_id (get_or payload 0 0))
    else if not (big_endian (take 8 (drop 1 payload)) == expected_ping_time)
    then err ping_time_mismatch
    else if not (bytes_eq (take 16 (drop 17 payload)) magic)
    then err magic_mismatch
    else if ltb (length payload) (35 + name_length)
    then err unexpected_eof
    else if not (length payload == 35 + name_length)
    then err (length_mismatch (length payload) (35 + name_length))
    else if not (utf8_valid status_bytes)
    then err status_not_utf8
    else parse_bedrock_status_text status_bytes
