-- ===== src/Bedrock/RoundTrip.antt =====
-- The pings and pongs of bedrock.go, at the client and at the staging server.
use minecraft_ping.Base.{
  >>=-eq-ok, ℕ, ◌+◌, ◌^◌, ◌%◌, ◌≡◌, ◌<◌, ◌≤◌, refl, sym, ap, ◌∙◌, true, [], ◌∷◌, ◌++◌, Bytes,
  length, take, drop, get_or, ok, bytes_eq_refl, arith, take-all, take-append, drop-append,
  drop_behind, length-append,
}
use minecraft_ping.Base.Words.{
  put_uint16, put_uint64, big_endian, length-be_bytes, big_endian-put_uint64, big_endian-put_uint16,
}
use minecraft_ping.Text.Utf8.{utf8_valid}
use minecraft_ping.Bedrock.{
  magic, build_bedrock_status_request_with, random_uint64_with, parse_bedrock_status_text,
  parse_bedrock_status_response,
}
use minecraft_ping.Staging.Bedrock.{
  parse_bedrock_unconnected_ping, validate_bedrock_status, parse_bedrock_unconnected_ping,
  encode_bedrock_unconnected_pong, build_bedrock_status_response, max_bedrock_status_length,
}

abbrev pub ping_bytes : ℕ → ℕ → Bytes
ping_bytes t guid = (1 ∷ []) ++ (put_uint64 t ++ (magic ++ put_uint64 guid))

abbrev pub pong_bytes : ℕ → Bytes → Bytes
pong_bytes t status =
    (0x1c ∷ [])
    ++ (put_uint64 t
        ++ (put_uint64 1 ++ (magic ++ (put_uint16 (length status % 2 ^ 16) ++ status))))

-- A payload is judged by its parts.
ping_parts :
    (payload : Bytes) (t : ℕ)
    → length payload ≡ 33
    → get_or payload 0 0 ≡ 1
    → take 16 (drop 9 payload) ≡ magic
    → big_endian (take 8 (drop 1 payload)) ≡ t
    → parse_bedrock_unconnected_ping payload ≡ ok t
unfolding parse_bedrock_unconnected_ping
ping_parts payload t size id same time = rw same (ground (arith, bytes_eq_refl magic))

pong_parts :
    (payload status : Bytes) (t : ℕ)
    → length payload ≡ 35 + length status
    → get_or payload 0 0 ≡ 0x1c
    → big_endian (take 8 (drop 1 payload)) ≡ t
    → take 16 (drop 17 payload) ≡ magic
    → big_endian (take 2 (drop 33 payload)) ≡ length status
    → take (length status) (drop 35 payload) ≡ status
    → utf8_valid status ≡ true
    → parse_bedrock_status_response payload t ≡ parse_bedrock_status_text status
unfolding parse_bedrock_status_response
pong_parts payload status t size id time same name text utf8 =
    rw same (rw name (rw text (ground (arith, bytes_eq_refl magic))))

length-ping_bytes : (t guid : ℕ) → length (ping_bytes t guid) ≡ 33
length-ping_bytes t guid = omega (
  arith,
  length-be_bytes 8 t,
  length-be_bytes 8 guid,
  length-append (put_uint64 t) (magic ++ put_uint64 guid),
)

-- The server reads the ping time out of a ping.
pub parse_ping-bytes :
    (t guid : ℕ) → t < 2 ^ 64 → parse_bedrock_unconnected_ping (ping_bytes t guid) ≡ ok t
parse_ping-bytes t guid fits =
    ping_parts (ping_bytes t guid) t (length-ping_bytes t guid) refl
      (ap (take 16)
        (drop-append (put_uint64 t) (magic ++ put_uint64 guid) 8 (sym (length-be_bytes 8 t))))
      (ap big_endian
          (take-append (put_uint64 t) (magic ++ put_uint64 guid) 8 (sym (length-be_bytes 8 t)))
        ∙ big_endian-put_uint64 t fits)

module _ (t : ℕ) (status : Bytes) where
  abbrev pub after_length : Bytes
  after_length = put_uint16 (length status % 2 ^ 16) ++ status

  abbrev pub after_guid : Bytes
  after_guid = magic ++ after_length

  abbrev pub after_time : Bytes
  after_time = put_uint64 1 ++ after_guid

  pub length-pong_bytes : length (pong_bytes t status) ≡ 35 + length status
  length-pong_bytes = omega (
    arith,
    length-be_bytes 8 t,
    length-be_bytes 8 1,
    length-be_bytes 2 (length status % 2 ^ 16),
    length-append (put_uint16 (length status % 2 ^ 16)) status,
    length-append (put_uint64 1) after_guid,
    length-append (put_uint64 t) after_time,
  )

  pub to_magic : drop 17 (pong_bytes t status) ≡ after_guid
  to_magic =
      drop_behind (put_uint64 t) after_time 16 8 (omega (arith, length-be_bytes 8 t))
      ∙ drop-append (put_uint64 1) after_guid 8 (sym (length-be_bytes 8 1))

  pub to_length : drop 33 (pong_bytes t status) ≡ after_length
  to_length =
      drop_behind (put_uint64 t) after_time 32 24 (omega (arith, length-be_bytes 8 t))
      ∙ drop_behind (put_uint64 1) after_guid 24 16 (omega (arith, length-be_bytes 8 1))

  pub to_status : drop 35 (pong_bytes t status) ≡ status
  to_status =
      drop_behind (put_uint64 t) after_time 34 26 (omega (arith, length-be_bytes 8 t))
      ∙ drop_behind (put_uint64 1) after_guid 26 18 (omega (arith, length-be_bytes 8 1))
      ∙ drop-append (put_uint16 (length status % 2 ^ 16)) status 2
          (sym (length-be_bytes 2 (length status % 2 ^ 16)))

  parse_pong-bytes :
      t < 2 ^ 64
      → length status ≤ max_bedrock_status_length
      → utf8_valid status ≡ true
      → parse_bedrock_status_response (pong_bytes t status) t ≡ parse_bedrock_status_text status
  parse_pong-bytes fits short utf8 =
      pong_parts (pong_bytes t status) status t length-pong_bytes refl
        (ap big_endian (take-append (put_uint64 t) after_time 8 (sym (length-be_bytes 8 t)))
          ∙ big_endian-put_uint64 t fits)
        (ap (take 16) to_magic)
        (ap (λ (bs : Bytes). big_endian (take 2 bs)) to_length
          ∙ ap big_endian (
              take-append (put_uint16 (length status % 2 ^ 16)) status 2
                (sym (length-be_bytes 2 (length status % 2 ^ 16))))
          ∙ big_endian-put_uint16 (length status % 2 ^ 16) (omega arith)
          ∙ (omega arith))
        (ap (take (length status)) to_status ∙ take-all (length status) status (omega arith)) utf8

pub validate-parts :
    (status : Bytes)
    → validate_bedrock_status status ≡ ok tt
    → (utf8_valid status ≡ true) × (length status ≤ max_bedrock_status_length)
unfolding validate_bedrock_status
validate-parts status h = ground arith

encoded-length :
    (t : ℕ) (status pong : Bytes)
    → encode_bedrock_unconnected_pong t status ≡ ok pong
    → length pong ≡ 35 + length status
unfolding encode_bedrock_unconnected_pong
encoded-length t status pong h =
    let (_, _, h1) = >>=-eq-ok (validate_bedrock_status status) _ h in
    let same : pong_bytes t status ≡ pong = ground arith in
    omega (arith, ap length same, length-pong_bytes t status)

-- The sizes of a ping that the staging server answers, and of its pong.
pub response-lengths :
    (request status pong : Bytes)
    → build_bedrock_status_response request status ≡ ok pong
    → (length request ≡ 33) × (length pong ≡ 35 + length status)
unfolding build_bedrock_status_response parse_bedrock_unconnected_ping
response-lengths request status pong h =
    let (t, read, h1) = >>=-eq-ok (parse_bedrock_unconnected_ping request) _ h in
    (ground arith, encoded-length t status pong h1)

-- The exchange without the buffers of its two readers.
pub bedrock_exchange_whole :
    (now : ℕ) (guid_bytes status request : Bytes) (ping_time : ℕ)
    → build_bedrock_status_request_with now (ok guid_bytes) ≡ ok (request, ping_time)
    → validate_bedrock_status status ≡ ok tt
    → (pong : Bytes) × (build_bedrock_status_response request status ≡ ok pong)
      × (parse_bedrock_status_response pong ping_time ≡ parse_bedrock_status_text status)
unfolding build_bedrock_status_request_with build_bedrock_status_response
    encode_bedrock_unconnected_pong random_uint64_with
bedrock_exchange_whole now guid_bytes status request ping_time built valid =
    let t = now % 2 ^ 64 in
    let is_request : ping_bytes t (big_endian guid_bytes) ≡ request = ground arith in
    let is_time : t ≡ ping_time = ground arith in
    let parts = validate-parts status valid in
    (
      pong_bytes t status,
      rw (sym is_request)
          (rw (parse_ping-bytes t (big_endian guid_bytes) (omega arith)) (rw valid refl)),
      ap (parse_bedrock_status_response (pong_bytes t status)) (sym is_time)
          ∙ parse_pong-bytes t status (omega arith) parts.1 parts.0,
    )

-- The whole Bedrock exchange through the buffers of 2048 bytes of both readers: whatever the client's
-- clock and random source say, the staging server answers the client's ping with a pong, for a
-- status that it accepts at its start and that has no more than 2013 bytes, and the client reads
-- that pong as the status text itself.
pub bedrock_exchange-completes :
    (now : ℕ) (guid_bytes status request : Bytes) (ping_time : ℕ)
    → build_bedrock_status_request_with now (ok guid_bytes) ≡ ok (request, ping_time)
    → validate_bedrock_status status ≡ ok tt
    → length status ≤ 2013
    → (pong : Bytes) × (build_bedrock_status_response (take 2048 request) status ≡ ok pong)
      × (parse_bedrock_status_response (take 2048 pong) ping_time
          ≡ parse_bedrock_status_text status)
bedrock_exchange-completes now guid_bytes status request ping_time asked valid short =
    let (pong, built, reads) =
      bedrock_exchange_whole now guid_bytes status request ping_time asked valid in
    let (size, pong_size) = response-lengths request status pong built in
    (
      pong,
      ap (λ bs. build_bedrock_status_response bs status)
            (take-all 2048 request (omega (arith, size)))
          ∙ built,
      ap (λ bs. parse_bedrock_status_response bs ping_time)
            (take-all 2048 pong (omega (arith, pong_size)))
          ∙ reads,
    )
