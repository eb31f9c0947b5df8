-- ===== src/Bedrock/Probed.antt =====
-- internal/stagingserver/bedrock.go: the probe of the staging server against the server itself.
use minecraft_ping.Base.{
  ◌≤◌, take-all, ℕ, ◌+◌, ◌^◌, ◌%◌, ◌≡◌, ◌<◌, refl, sym, ap, ◌∙◌, Bytes, length, take, drop, get_or,
  ok, arith, bytes_eq_refl, take-append,
}
use minecraft_ping.Base.Words.{
  put_uint16, put_uint64, big_endian, length-be_bytes, big_endian-put_uint64, big_endian-put_uint16,
}
use minecraft_ping.Bedrock.{magic}
use minecraft_ping.Bedrock.RoundTrip.{
  response-lengths, pong_bytes, parse_ping-bytes, after_time, length-pong_bytes, to_magic,
  to_length, to_status, validate-parts,
}
use minecraft_ping.Staging.Bedrock.{
  validate_bedrock_status, encode_bedrock_unconnected_pong, build_bedrock_status_response,
  probe_request, parse_bedrock_pong,
}

probed_parts :
    (payload status : Bytes) (t : ℕ)
    → length payload ≡ 35 + length status
    → get_or payload 0 0 ≡ 0x1c
    → big_endian (take 8 (drop 1 payload)) ≡ t
    → take 16 (drop 17 payload) ≡ magic
    → big_endian (take 2 (drop 33 payload)) ≡ length status
    → drop 35 payload ≡ status
    → validate_bedrock_status status ≡ ok tt
    → parse_bedrock_pong payload t ≡ ok tt
unfolding parse_bedrock_pong
probed_parts payload status t size id time same name text valid =
    rw same (rw name (rw text (ground (arith, bytes_eq_refl magic, valid))))

-- The probe without the buffers of its two readers.
probe_request_whole :
    (ping_time : ℕ) (status : Bytes)
    → ping_time < 2 ^ 64
    → validate_bedrock_status status ≡ ok tt
    → (pong : Bytes) × (build_bedrock_status_response (probe_request ping_time) status ≡ ok pong)
      × (parse_bedrock_pong pong ping_time ≡ ok tt)
unfolding probe_request build_bedrock_status_response encode_bedrock_unconnected_pong
probe_request_whole t status fits valid =
    let short = (validate-parts status valid).1 in
    (
      pong_bytes t status,
      rw (parse_ping-bytes t 1 fits) (rw valid refl),
      probed_parts (pong_bytes t status) status t (length-pong_bytes t status) refl
          (ap big_endian
              (take-append (put_uint64 t) (after_time t status) 8 (sym (length-be_bytes 8 t)))
            ∙ big_endian-put_uint64 t fits)
          (ap (take 16) (to_magic t status))
          (ap (λ (bs : Bytes). big_endian (take 2 bs)) (to_length t status)
            ∙ ap big_endian (
                take-append (put_uint16 (length status % 2 ^ 16)) status 2
                  (sym (length-be_bytes 2 (length status % 2 ^ 16))))
            ∙ big_endian-put_uint16 (length status % 2 ^ 16) (omega arith)
            ∙ (omega arith))
          (to_status t status) valid,
    )

-- Through the buffers of 2048 bytes of both readers: the server answers every request of its own
-- probe, for a status that it accepts at its start and that has no more than 2013 bytes, and a ping
-- time of 64 bits, and the probe accepts the answer.
pub probe_request-answered :
    (ping_time : ℕ) (status : Bytes)
    → ping_time < 2 ^ 64
    → validate_bedrock_status status ≡ ok tt
    → length status ≤ 2013
    → (pong : Bytes) × (build_bedrock_status_response (take 2048 (probe_request ping_time)) status
        ≡ ok pong)
      × (parse_bedrock_pong (take 2048 pong) ping_time ≡ ok tt)
probe_request-answered t status fits valid short =
    let (pong, built, accepts) = probe_request_whole t status fits valid in
    let (size, pong_size) = response-lengths (probe_request t) status pong built in
    (
      pong,
      ap (λ bs. build_bedrock_status_response bs status)
            (take-all 2048 (probe_request t) (omega (arith, size)))
          ∙ built,
      ap (λ bs. parse_bedrock_pong bs t) (take-all 2048 pong (omega (arith, pong_size))) ∙ accepts,
    )
