-- ===== src/Bedrock/Agreement.antt =====
-- The pongs that the client (bedrock.go) accepts, and the staging server's probe.
use minecraft_ping.Base.{
  take-all, ℕ, zero, suc, ◌+◌, ◌≡◌, ◌<◌, ◌≤◌, refl, ap, ◌∙◌, true, false, [], ◌∷◌, ◌++◌, Bytes,
  length, take, drop, get_or, ltb, ◌==◌, ok, bytes_eq, bytes_eq_iff, arith, length-drop, All,
  IsByte, Bool-cases, inl, inr,
}
use minecraft_ping.Base.Words.{be_value, big_endian}
use minecraft_ping.Text.{codes, split, split_first, has_prefix}
use minecraft_ping.Text.Utf8.{utf8_valid}
use minecraft_ping.Bedrock.{
  magic, unconnected_pong_packet_id, BedrockStatus, parse_bedrock_status_text,
  parse_bedrock_status_response,
}
use minecraft_ping.Staging.Bedrock.{
  validate_bedrock_status, max_bedrock_status_length, parse_bedrock_pong,
}

-- A text with a separator is its first field, the separator and a rest.
split_first-starts :
    (sep : ℕ) (s : Bytes)
    → 0 < length (split_first sep s).1
    → (rest : Bytes) × (s ≡ (split_first sep s).0 ++ (sep ∷ rest))
unfolding split_first
split_first-starts sep [] h = absurd (omega arith)
split_first-starts sep (c ∷ s) h = elim (Bool-cases (c == sep)) [
  | inl same ↦ let is_sep : c ≡ sep = ground arith in (s, rw same (ap (λ (x : ℕ). x ∷ s) is_sep))
  | inr other ↦
      let longer : 0 < length (split_first sep s).1 = rw other at h in
      let (rest, e) = split_first-starts sep s longer in
      (rest, rw other (ap (λ (xs : Bytes). c ∷ xs) e))
]

has_prefix-append : (s rest : Bytes) → has_prefix (s ++ rest) s ≡ true
unfolding has_prefix
has_prefix-append [] rest = refl
has_prefix-append (c ∷ s) rest = ground (arith, has_prefix-append s rest)

-- A status text that the client accepts has the brand in front and a separator behind it.
parse_text-brand :
    (text : Bytes) (s : BedrockStatus)
    → parse_bedrock_status_text text ≡ ok s
    → has_prefix text (codes "MCPE;") ≡ true
unfolding parse_bedrock_status_text split
parse_text-brand text s h =
    let fields = (split_first b';' text).0 ∷ (split_first b';' text).1 in
    let enough : (ltb (length fields) 6 ≡ false) = ground arith in
    let brand : (bytes_eq (split_first b';' text).0 (codes "MCPE") ≡ true) = ground arith in
    let is_brand = (bytes_eq_iff (split_first b';' text).0 (codes "MCPE")).0 brand in
    let (rest, e) = split_first-starts b';' text (ground arith) in
    let e' : text ≡ codes "MCPE;" ++ rest = e ∙ ap (λ (f : Bytes). f ++ (b';' ∷ rest)) is_brand in
    ap (λ (t : Bytes). has_prefix t (codes "MCPE;")) e' ∙ has_prefix-append (codes "MCPE;") rest

two_bytes : (bs : Bytes) → All IsByte bs → big_endian (take 2 bs) ≤ max_bedrock_status_length
unfolding be_value
two_bytes [] h = omega arith
two_bytes (a ∷ []) h = omega (arith, h.0)
two_bytes (a ∷ b ∷ bs) h = omega (arith, h.0, h.1.0)

All-drop : (k : ℕ) (bs : Bytes) → All IsByte bs → All IsByte (drop k bs)
All-drop zero bs h = h
All-drop (suc k) [] h = h
All-drop (suc k) (b ∷ bs) h = All-drop k bs h.1

prefix_not_empty :
    (text : Bytes) → has_prefix text (codes "MCPE;") ≡ true → bytes_eq text [] ≡ false
unfolding has_prefix bytes_eq
prefix_not_empty [] h = ground arith
prefix_not_empty (c ∷ text) h = refl

text-is_valid :
    (text : Bytes) (s : BedrockStatus)
    → parse_bedrock_status_text text ≡ ok s
    → utf8_valid text ≡ true
    → length text ≤ max_bedrock_status_length
    → validate_bedrock_status text ≡ ok tt
unfolding validate_bedrock_status
text-is_valid text s h utf8 short =
    let brand = parse_text-brand text s h in
    let some_text = prefix_not_empty text brand in rw some_text (ground arith)

-- What the client has checked of a pong that it accepts.
pub record IsPong (payload : Bytes) (t : ℕ) : Type 0 where
  pub at_least : 35 ≤ length payload
  pub packet_id : get_or payload 0 0 ≡ unconnected_pong_packet_id
  pub ping_time : big_endian (take 8 (drop 1 payload)) ≡ t
  pub magic_bytes : bytes_eq (take 16 (drop 17 payload)) magic ≡ true
  pub name_length : length payload ≡ 35 + big_endian (take 2 (drop 33 payload))
  pub utf8 : utf8_valid (drop 35 payload) ≡ true

-- A payload that the client accepts for a ping time is a pong: packet id, that ping time, the
-- magic, and a length that is the number of the bytes behind it, which are valid UTF-8 and parse
-- to the status returned.
pub parse_bedrock_status_response-IsPong :
    (payload : Bytes) (t : ℕ) (s : BedrockStatus)
    → parse_bedrock_status_response payload t ≡ ok s
    → IsPong payload t × (parse_bedrock_status_text (drop 35 payload) ≡ ok s)
unfolding parse_bedrock_status_response
parse_bedrock_status_response-IsPong payload t s h =
    let n = big_endian (take 2 (drop 33 payload)) in
    let size : (length payload ≡ 35 + n) = ground arith in
    let whole : take n (drop 35 payload) ≡ drop 35 payload =
      take-all n (drop 35 payload) (omega (arith, length-drop 35 payload)) in
    let h' = rw whole at h in
    (
      record {
        at_least = ground arith;
        packet_id = ground arith;
        ping_time = ground arith;
        magic_bytes = ground arith;
        name_length = size;
        utf8 = ground arith;
      },
      ground arith,
    )

-- Every pong of bytes that the client accepts is accepted by the probe of the staging server too.
pub client_accepts-probe_accepts :
    (payload : Bytes) (t : ℕ) (s : BedrockStatus)
    → All IsByte payload
    → parse_bedrock_status_response payload t ≡ ok s
    → parse_bedrock_pong payload t ≡ ok tt
unfolding parse_bedrock_pong
client_accepts-probe_accepts payload t s bytes h =
    let (pong, parsed) = parse_bedrock_status_response-IsPong payload t s h in
    let short = two_bytes (drop 33 payload) (All-drop 33 payload bytes) in
    let valid =
      text-is_valid (drop 35 payload) s parsed pong.utf8
        (omega (arith, pong.name_length, short, length-drop 35 payload)) in
    ground (
      arith, pong.at_least, pong.packet_id, pong.ping_time, pong.magic_bytes, pong.name_length,
      valid,
    )
