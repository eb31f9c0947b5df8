-- ===== src/Java/Messages/Framing.antt =====
-- Packets and strings of protocol.go: what is written is read back, and what is read is bounded.
use mathlib.Core.Path.{ap₂}
use minecraft_ping.Base.{
  ◌-◌, take, drop, ℕ, ◌+◌, ◌^◌, ◌%◌, ◌≡◌, ◌<◌, ◌≤◌, refl, sym, ap, ◌∙◌, true, not, ◌||◌, ◌++◌,
  Bytes, length, ltb, ◌==◌, if◌then◌else◌, ok, err, map_err, >>=-eq-ok, arith, append_assoc,
  take-append, drop-append, length-append, length-take, take-append-drop,
}
use minecraft_ping.Text.Utf8.{utf8_valid}
use minecraft_ping.Io.{IoError, unexpected_eof, Stream, read_full}
use minecraft_ping.Java.Errors.{
  io, invalid_packet_length, packet_too_long, invalid_string_size, string_too_long, string_not_utf8,
}
use minecraft_ping.Java.VarInt.{is_negative, read_var_int_from_bytes, read_var_int, write_var_int}
use minecraft_ping.Java.VarInt.RoundTrip.{
  read_var_int-write_var_int, read_var_int_from_bytes-write_var_int,
}
use minecraft_ping.Java.VarInt.Reading.{read_var_int-Takes}
use minecraft_ping.Java.Packet.{frame, read_packet, write_string, read_string_from_bytes}

read_full-append :
    (payload rest : Bytes) (ends : IoError) (n : ℕ)
    → n ≡ length payload
    → read_full n (record { bytes = payload ++ rest; ends = ends })
      ≡ ok (payload, record { bytes = rest; ends = ends })
unfolding read_full
read_full-append payload rest ends n e =
    ground (
      arith,
      length-append payload rest,
      take-append payload rest n e,
      drop-append payload rest n e,
    )

-- `readPacket` returns the payload that `writePacket` framed and leaves what follows it, for
-- payloads that are not empty and within the limit.
pub read_packet-frame :
    (payload rest : Bytes) (ends : IoError) (max_length : ℕ)
    → 0 < length payload
    → length payload ≤ max_length
    → max_length < 2 ^ 31
    → read_packet max_length (record { bytes = frame payload ++ rest; ends = ends })
      ≡ ok (payload, record { bytes = rest; ends = ends })
unfolding read_packet frame
read_packet-frame payload rest ends max_length lo hi word =
    let e : length payload % 2 ^ 32 ≡ length payload = omega arith in
    rw e (
      rw (append_assoc (write_var_int (length payload)) payload rest) (
        rw (read_var_int-write_var_int (length payload) (payload ++ rest) ends (omega arith))
          (ground (arith, read_full-append payload rest ends (length payload) refl))))

read_full-take :
    (n : ℕ) (r : Stream) {p : Bytes} {s : Stream}
    → read_full n r ≡ ok (p, s)
    → (length p ≡ n) × (r.bytes ≡ p ++ s.bytes) × (s.ends ≡ r.ends)
unfolding read_full
read_full-take n r h = (
  ground (arith, length-take n r.bytes),
  ground (arith, take-append-drop n r.bytes),
  ground arith,
)

packet_in_bounds :
    (max_length n : ℕ) (r : Stream) {p : Bytes} {s : Stream}
    → (if is_negative n || n == 0
        then err (invalid_packet_length n)
        else if ltb max_length n
        then err (packet_too_long n max_length)
        else map_err io (read_full n r))
      ≡ ok (p, s)
    → (0 < n) × (n ≤ max_length) × (read_full n r ≡ ok (p, s))
packet_in_bounds max_length n r h = (ground arith, ground arith, ground arith)

-- What `readPacket` took from its reader: a header of one to five bytes, which is the length of the
-- payload to `readVarInt`, and the payload; the reader is left with what is behind them.
pub record IsFramed (max_length : ℕ) (r : Stream) (p : Bytes) (s : Stream) : Type 0 where
  pub header : Bytes
  pub splits : r.bytes ≡ header ++ (p ++ s.bytes)
  pub some_header : 1 ≤ length header
  pub short_header : length header ≤ 5
  pub is_length : read_var_int r ≡ ok (length p, record { bytes = p ++ s.bytes; ends = s.ends })
  pub same_end : s.ends ≡ r.ends
  pub some_byte : 0 < length p
  pub in_limit : length p ≤ max_length

-- The bytes of a packet that `readPacket` accepts are a header of one to five bytes, which
-- `readVarInt` reads as the length of the payload, and then the payload that it returns, of one byte
-- at least and of the limit at most; what follows them is left to the reader.
pub read_packet-IsFramed :
    (max_length : ℕ) (r : Stream) (p : Bytes) (s : Stream)
    → read_packet max_length r ≡ ok (p, s)
    → IsFramed max_length r p s
unfolding read_packet
read_packet-IsFramed max_length r p s h =
    let ((n, r'), e, h') = >>=-eq-ok (read_var_int r) _ h in
    let (lo, hi, full) = packet_in_bounds max_length n r' h' in
    let (exact, splits, ends) = read_full-take n r' full in
    let t = read_var_int-Takes r n r' e in
    let front = take (length r.bytes - length r'.bytes) r.bytes in
    let whole : r.bytes ≡ front ++ r'.bytes =
      sym (take-append-drop (length r.bytes - length r'.bytes) r.bytes)
      ∙ ap (λ bs. front ++ bs) (sym t.behind) in
    let size = ap length whole ∙ length-append front r'.bytes in
    let left : r' ≡ record { bytes = p ++ s.bytes; ends = s.ends } =
      λ i. record { bytes = splits i; ends = sym ends i } in
    record {
      header = front;
      splits = whole ∙ ap (λ bs. front ++ bs) splits;
      some_header = omega (arith, size, t.some_byte);
      short_header = omega (arith, size, t.at_most);
      is_length = e ∙ ap₂ (λ m q. ok (m, q)) (sym exact) left;
      same_end = ends ∙ t.same_end;
      some_byte = omega (arith, exact, lo);
      in_limit = omega (arith, exact, hi);
    }

string_checks :
    (raw : Bytes) (answer : Bytes × ℕ) (size consumed total max_bytes whole : ℕ)
    → size ≤ max_bytes
    → max_bytes < 2 ^ 31
    → total ≡ consumed + size
    → total ≤ whole
    → utf8_valid raw ≡ true
    → (if is_negative size
        then err (invalid_string_size size)
        else if ltb max_bytes size
        then err (string_too_long size max_bytes)
        else if ltb whole total
        then err (io unexpected_eof)
        else if not (utf8_valid raw)
        then err string_not_utf8
        else ok answer)
      ≡ ok answer
string_checks raw answer size consumed total max_bytes whole fits word e inside utf8 = ground arith

write_string-ok :
    (value bytes : Bytes) (max_bytes : ℕ)
    → write_string value max_bytes ≡ ok bytes
    → (length value ≤ max_bytes)
      × (length value < 2 ^ 31)
      × (bytes ≡ write_var_int (length value % 2 ^ 32) ++ value)
unfolding write_string
write_string-ok value bytes max_bytes h = (ground arith, ground arith, ground arith)

read_string-written :
    (value rest : Bytes) (max_bytes : ℕ)
    → length value ≤ max_bytes
    → max_bytes < 2 ^ 31
    → utf8_valid value ≡ true
    → read_string_from_bytes (write_var_int (length value) ++ (value ++ rest)) max_bytes
      ≡ ok (value, length (write_var_int (length value)) + length value)
unfolding read_string_from_bytes
read_string-written value rest max_bytes fits word utf8 =
    let size = write_var_int (length value) in
    rw (read_var_int_from_bytes-write_var_int (length value) (value ++ rest) (omega arith)) (
      rw (drop-append size (value ++ rest) (length size) refl) (
        rw (take-append value rest (length value) refl) (
          string_checks value (value, length size + length value) (length value) (length size)
            (length size + length value) max_bytes (length (size ++ (value ++ rest))) fits word refl
            (omega (arith, length-append size (value ++ rest), length-append value rest)) utf8)))

-- The string that `writeString` accepted, behind its length, is read back whole, and the count is
-- that of the bytes written; for valid UTF-8 and limits below 2 ^ 31.
pub read_string-write_string :
    (value rest bytes : Bytes) (max_bytes : ℕ)
    → write_string value max_bytes ≡ ok bytes
    → max_bytes < 2 ^ 31
    → utf8_valid value ≡ true
    → read_string_from_bytes (bytes ++ rest) max_bytes ≡ ok (value, length bytes)
read_string-write_string value rest bytes max_bytes h word utf8 =
    let (fits, _, e) = write_string-ok value bytes max_bytes h in
    let size : length value % 2 ^ 32 ≡ length value = omega arith in
    rw e (
      rw size (
        rw append_assoc (
          read_string-written value rest max_bytes fits word utf8
          ∙ ap (λ (t : ℕ). ok (value, t))
              (sym (length-append (write_var_int (length value)) value)))))

read_string_checked :
    (bytes v : Bytes) (total size consumed max_bytes : ℕ) {answer : Bytes × ℕ}
    → (if is_negative size
        then err (invalid_string_size size)
        else if ltb max_bytes size
        then err (string_too_long size max_bytes)
        else if ltb (length bytes) (consumed + size)
        then err (io unexpected_eof)
        else if not (utf8_valid v)
        then err string_not_utf8
        else ok (v, total))
      ≡ ok answer
    → (size ≤ max_bytes) × (consumed + size ≤ length bytes) × (utf8_valid v ≡ true)
read_string_checked bytes v total size consumed max_bytes h =
    (ground arith, ground arith, ground arith)

-- A string that is read is valid UTF-8, within the limit, and inside its buffer.
pub read_string_sound :
    (bytes : Bytes) (max_bytes : ℕ) (v : Bytes) (total : ℕ)
    → read_string_from_bytes bytes max_bytes ≡ ok (v, total)
    → (utf8_valid v ≡ true) × (length v ≤ max_bytes) × (total ≤ length bytes)
unfolding read_string_from_bytes
read_string_sound bytes max_bytes v total h =
    let ((size, consumed), e, h') = >>=-eq-ok (read_var_int_from_bytes bytes) _ h in
    let raw : Bytes = take size (drop consumed bytes) in
    let (fits, inside, utf8) =
      read_string_checked bytes (take size (drop consumed bytes)) (consumed + size) size consumed
        max_bytes h' in
    let same : raw ≡ v = ground arith in
    let count : consumed + size ≡ total = ground arith in
    (
      rw same at utf8,
      omega (arith, ap (λ (t : Bytes). length t) same, length-take size (drop consumed bytes)),
      omega (arith, count, inside),
    )
