-- ===== src/Staging/Codec/Agreement.antt =====
-- The codec of the staging server (server.go) agrees with that of the client (protocol.go).
use Prim.Native.Nat.{bit_and, bit_or}
use mathlib.Core.WellFounded.{Acc}
use minecraft_ping.Base.{
  ℕ, zero, suc, ◌+◌, ◌-◌, ◌/◌, ◌%◌, ◌^◌, ◌<◌, ◌≤◌, ◌≡◌, refl, sym, ap, ◌∙◌, true, [], ◌∷◌, arith,
  Bytes, length, Result, ok, err, lt_wf, ◌>>=◌, map_err,
}
use minecraft_ping.Base.Bits.{bit_and-low_seven, bit_or-top_bit}
use minecraft_ping.Text.Utf8.{utf8_valid}
use minecraft_ping.Io.{IoError, eof, unexpected_eof, Stream}
use minecraft_ping.Java.Errors.{Error, io}
use minecraft_ping.Java.VarInt.{IsWord32, add_group}
use minecraft_ping.Java.VarInt
use minecraft_ping.Java.VarInt.Encoding.{encoding, write_var_int-encoding}
use minecraft_ping.Java.Packet
use minecraft_ping.Staging.Codec.{
  read_var_int_loop, read_var_int, read_from_bytes_loop, read_var_int_from_bytes,
  write_var_int_loop, write_var_int, frame, write_packet, read_packet, write_string,
  read_string_from_bytes,
}

read_var_int_loop-agrees :
    (bs : Bytes) (ends : IoError) (n acc : ℕ)
    → read_var_int_loop bs ends n acc ≡ VarInt.read_var_int_loop bs ends n acc
unfolding read_var_int_loop VarInt.read_var_int_loop
read_var_int_loop-agrees [] ends n acc = refl
read_var_int_loop-agrees (b ∷ bs) ends n acc =
    rw (read_var_int_loop-agrees bs ends (n + 1) (add_group acc b n))

pub read_var_int-agrees : (r : Stream) → read_var_int r ≡ VarInt.read_var_int r
unfolding read_var_int VarInt.read_var_int
read_var_int-agrees r = read_var_int_loop-agrees r.bytes r.ends 0 0

-- `readPacket` of the server does on every input what that of the client does, errors included.
pub read_packet-agrees :
    (max_length : ℕ) (r : Stream) → read_packet max_length r ≡ Packet.read_packet max_length r
unfolding read_packet Packet.read_packet
read_packet-agrees max_length r = rw (read_var_int-agrees r)

inner_group : (v : ℕ) → bit_or (bit_and v 0x7f) 0x80 ≡ v % 128 + 128
inner_group v = rw bit_and-low_seven (bit_or-top_bit (v % 128) (omega arith))

write_var_int_loop-encoding :
    (k v : ℕ) (w : Acc ◌<◌ v) → v < 128 ^ suc k → write_var_int_loop v w ≡ encoding k v
unfolding write_var_int_loop encoding
write_var_int_loop-encoding zero v (Acc.intro _ smaller) h = grind (arith, bit_and-low_seven v)
write_var_int_loop-encoding (suc k) v (Acc.intro _ smaller) h = grind (
  arith,
  bit_and-low_seven v,
  inner_group v,
  λ (w : Acc ◌<◌ (v / 128)). write_var_int_loop-encoding k (v / 128) w (omega arith),
)

-- The loop of `writeVarInt` tests at another end in the server than in the client, and both write the
-- same bytes for an int32.
pub write_var_int-agrees : (v : ℕ) → IsWord32 v → write_var_int v ≡ VarInt.write_var_int v
unfolding write_var_int
write_var_int-agrees v h =
    write_var_int_loop-encoding 4 v (lt_wf.apply v) (omega arith) ∙ sym (write_var_int-encoding v h)

pub frame-agrees : (payload : Bytes) → frame payload ≡ Packet.frame payload
unfolding frame Packet.frame
frame-agrees payload = rw (write_var_int-agrees (length payload % 2 ^ 32) (omega arith))

-- `writePacket` of the server does on every payload what that of the client does, errors included.
pub write_packet-agrees : (payload : Bytes) → write_packet payload ≡ Packet.write_packet payload
unfolding write_packet Packet.write_packet
write_packet-agrees payload = rw (frame-agrees payload)

-- The server calls an input that ends inside a number unexpected, the client an end of file.
abbrev pub unexpected : Error → Error
unexpected (io eof) = io unexpected_eof
unexpected e = e

loop_shrinks :
    (bs : Bytes) (ends : IoError) (n acc v : ℕ) (s : Stream)
    → VarInt.read_var_int_loop bs ends n acc ≡ ok (v, s)
    → length s.bytes ≤ length bs
unfolding VarInt.read_var_int_loop
loop_shrinks [] ends n acc v s h = ground arith
loop_shrinks (b ∷ bs) ends n acc v s h =
    ground (arith, loop_shrinks bs ends (n + 1) (add_group acc b n) v s)

abbrev counted : ℕ → Bytes → Result Error (ℕ × Stream) → Result Error (ℕ × ℕ)
counted n bs (ok (v, s)) = ok (v, n + (length bs - length s.bytes))
counted n bs (err e) = err (unexpected e)

counted-cons :
    (n b : ℕ) (bs : Bytes) (r : Result Error (ℕ × Stream))
    → ((v : ℕ) (s : Stream) → r ≡ ok (v, s) → length s.bytes ≤ length bs)
    → counted (n + 1) bs r ≡ counted n (b ∷ bs) r
counted-cons n b bs (err e) h = refl
counted-cons n b bs (ok (v, s)) h =
    let le = h v s refl in ap (λ (t : ℕ). ok (v, t)) (omega (arith, le))

read_from_bytes_loop-counted :
    (bs : Bytes) (n acc : ℕ)
    → read_from_bytes_loop bs n acc ≡ counted n bs (VarInt.read_var_int_loop bs eof n acc)
unfolding read_from_bytes_loop VarInt.read_var_int_loop
read_from_bytes_loop-counted [] n acc = ground arith
read_from_bytes_loop-counted (b ∷ bs) n acc =
    let later = VarInt.read_var_int_loop bs eof (n + 1) (add_group acc b n) in
    ground (
      arith,
      read_from_bytes_loop-counted bs (n + 1) (add_group acc b n),
      counted-cons n b bs later (loop_shrinks bs eof (n + 1) (add_group acc b n)),
    )

counted-zero :
    (bs : Bytes) (r : Result Error (ℕ × Stream))
    → counted 0 bs r
      ≡ map_err unexpected (◌>>=◌ {B = ℕ × ℕ} r (λ x. ok (x.0, length bs - length x.1.bytes)))
counted-zero bs (err e) = refl
counted-zero bs (ok (v, s)) = ap (λ (t : ℕ). ok (v, t)) (omega arith)

-- `readVarIntFromBytes` indexes its slice in the server and reads through a reader in the client:
-- same value, same count, same errors up to the name of an input that ends too early.
pub read_var_int_from_bytes-agrees :
    (payload : Bytes)
    → read_var_int_from_bytes payload ≡ map_err unexpected (VarInt.read_var_int_from_bytes payload)
unfolding read_var_int_from_bytes VarInt.read_var_int_from_bytes VarInt.read_var_int
read_var_int_from_bytes-agrees payload =
    read_from_bytes_loop-counted payload 0 0
    ∙ counted-zero payload (VarInt.read_var_int_loop payload eof 0 0)

map_err->>= :
    {A B : Type 0} (g : Error → Error) (m : Result Error A) (f h : A → Result Error B)
    → ((a : A) → h a ≡ map_err g (f a))
    → (map_err g m >>= h) ≡ map_err g (m >>= f)
map_err->>= g (ok a) f h e = e a
map_err->>= g (err x) f h e = refl

-- `readStringFromBytes` of the server does on every input what that of the client does, up to the
-- name of an input that ends too early.
pub read_string_from_bytes-agrees :
    (payload : Bytes) (max_bytes : ℕ)
    → read_string_from_bytes payload max_bytes
      ≡ map_err unexpected (Packet.read_string_from_bytes payload max_bytes)
unfolding read_string_from_bytes Packet.read_string_from_bytes
read_string_from_bytes-agrees payload max_bytes =
    rw (read_var_int_from_bytes-agrees payload)
      (map_err->>= unexpected (VarInt.read_var_int_from_bytes payload) _ _ (λ x. ground arith))

-- For values in valid UTF-8 and limits below 2 ^ 31, `writeString` of the server does what that of the
-- client does, errors included.
pub write_string-agrees :
    (value : Bytes) (max_bytes : ℕ)
    → max_bytes < 2 ^ 31
    → utf8_valid value ≡ true
    → write_string value max_bytes ≡ Packet.write_string value max_bytes
unfolding write_string Packet.write_string
write_string-agrees value max_bytes h utf8 =
    rw (write_var_int-agrees (length value % 2 ^ 32) (omega arith)) (ground arith)

-- The codec of the server and that of the client, written twice, do the same: on every input, errors
-- included, when they read and write a packet; on every input, up to the name of an input that
-- ends too early, when they read a string; and for every int32, every value in valid UTF-8 and
-- every limit below 2 ^ 31, errors included, when they write a number and a string.
pub codecs-agree :
    (max_length : ℕ) (r : Stream) (payload value : Bytes) (v max_bytes : ℕ)
    → IsWord32 v
    → max_bytes < 2 ^ 31
    → utf8_valid value ≡ true
    → (read_packet max_length r ≡ Packet.read_packet max_length r)
      × (write_packet payload ≡ Packet.write_packet payload)
      × (read_string_from_bytes payload max_bytes
          ≡ map_err unexpected (Packet.read_string_from_bytes payload max_bytes))
      × (write_var_int v ≡ VarInt.write_var_int v)
      × (write_string value max_bytes ≡ Packet.write_string value max_bytes)
codecs-agree max_length r payload value v max_bytes word limit utf8 = (
  read_packet-agrees max_length r,
  write_packet-agrees payload,
  read_string_from_bytes-agrees payload max_bytes,
  write_var_int-agrees v word,
  write_string-agrees value max_bytes limit utf8,
)
