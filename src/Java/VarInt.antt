-- ===== src/Java/VarInt.antt =====
-- protocol.go: variable-length integers. An `int32` is its bit pattern, a number below 2 ^ 32; the
-- negative ones are those from 2 ^ 31 on.
pub mod Encoding
pub mod RoundTrip
pub mod Reading
use Prim.Native.Nat.{bit_and, bit_or}
use mathlib.Core.WellFounded.{Acc}
use minecraft_ping.Base.{
  ℕ, ◌+◌, ◌-◌, ◌*◌, ◌/◌, ◌%◌, ◌^◌, ◌<◌, ◌≡◌, ◌≢◌, refl, Bool, [], ◌∷◌, arith, leb, ◌==◌,
  if◌then◌else◌, Bytes, length, Result, ok, err, lt_wf, dite, ℕ_discrete, ◌>>=◌,
}
use minecraft_ping.Base.Bits.{bit_and-low_seven}
use minecraft_ping.Io.{IoError, eof, Stream}
use minecraft_ping.Java.Errors.{Error, io, varint_too_long}

abbrev pub IsWord32 : ℕ → Type 0
IsWord32 w = w < 2 ^ 32

-- `x < 0` for an int32.
abbrev pub is_negative : ℕ → Bool
is_negative w = leb (2 ^ 31) w

-- `result |= value << (7 * numRead)` with `value := int32(b & 0x7F)`
unfoldable pub add_group : ℕ → ℕ → ℕ → ℕ
add_group result b num_read = bit_or result (bit_and b 0x7f * 2 ^ (7 * num_read) % 2 ^ 32)

-- The loop of `readVarInt`, over the bytes that the reader has yet to deliver.
unfoldable pub read_var_int_loop : Bytes → IoError → ℕ → ℕ → Result Error (ℕ × Stream)
unfolding add_group
read_var_int_loop [] ends num_read result =
    if leb 5 num_read then err varint_too_long else err (io ends)
read_var_int_loop (b ∷ bs) ends num_read result =
    let result' = add_group result b num_read in
    let rest = read_var_int_loop bs ends (num_read + 1) result' in
    if leb 5 num_read
    then err varint_too_long
    else if bit_and b 0x80 == 0
    then ok (result', record { bytes = bs; ends = ends })
    else rest

unfoldable pub read_var_int : Stream → Result Error (ℕ × Stream)
unfolding read_var_int_loop
read_var_int r = read_var_int_loop r.bytes r.ends 0 0

-- The value, and the number of bytes that it took.
unfoldable pub read_var_int_from_bytes : Bytes → Result Error (ℕ × ℕ)
unfolding read_var_int
read_var_int_from_bytes bytes = do
  (value, reader) ← read_var_int (record { bytes = bytes; ends = eof })
  ok (value, length bytes - length reader.bytes)

-- `a &^ m`
abbrev pub and_not : ℕ → ℕ → ℕ
and_not a m = a - bit_and a m

pub shift_shrinks : (v : ℕ) → and_not v 0x7f ≢ 0 → v / 128 < v
shift_shrinks v h = omega (arith, bit_and-low_seven v)

-- `byte(x)` is `x % 256`, and `unsigned >>= 7` is `unsigned / 128`.
unfoldable pub write_var_int_loop : (unsigned : ℕ) → Acc ◌<◌ unsigned → Bytes
unfolding ℕ_discrete
write_var_int_loop unsigned (Acc.intro _ smaller) =
    dite (ℕ_discrete (and_not unsigned 0x7f) 0) (λ _. unsigned % 256 ∷ [])
      (λ more.
        bit_or (bit_and unsigned 0x7f) 0x80 % 256
        ∷ write_var_int_loop (unsigned / 128) (smaller _ (shift_shrinks unsigned more)))

-- The bytes that `writeVarInt` appends to its buffer.
unfoldable pub write_var_int : ℕ → Bytes
unfolding write_var_int_loop lt_wf
write_var_int value = write_var_int_loop value (lt_wf.apply value)

test_300 : write_var_int 300 ≡ 0xac ∷ 2 ∷ []
unfolding write_var_int
test_300 = refl

test_minus_one : write_var_int 0xffff_ffff ≡ 0xff ∷ 0xff ∷ 0xff ∷ 0xff ∷ 0x0f ∷ []
unfolding write_var_int
test_minus_one = refl

test_read :
    read_var_int_from_bytes (0xff ∷ 0xff ∷ 0xff ∷ 0xff ∷ 0x0f ∷ 7 ∷ []) ≡ ok (0xffff_ffff, 5)
unfolding read_var_int_from_bytes
test_read = refl
