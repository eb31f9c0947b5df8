-- ===== src/Java/VarInt/Reading.antt =====
-- `readVarInt` of protocol.go on any input: what it returns, how far it reads, how it fails.
use Prim.Native.Nat.{bit_and}
use minecraft_ping.Base.{
  ℕ, zero, suc, ◌+◌, ◌-◌, ◌*◌, ◌%◌, ◌^◌, ◌<◌, ◌≤◌, ◌≡◌, refl, [], ◌∷◌, ◌++◌, arith, Bytes, length,
  drop, All, ok, err,
}
use minecraft_ping.Base.Bits.{bit_and-top_bit, bit_or-lt}
use minecraft_ping.Io.{IoError, Stream}
use minecraft_ping.Java.Errors.{io, varint_too_long}
use minecraft_ping.Java.VarInt.{IsWord32, add_group, read_var_int_loop, read_var_int}

add_group-IsWord32 : (acc b n : ℕ) → IsWord32 acc → IsWord32 (add_group acc b n)
unfolding add_group
add_group-IsWord32 acc b n h =
    bit_or-lt 32 acc (bit_and b 0x7f * 2 ^ (7 * n) % 2 ^ 32) h (omega arith)

-- What one successful read promises of the reader behind it.
pub record Takes (bytes : Bytes) (ends : IoError) (most : ℕ) (v : ℕ) (s : Stream) : Type 0 where
  pub word : IsWord32 v
  pub some_byte : length s.bytes < length bytes
  pub at_most : length bytes ≤ length s.bytes + most
  pub behind : s.bytes ≡ drop (length bytes - length s.bytes) bytes
  pub same_end : s.ends ≡ ends

Takes-last :
    (b : ℕ) (bs : Bytes) (ends : IoError) (most v : ℕ)
    → IsWord32 v
    → Takes (b ∷ bs) ends (suc most) v (record { bytes = bs; ends = ends })
Takes-last b bs ends most v h = record {
  word = h;
  some_byte = omega arith;
  at_most = omega arith;
  behind = let e : suc (length bs) - length bs ≡ 1 = omega arith in rw e refl;
  same_end = refl;
}

Takes-cons :
    (b : ℕ) (bs : Bytes) (ends : IoError) (most v : ℕ) (s : Stream)
    → Takes bs ends most v s
    → Takes (b ∷ bs) ends (suc most) v s
Takes-cons b bs ends most v s t = record {
  word = t.word;
  some_byte = omega (arith, t.some_byte);
  at_most = omega (arith, t.at_most);
  behind =
      let e : suc (length bs) - length s.bytes ≡ suc (length bs - length s.bytes) =
        omega (arith, t.some_byte) in
      rw e t.behind;
  same_end = t.same_end;
}

read_var_int_loop-Takes :
    (bs : Bytes) (ends : IoError) (n m acc v : ℕ) (s : Stream)
    → n + m ≡ 5
    → IsWord32 acc
    → read_var_int_loop bs ends n acc ≡ ok (v, s)
    → Takes bs ends m v s
unfolding read_var_int_loop
read_var_int_loop-Takes [] ends n m acc v s hm ha e = ground arith
read_var_int_loop-Takes (b ∷ bs) ends n zero acc v s hm ha e = ground arith
read_var_int_loop-Takes (b ∷ bs) ends n (suc m) acc v s hm ha e = ground (
  arith,
  add_group-IsWord32 acc b n ha,
  Takes-last b bs ends m (add_group acc b n) (add_group-IsWord32 acc b n ha),
  Takes-cons b bs ends m v s,
  read_var_int_loop-Takes bs ends (n + 1) m (add_group acc b n) v s,
)

-- A successful `readVarInt` returns an int32, takes one to five bytes, and leaves the reader
-- exactly behind them.
pub read_var_int-Takes :
    (r : Stream) (v : ℕ) (s : Stream) → read_var_int r ≡ ok (v, s) → Takes r.bytes r.ends 5 v s
unfolding read_var_int
read_var_int-Takes r v s e = read_var_int_loop-Takes r.bytes r.ends 0 5 0 v s refl (omega arith) e

abbrev pub IsContinued : ℕ → Type 0
IsContinued b = (128 ≤ b) × (b < 256)

read_var_int_loop_full :
    (front rest : Bytes) (ends : IoError) (n acc : ℕ)
    → All IsContinued front
    → n + length front ≡ 5
    → read_var_int_loop (front ++ rest) ends n acc ≡ err varint_too_long
unfolding read_var_int_loop
read_var_int_loop_full [] [] ends n acc c h = ground arith
read_var_int_loop_full [] (b ∷ bs) ends n acc c h = ground arith
read_var_int_loop_full (b ∷ front) rest ends n acc c h = ground (
  arith,
  bit_and-top_bit b c.0.1,
  read_var_int_loop_full front rest ends (n + 1) (add_group acc b n) c.1,
)

read_var_int_loop_cut :
    (front : Bytes) (ends : IoError) (n acc : ℕ)
    → All IsContinued front
    → n + length front < 5
    → read_var_int_loop front ends n acc ≡ err (io ends)
unfolding read_var_int_loop
read_var_int_loop_cut [] ends n acc c h = ground arith
read_var_int_loop_cut (b ∷ front) ends n acc c h = ground (
  arith,
  bit_and-top_bit b c.0.1,
  read_var_int_loop_cut front ends (n + 1) (add_group acc b n) c.1,
)

-- Five bytes with the top bit set are too long, whatever follows.
pub read_var_int_too_long :
    (front rest : Bytes) (ends : IoError)
    → All IsContinued front
    → length front ≡ 5
    → read_var_int (record { bytes = front ++ rest; ends = ends }) ≡ err varint_too_long
unfolding read_var_int
read_var_int_too_long front rest ends c h =
    read_var_int_loop_full front rest ends 0 0 c (omega arith)

-- Fewer than five bytes with the top bit set, before the end of the input, give the reader's own
-- error.
pub read_var_int_cut :
    (front : Bytes) (ends : IoError)
    → All IsContinued front
    → length front < 5
    → read_var_int (record { bytes = front; ends = ends }) ≡ err (io ends)
unfolding read_var_int
read_var_int_cut front ends c h = read_var_int_loop_cut front ends 0 0 c (omega arith)
