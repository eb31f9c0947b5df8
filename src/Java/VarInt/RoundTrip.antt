-- ===== src/Java/VarInt/RoundTrip.antt =====
-- What `writeVarInt` writes, `readVarInt` and `readVarIntFromBytes` read back.
use native.Mathlib.Nat.{div-add-mod, mod-eq_of_lt}
use native.Mathlib.Numerals.{towards_suc}
use minecraft_ping.Base.{
  ℕ, zero, suc, ◌+◌, ◌*◌, ◌/◌, ◌%◌, ◌^◌, ◌<◌, ◌≤◌, ◌≡◌, ap, ◌∙◌, ◌∷◌, ◌++◌, arith, Bytes, length,
  length-append, ok,
}
use minecraft_ping.Base.Bits.{bit_and-low_seven, bit_and-top_bit, bit_or_disjoint}
use minecraft_ping.Io.{IoError, eof}
use minecraft_ping.Java.VarInt.{
  IsWord32, add_group, read_var_int_loop, read_var_int, read_var_int_from_bytes, write_var_int,
}
use minecraft_ping.Java.VarInt.Encoding.{encoding, write_var_int-encoding}

next_group : (n : ℕ) → 2 ^ (7 * (n + 1)) ≡ 128 * 2 ^ (7 * n)
next_group n =
    let e : 7 * (n + 1) ≡ 7 * n + 7 = omega arith in rw e (simp towards_suc (omega arith))

pub add_group_lem :
    (acc b n : ℕ)
    → acc < 2 ^ (7 * n)
    → b % 128 * 2 ^ (7 * n) < 2 ^ 32
    → add_group acc b n ≡ acc + b % 128 * 2 ^ (7 * n)
unfolding add_group
add_group_lem acc b n h fits =
    rw bit_and-low_seven (rw (mod-eq_of_lt fits) (bit_or_disjoint (7 * n) acc (b % 128) h))

last_byte :
    (w : ℕ) (bs : Bytes) (ends : IoError) (n acc : ℕ)
    → w < 128
    → n < 5
    → acc < 2 ^ (7 * n)
    → w * 2 ^ (7 * n) < 2 ^ 32
    → read_var_int_loop (w ∷ bs) ends n acc
      ≡ ok (acc + w * 2 ^ (7 * n), record { bytes = bs; ends = ends })
unfolding read_var_int_loop
last_byte w bs ends n acc hw hn ha fits =
    let e : w % 128 ≡ w = omega arith in
    ground (arith, bit_and-top_bit w (omega arith), rw e at (add_group_lem acc w n ha (rw e fits)))

inner_byte :
    (g : ℕ) (bs : Bytes) (ends : IoError) (n acc : ℕ)
    → g < 128
    → n < 5
    → acc < 2 ^ (7 * n)
    → g * 2 ^ (7 * n) < 2 ^ 32
    → read_var_int_loop ((g + 128) ∷ bs) ends n acc
      ≡ read_var_int_loop bs ends (n + 1) (acc + g * 2 ^ (7 * n))
unfolding read_var_int_loop
inner_byte g bs ends n acc hg hn ha fits =
    let e : (g + 128) % 128 ≡ g = omega arith in
    ground (
      arith,
      bit_and-top_bit (g + 128) (omega arith),
      rw e at (add_group_lem acc (g + 128) n ha (rw e fits)),
    )

split_word : (w n : ℕ) → w * 2 ^ (7 * n) ≡ w % 128 * 2 ^ (7 * n) + w / 128 * 2 ^ (7 * (n + 1))
split_word w n = omega (
  arith,
  ap (λ (t : ℕ). t * 2 ^ (7 * n)) (div-add-mod w 128),
  ap (λ (t : ℕ). w / 128 * t) (next_group n),
)

-- `w` is what is still to be read, from the group `n` on.
read_var_int_loop-encoding :
    (k w : ℕ) (rest : Bytes) (ends : IoError) (n acc : ℕ)
    → w < 128 ^ suc k
    → n + k < 5
    → acc < 2 ^ (7 * n)
    → w * 2 ^ (7 * n) < 2 ^ 32
    → read_var_int_loop (encoding k w ++ rest) ends n acc
      ≡ ok (acc + w * 2 ^ (7 * n), record { bytes = rest; ends = ends })
unfolding encoding
read_var_int_loop-encoding zero w rest ends n acc hw hn ha fits =
    last_byte w rest ends n acc (omega arith) (omega arith) ha fits
read_var_int_loop-encoding (suc k) w rest ends n acc hw hn ha fits = ground (
  arith,
  last_byte w rest ends n acc,
  split_word w n,
  next_group n,
  group_fits,
  inner_byte (w % 128) (encoding k (w / 128) ++ rest) ends n acc,
  read_var_int_loop-encoding k (w / 128) rest ends (n + 1) (acc + w % 128 * 2 ^ (7 * n))
      (omega arith),
)
  where
    group_fits : w % 128 * 2 ^ (7 * n) ≤ 127 * 2 ^ (7 * n)
    group_fits = grind arith

-- `readVarInt` returns the int32 that `writeVarInt` wrote and leaves the bytes behind it.
pub read_var_int-write_var_int :
    (v : ℕ) (rest : Bytes) (ends : IoError)
    → IsWord32 v
    → read_var_int (record { bytes = write_var_int v ++ rest; ends = ends })
      ≡ ok (v, record { bytes = rest; ends = ends })
unfolding read_var_int
read_var_int-write_var_int v rest ends h = rw (write_var_int-encoding v h) (
    read_var_int_loop-encoding 4 v rest ends 0 0 (omega arith) (omega arith) (omega arith)
      (omega arith)
    ∙ ap (λ (t : ℕ). ok (t, record { bytes = rest; ends = ends })) (omega arith))

pub read_var_int_from_bytes-write_var_int :
    (v : ℕ) (rest : Bytes)
    → IsWord32 v
    → read_var_int_from_bytes (write_var_int v ++ rest) ≡ ok (v, length (write_var_int v))
unfolding read_var_int_from_bytes
read_var_int_from_bytes-write_var_int v rest h =
    rw (read_var_int-write_var_int v rest eof h)
      (ap (λ (t : ℕ). ok (v, t)) (omega (arith, length-append (write_var_int v) rest)))
