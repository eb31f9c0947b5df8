-- ===== src/Java/VarInt/Encoding.antt =====
-- What `writeVarInt` of protocol.go appends, in plain arithmetic.
use Prim.Native.Nat.{bit_and, bit_or}
use mathlib.Core.WellFounded.{Acc}
use minecraft_ping.Base.{
  ℕ, zero, suc, ◌+◌, ◌/◌, ◌%◌, ◌^◌, ◌<◌, ◌≤◌, ◌≡◌, [], ◌∷◌, arith, ltb, if◌then◌else◌, Bytes,
  length, All, IsByte, lt_wf,
}
use minecraft_ping.Base.Bits.{bit_and-low_seven, bit_or-top_bit}
use minecraft_ping.Java.VarInt.{IsWord32, write_var_int_loop, write_var_int}

-- The groups of seven bits of `v`, lowest first, for `v` below 128 ^ (k + 1).
unfoldable pub encoding : ℕ → ℕ → Bytes
encoding zero v = v ∷ []
encoding (suc k) v =
    let rest = encoding k (v / 128) in if ltb v 128 then v ∷ [] else (v % 128 + 128) ∷ rest

pub inner_byte : (v : ℕ) → bit_or (bit_and v 0x7f) 0x80 % 256 ≡ v % 128 + 128
inner_byte v = rw bit_and-low_seven (rw (bit_or-top_bit (v % 128) (omega arith)) (omega arith))

write_var_int_loop-encoding :
    (k v : ℕ) (w : Acc ◌<◌ v) → v < 128 ^ suc k → write_var_int_loop v w ≡ encoding k v
unfolding write_var_int_loop encoding
write_var_int_loop-encoding zero v (Acc.intro _ smaller) h = grind (arith, bit_and-low_seven v)
write_var_int_loop-encoding (suc k) v (Acc.intro _ smaller) h = grind (
  arith,
  bit_and-low_seven v,
  inner_byte v,
  λ (w : Acc ◌<◌ (v / 128)). write_var_int_loop-encoding k (v / 128) w (omega arith),
)

pub write_var_int-encoding : (v : ℕ) → IsWord32 v → write_var_int v ≡ encoding 4 v
unfolding write_var_int
write_var_int-encoding v h = write_var_int_loop-encoding 4 v (lt_wf.apply v) (omega arith)

pub encoding-IsByte : (k value : ℕ) → value < 128 ^ suc k → All IsByte (encoding k value)
unfolding encoding
encoding-IsByte zero value small = omega arith
encoding-IsByte (suc k) value small = ground (arith, encoding-IsByte k (value / 128) (omega arith))

pub length-encoding : (k v : ℕ) → (length (encoding k v) ≤ suc k) × (1 ≤ length (encoding k v))
unfolding encoding
length-encoding zero v = omega arith
length-encoding (suc k) v = ground (arith, length-encoding k (v / 128))

-- A word of 32 bits takes one to five bytes, each of them a byte.
pub write_var_int_shape :
    (v : ℕ)
    → IsWord32 v
    → All IsByte (write_var_int v) × (1 ≤ length (write_var_int v)) × (length (write_var_int v) ≤ 5)
write_var_int_shape v h =
    rw (write_var_int-encoding v h)
      (encoding-IsByte 4 v (omega arith), (length-encoding 4 v).1, (length-encoding 4 v).0)
