-- ===== src/Base/Words.antt =====
-- `encoding/binary.BigEndian`: a word as its bytes, highest first.
use Prim.Native.Nat.{ℕ, zero, suc, ◌+◌, ◌*◌, ◌/◌, ◌%◌, ◌^◌, ◌<◌}
use mathlib.Core.Path.{◌≡◌, refl, ap, ◌∙◌}
use mathlib.Core.List.{[], ◌∷◌, ◌++◌}
use native.Mathlib.Nat.{pow-suc}
use native.Mathlib.Omega.{arith}
use minecraft_ping.Base.Tests.{Bytes, IsByte}
use minecraft_ping.Base.Lists.{length, length-append, All, All-append}

-- The `n` bytes of `v % 256 ^ n`.
unfoldable pub be_bytes : ℕ → ℕ → Bytes
be_bytes zero v = []
be_bytes (suc n) v = be_bytes n (v / 256) ++ (v % 256 ∷ [])

unfoldable pub be_value : ℕ → Bytes → ℕ
be_value acc [] = acc
be_value acc (b ∷ bs) = be_value (acc * 256 + b) bs

abbrev pub put_uint16 : ℕ → Bytes
put_uint16 = be_bytes 2

abbrev pub put_uint64 : ℕ → Bytes
put_uint64 = be_bytes 8

abbrev pub big_endian : Bytes → ℕ
big_endian = be_value 0

be_value-append_one :
    (acc : ℕ) (xs : Bytes) (b : ℕ) → be_value acc (xs ++ (b ∷ [])) ≡ be_value acc xs * 256 + b
unfolding be_value
be_value-append_one acc [] b = refl
be_value-append_one acc (x ∷ xs) b = be_value-append_one (acc * 256 + x) xs b

be_value-be_bytes : (n acc v : ℕ) → v < 256 ^ n → be_value acc (be_bytes n v) ≡ acc * 256 ^ n + v
unfolding be_bytes
be_value-be_bytes zero acc v h = unfold be_value in omega arith
be_value-be_bytes (suc n) acc v h =
    be_value-append_one acc (be_bytes n (v / 256)) (v % 256)
    ∙ omega (
      arith,
      be_value-be_bytes n acc (v / 256) (omega (arith, pow-suc 256 n)),
      ap (λ (t : ℕ). acc * t) (pow-suc 256 n),
    )

-- A word of eight bytes is read back.
pub big_endian-put_uint64 : (v : ℕ) → v < 2 ^ 64 → big_endian (put_uint64 v) ≡ v
big_endian-put_uint64 v h = omega (arith, be_value-be_bytes 8 0 v (omega arith))

pub big_endian-put_uint16 : (v : ℕ) → v < 2 ^ 16 → big_endian (put_uint16 v) ≡ v
big_endian-put_uint16 v h = omega (arith, be_value-be_bytes 2 0 v (omega arith))

pub length-be_bytes : (n v : ℕ) → length (be_bytes n v) ≡ n
unfolding be_bytes
length-be_bytes zero v = refl
length-be_bytes (suc n) v =
    omega (arith, length-append (be_bytes n (v / 256)) (v % 256 ∷ []), length-be_bytes n (v / 256))

pub be_bytes-IsByte : (n v : ℕ) → All IsByte (be_bytes n v)
unfolding be_bytes
be_bytes-IsByte zero v = tt
be_bytes-IsByte (suc n) v =
    All-append IsByte (be_bytes n (v / 256)) (v % 256 ∷ []) (be_bytes-IsByte n (v / 256))
      (omega arith, tt)
