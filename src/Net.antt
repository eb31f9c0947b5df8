-- ===== src/Net.antt =====
-- What the program uses of Go's `net` and `net/netip`: addresses, prefixes, and their texts.
pub mod Parse
use minecraft_ping.Base.{
  ℕ, zero, suc, ◌+◌, ◌-◌, ◌*◌, ◌/◌, ◌%◌, ◌^◌, ◌<◌, ◌≤◌, ◌≡◌, refl, Bool, true, false, not, ◌&&◌,
  ◌||◌, List, [], ◌∷◌, ◌++◌, Option, none, some, ◌==◌, if◌then◌else◌, Bytes, bytes_eq,
  bytes_eq_refl, bytes_eq_iff, arith, ◌↔◌,
}
use minecraft_ping.Text.{codes, contains_byte}

-- `netip.Addr`: the zero value, an IPv4 address, and an IPv6 address with its zone (empty for none).
pub data Addr : Type 0 where
  invalid : Addr
  v4 : ℕ → Addr
  v6 : ℕ → Bytes → Addr

abbrev pub is_valid : Addr → Bool
is_valid invalid = false
is_valid _ = true

abbrev pub is4 : Addr → Bool
is4 (v4 n) = true
is4 _ = false

-- An address that is mapped into IPv6 counts as IPv6.
abbrev pub is6 : Addr → Bool
is6 (v6 n z) = true
is6 _ = false

abbrev pub is_mapped : ℕ → Bool
is_mapped n = n / 2 ^ 32 == 0xffff

-- `Addr.Unmap`: the zone of a mapped address is dropped.
unfoldable pub unmap : Addr → Addr
unmap (v6 n z) = if is_mapped n then v4 (n % 2 ^ 32) else v6 n z
unmap a = a

-- `==` on `netip.Addr`
unfoldable pub addr_eq : Addr → Addr → Bool
addr_eq invalid invalid = true
addr_eq (v4 n) (v4 m) = n == m
addr_eq (v6 n z) (v6 m y) = n == m && bytes_eq z y
addr_eq _ _ = false

-- `netip.Prefix`: the first `bits` bits of an address without a zone.
pub data Prefix : Type 0 where
  prefix4 : ℕ → ℕ → Prefix
  prefix6 : ℕ → ℕ → Prefix

-- `Prefix.Contains`: no prefix contains an address with a zone.
unfoldable pub contains : Prefix → Addr → Bool
contains (prefix4 p bits) (v4 n) = n / 2 ^ (32 - bits) == p / 2 ^ (32 - bits)
contains (prefix6 p bits) (v6 n []) = n / 2 ^ (128 - bits) == p / 2 ^ (128 - bits)
contains _ _ = false

-- `netip.AddrPort`; its zero value is not valid.
pub record AddrPort : Type 0 where
  pub addr : Addr
  pub port : ℕ

-- `net.JoinHostPort`
unfoldable pub join_host_port : Bytes → Bytes → Bytes
unfolding contains_byte
join_host_port host port =
    if contains_byte b':' host || contains_byte b'%' host
    then b'[' ∷ (host ++ (codes "]:" ++ port))
    else host ++ (b':' ∷ port)

pub addr_eq_iff : (a b : Addr) → (addr_eq a b ≡ true) ↔ (a ≡ b)
unfolding addr_eq
addr_eq_iff (v6 n z) (v6 m y) = ground (arith, bytes_eq_iff z y)
addr_eq_iff _ _ = ground arith

pub unmap_idem : (a : Addr) → unmap (unmap a) ≡ unmap a
unfolding unmap
unmap_idem (v6 n z) = ground arith
unmap_idem a = refl
