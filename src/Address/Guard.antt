-- ===== src/Address/Guard.antt =====
-- The guard of endpoint.go against a description by address ranges.
use minecraft_ping.Base.{
  ℕ, suc, ◌+◌, ◌-◌, ◌*◌, ◌/◌, ◌%◌, ◌^◌, ◌<◌, ◌≤◌, ◌≡◌, refl, Bool, true, false, ◌&&◌, ◌||◌, List,
  [], ◌∷◌, ◌==◌, leb, if◌then◌else◌, Bytes, arith, Bool-cases, inl, inr, ◌∙◌,
}
use native.Mathlib.Nat.{div-add-mod, mod-lt}
use minecraft_ping.Net.{Addr, invalid, v4, v6, is_mapped, Prefix, prefix4, prefix6}
use minecraft_ping.Address.Endpoint.{quad, non_public_ip_prefixes, any_contains, is_non_public_addr}

-- The first and the last address of each range.
abbrev pub in_any : List (ℕ × ℕ) → ℕ → Bool
in_any [] n = false
in_any ((first, last) ∷ ranges) n = (leb first n && leb n last) || in_any ranges n

abbrev pub reserved4 : List (ℕ × ℕ)
reserved4 =
    (quad 0 0 0 0, quad 0 255 255 255)
    ∷ (quad 10 0 0 0, quad 10 255 255 255)
    ∷ (quad 100 64 0 0, quad 100 127 255 255)
    ∷ (quad 127 0 0 0, quad 127 255 255 255)
    ∷ (quad 169 254 0 0, quad 169 254 255 255)
    ∷ (quad 172 16 0 0, quad 172 31 255 255)
    ∷ (quad 192 0 0 0, quad 192 0 0 255)
    ∷ (quad 192 0 2 0, quad 192 0 2 255)
    ∷ (quad 192 168 0 0, quad 192 168 255 255)
    ∷ (quad 198 18 0 0, quad 198 19 255 255)
    ∷ (quad 198 51 100 0, quad 198 51 100 255)
    ∷ (quad 203 0 113 0, quad 203 0 113 255)
    ∷ (quad 224 0 0 0, quad 239 255 255 255)
    ∷ (quad 240 0 0 0, quad 255 255 255 255)
    ∷ []

abbrev pub reserved6 : List (ℕ × ℕ)
reserved6 =
    (0, 0)
    ∷ (1, 1)
    ∷ (0x0100_0000_0000_0000_0000_0000_0000_0000, 0x0100_0000_0000_0000_ffff_ffff_ffff_ffff)
    ∷ (0x2001_0db8_0000_0000_0000_0000_0000_0000, 0x2001_0db8_ffff_ffff_ffff_ffff_ffff_ffff)
    ∷ (0xfc00_0000_0000_0000_0000_0000_0000_0000, 0xfdff_ffff_ffff_ffff_ffff_ffff_ffff_ffff)
    ∷ (0xfe80_0000_0000_0000_0000_0000_0000_0000, 0xfebf_ffff_ffff_ffff_ffff_ffff_ffff_ffff)
    ∷ (0xff00_0000_0000_0000_0000_0000_0000_0000, 0xffff_ffff_ffff_ffff_ffff_ffff_ffff_ffff)
    ∷ []

abbrev reserved6_zone : Bytes → ℕ → Bool
reserved6_zone [] n = in_any reserved6 n
reserved6_zone (c ∷ zone) n = false

-- What the guard refuses: a mapped address is judged as the IPv4 address in it, and no address
-- with a zone is refused.
abbrev pub is_reserved : Addr → Bool
is_reserved invalid = true
is_reserved (v4 n) = in_any reserved4 n
is_reserved (v6 n zone) =
    if is_mapped n then in_any reserved4 (n % 2 ^ 32) else reserved6_zone zone n

or_cong : {a b c d : Bool} → a ≡ b → c ≡ d → (a || c) ≡ (b || d)
or_cong p q = cc

prefix_range :
    (n d q first last : ℕ)
    → 0 < d
    → q * d ≡ first
    → first + d ≡ suc last
    → (n / d == q) ≡ (leb first n && leb n last)
prefix_range n d q first last h e f = ground (arith, div-add-mod n d, mod-lt n h, below, above)
  where
    below : n / d < q → (n / d + 1) * d ≤ q * d
    below p = grind arith

    above : q < n / d → (q + 1) * d ≤ n / d * d
    above p = grind arith

-- The ranges are those of the prefixes of one length, in order.
abbrev IsRange : ℕ → ℕ → ℕ × ℕ → Type 0
IsRange d p (first, last) = (0 < d) × (p / d * d ≡ first) × (first + d ≡ suc last)

abbrev Covers4 : List Prefix → List (ℕ × ℕ) → Type 0
Covers4 [] [] = Unit
Covers4 [] (r ∷ rs) = ⊥
Covers4 (prefix6 p bits ∷ ps) rs = Covers4 ps rs
Covers4 (prefix4 p bits ∷ ps) [] = ⊥
Covers4 (prefix4 p bits ∷ ps) (r ∷ rs) = IsRange (2 ^ (32 - bits)) p r × Covers4 ps rs

abbrev Covers6 : List Prefix → List (ℕ × ℕ) → Type 0
Covers6 [] [] = Unit
Covers6 [] (r ∷ rs) = ⊥
Covers6 (prefix4 p bits ∷ ps) rs = Covers6 ps rs
Covers6 (prefix6 p bits ∷ ps) [] = ⊥
Covers6 (prefix6 p bits ∷ ps) (r ∷ rs) = IsRange (2 ^ (128 - bits)) p r × Covers6 ps rs

ranges4 :
    (ps : List Prefix) (rs : List (ℕ × ℕ)) (n : ℕ)
    → Covers4 ps rs
    → any_contains ps (v4 n) ≡ in_any rs n
unfolding any_contains
ranges4 [] [] n h = refl
ranges4 [] (r ∷ rs) n h = absurd h
ranges4 (prefix6 p bits ∷ ps) [] n h = ranges4 ps [] n h
ranges4 (prefix6 p bits ∷ ps) (r ∷ rs) n h = ranges4 ps (r ∷ rs) n h
ranges4 (prefix4 p bits ∷ ps) [] n h = absurd h
ranges4 (prefix4 p bits ∷ ps) ((first, last) ∷ rs) n h =
    or_cong (prefix_range n (2 ^ (32 - bits)) (p / 2 ^ (32 - bits)) first last h.0.0 h.0.1 h.0.2)
      (ranges4 ps rs n h.1)

ranges6 :
    (ps : List Prefix) (rs : List (ℕ × ℕ)) (n : ℕ)
    → Covers6 ps rs
    → any_contains ps (v6 n []) ≡ in_any rs n
unfolding any_contains
ranges6 [] [] n h = refl
ranges6 [] (r ∷ rs) n h = absurd h
ranges6 (prefix4 p bits ∷ ps) [] n h = ranges6 ps [] n h
ranges6 (prefix4 p bits ∷ ps) (r ∷ rs) n h = ranges6 ps (r ∷ rs) n h
ranges6 (prefix6 p bits ∷ ps) [] n h = absurd h
ranges6 (prefix6 p bits ∷ ps) ((first, last) ∷ rs) n h =
    or_cong (prefix_range n (2 ^ (128 - bits)) (p / 2 ^ (128 - bits)) first last h.0.0 h.0.1 h.0.2)
      (ranges6 ps rs n h.1)

covers4 : Covers4 non_public_ip_prefixes reserved4
covers4 = omega arith

covers6 : Covers6 non_public_ip_prefixes reserved6
covers6 = omega arith

zoned : (ps : List Prefix) (n c : ℕ) (zone : Bytes) → any_contains ps (v6 n (c ∷ zone)) ≡ false
unfolding any_contains
zoned [] n c zone = refl
zoned (prefix4 p bits ∷ ps) n c zone = zoned ps n c zone
zoned (prefix6 p bits ∷ ps) n c zone = zoned ps n c zone

judged :
    (n : ℕ) (zone : Bytes) → any_contains non_public_ip_prefixes (v6 n zone) ≡ reserved6_zone zone n
judged n [] = ranges6 non_public_ip_prefixes reserved6 n covers6
judged n (c ∷ zone) = zoned non_public_ip_prefixes n c zone

-- `isNonPublicAddr` refuses the zero address, the reserved IPv4 ranges, the same ranges mapped into
-- IPv6, and the reserved IPv6 ranges without a zone, and refuses nothing else.
pub is_non_public_addr-is_reserved : (a : Addr) → is_non_public_addr a ≡ is_reserved a
unfolding is_non_public_addr
is_non_public_addr-is_reserved invalid = refl
is_non_public_addr-is_reserved (v4 n) = ranges4 non_public_ip_prefixes reserved4 n covers4
is_non_public_addr-is_reserved (v6 n zone) = elim (Bool-cases (is_mapped n)) [
  | inl mapped ↦ rw mapped (ranges4 non_public_ip_prefixes reserved4 (n % 2 ^ 32) covers4)
  | inr plain ↦ rw plain (judged n zone)
]

-- An IPv6 address of a reserved range is refused as it stands, and passes the guard as soon as it
-- is written with a zone.
pub zone_passes_guard :
    (n c : ℕ) (zone : Bytes)
    → in_any reserved6 n ≡ true
    → is_mapped n ≡ false
    → (is_non_public_addr (v6 n []) ≡ true) × (is_non_public_addr (v6 n (c ∷ zone)) ≡ false)
zone_passes_guard n c zone h plain = (
  is_non_public_addr-is_reserved (v6 n []) ∙ rw plain h,
  is_non_public_addr-is_reserved (v6 n (c ∷ zone)) ∙ rw plain,
)
