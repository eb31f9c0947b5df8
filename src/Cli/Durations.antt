-- ===== src/Cli/Durations.antt =====
-- cli.go: the bounds of the durations that `parseSecondsDuration` accepts.
use mathlib.Core.Path.{subst}
use native.Mathlib.Nat.{div-add-mod, mod-lt}
use minecraft_ping.Base.{
  ℕ, ◌+◌, ◌*◌, ◌/◌, ◌≡◌, ◌<◌, ◌≤◌, refl, Bool, false, [], Bytes, Option, none, some, ok, bytes_eq,
  arith, Bool-cases, inl, inr, ◌⊎◌,
}
use minecraft_ping.Base.Int.{ℤ, pos, negsuc}
use minecraft_ping.Text.{trim_space}
use minecraft_ping.Cli.Config.{
  second, max_int64, Numbers, whole_nanoseconds, rational_seconds, parse_seconds_duration,
  duration_of, timeout_of, accepted_duration, accepted_timeout, max_allowed_timeout, given,
}

-- The whole nanoseconds of a text that is read as `numerator / denominator` seconds.
pub record IsWhole (numerator denominator duration : ℕ) : Type 0 where
  pub positive : 1 ≤ duration
  pub fits : duration ≤ max_int64
  pub below : duration * denominator ≤ numerator * second
  pub above : numerator * second < (duration + 1) * denominator

whole_nanoseconds-IsWhole :
    (n d duration : ℕ)
    → 0 < d
    → whole_nanoseconds (n * second) d ≡ some duration
    → IsWhole n d duration
whole_nanoseconds-IsWhole n d duration pos_d h =
    let q = n * second / d in
    let same : q ≡ duration = ground arith in
    let lo : 1 ≤ q = ground arith in
    let hi : q ≤ max_int64 = ground arith in
    let split = div-add-mod (n * second) d in
    let small = mod-lt (n * second) pos_d in
    subst (IsWhole n d) same (record {
      positive = lo;
      fits = hi;
      below = omega (arith, split);
      above = grind (arith, split, small);
    })

-- A duration that is accepted is the number of whole nanoseconds in the text, rounded down, and is a
-- positive int64; for a reader of rationals whose denominators are positive.
pub parse_seconds_duration-IsWhole :
    (numbers : Numbers) (raw : Bytes) (duration n d : ℕ)
    → numbers.rational (trim_space raw) ≡ some (pos n, d)
    → 0 < d
    → parse_seconds_duration numbers raw ≡ some duration
    → IsWhole n d duration
unfolding parse_seconds_duration
parse_seconds_duration-IsWhole numbers raw duration n d reads pos_d h =
    let h' : rational_seconds (numbers.rational (trim_space raw)) ≡ some duration = ground arith in
    let h'' : rational_seconds (some (pos n, d)) ≡ some duration = rw reads at h' in
    whole_nanoseconds-IsWhole n d duration pos_d (ground arith)

whole_bounds :
    (n d duration : ℕ)
    → whole_nanoseconds n d ≡ some duration
    → (1 ≤ duration) × (duration ≤ max_int64)
whole_bounds n d duration h = (ground arith, ground arith)

-- A duration that is accepted is a positive int64.
pub seconds_bounds :
    (numbers : Numbers) (raw : Bytes) (duration : ℕ)
    → parse_seconds_duration numbers raw ≡ some duration
    → (1 ≤ duration) × (duration ≤ max_int64)
unfolding parse_seconds_duration
seconds_bounds numbers raw duration h =
    let h' : rational_seconds (numbers.rational (trim_space raw)) ≡ some duration = ground arith in
    of_rational (numbers.rational (trim_space raw)) h'
  where
    of_rational :
        (r : Option (ℤ × ℕ))
        → rational_seconds r ≡ some duration
        → (1 ≤ duration) × (duration ≤ max_int64)
    of_rational none e = cc
    of_rational (some (negsuc n, d)) e = cc
    of_rational (some (pos n, d)) e = whole_bounds (n * second) d duration (ground arith)

accepted_duration-some : (d : ℕ) (o : Option ℕ) → accepted_duration o ≡ ok d → o ≡ some d
accepted_duration-some d none h = cc
accepted_duration-some d (some e) h = ground arith

accepted_timeout-bounds :
    (d : ℕ) (o : Option ℕ) → accepted_timeout o ≡ ok d → (o ≡ some d) × (d ≤ max_allowed_timeout)
accepted_timeout-bounds d none h = cc
accepted_timeout-bounds d (some e) h = (ground arith, ground arith)

pub duration_of-bounds :
    (numbers : Numbers) (default : ℕ) (raw : Bytes) (d : ℕ)
    → duration_of numbers default raw ≡ ok d
    → ((given raw ≡ false) × (d ≡ default)) ⊎ ((1 ≤ d) × (d ≤ max_int64))
duration_of-bounds numbers default raw d h = elim (Bool-cases (bytes_eq raw [])) [
  | inl e ↦ inl (rw e refl, ground arith)
  | inr e ↦ inr (
      seconds_bounds numbers raw d
        (accepted_duration-some d (parse_seconds_duration numbers raw) (ground arith)))
]

pub timeout_of-bounds :
    (numbers : Numbers) (raw : Bytes) (d : ℕ)
    → timeout_of numbers raw ≡ ok d
    → (1 ≤ d) × (d ≤ max_allowed_timeout)
timeout_of-bounds numbers raw d h = elim (Bool-cases (bytes_eq raw [])) [
  | inl e ↦ (ground arith, ground arith)
  | inr e ↦
      let (parsed, hi) =
        accepted_timeout-bounds d (parse_seconds_duration numbers raw) (ground arith) in
      ((seconds_bounds numbers raw d parsed).0, hi)
]

pub within :
    (d default most : ℕ) (g : Bool)
    → 1 ≤ default
    → default ≤ most
    → ((g ≡ false) × (d ≡ default)) ⊎ ((1 ≤ d) × (d ≤ most))
    → (1 ≤ d) × (d ≤ most)
within d default most g lo hi (inl (_, e)) = omega arith
within d default most g lo hi (inr b) = b

pub default_duration :
    (numbers : Numbers) (default : ℕ) (raw : Bytes) (d : ℕ)
    → duration_of numbers default raw ≡ ok d
    → given raw ≡ false
    → d ≡ default
default_duration numbers default raw d h e = ground arith
