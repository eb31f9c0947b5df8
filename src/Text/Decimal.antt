-- ===== src/Text/Decimal.antt =====
-- The decimal form of an int: its digits, its length, and that `strconv.Atoi` reads it back.
use minecraft_ping.Base.{
  ℕ, zero, suc, ◌+◌, ◌-◌, ◌*◌, ◌/◌, ◌%◌, ◌^◌, ◌≡◌, ◌≤◌, ◌<◌, refl, ap, sym, ◌∙◌, true, false, [],
  ◌∷◌, ◌++◌, Bytes, length, All, none, some, ltb, ltb_iff, leb, ◌==◌, Bool-cases, inl, inr, arith,
  ◌&&◌,
}
use minecraft_ping.Base.Int.{pos}
use minecraft_ping.Text.{decimal_digits, decimal, digits_value, unsigned_value, atoi}
use minecraft_ping.Text.Utf8.{utf8_loop, utf8_start}

abbrev pub IsDigit : ℕ → Type 0
IsDigit c = (48 ≤ c) × (c ≤ 57)

-- What holds in front of a list that has a property, once a digit is put in front of it.
shifted-IsDigit : (n : ℕ) → n < 10 → IsDigit (48 + n)
shifted-IsDigit n h = (omega arith, omega (arith, h))

digits_small :
    (fuel n : ℕ) (behind : Bytes) → n < 10 → decimal_digits (suc fuel) n behind ≡ (48 + n) ∷ behind
unfolding decimal_digits
digits_small fuel n behind h =
    ap
      (λ b. elim b [
        | true ↦ (48 + n) ∷ behind
        | false ↦ decimal_digits fuel (n / 10) ((48 + n % 10) ∷ behind)
      ])
      ((ltb_iff n 10).1 h)

digits_big :
    (fuel n : ℕ) (behind : Bytes)
    → ltb n 10 ≡ false
    → decimal_digits (suc fuel) n behind ≡ decimal_digits fuel (n / 10) ((48 + n % 10) ∷ behind)
unfolding decimal_digits
digits_big fuel n behind h =
    ap
      (λ b. elim b [
        | true ↦ (48 + n) ∷ behind
        | false ↦ decimal_digits fuel (n / 10) ((48 + n % 10) ∷ behind)
      ])
      h

ltb-false : (m n : ℕ) → ltb m n ≡ false → n ≤ m
ltb-false m n h = ground arith

decimal_digits-All :
    (fuel n : ℕ) (behind : Bytes) → All IsDigit behind → All IsDigit (decimal_digits fuel n behind)
unfolding decimal_digits
decimal_digits-All zero n behind h = h
decimal_digits-All (suc fuel) n behind h = elim (Bool-cases (ltb n 10)) [
  | inl small ↦
      let few = (ltb_iff n 10).0 small in
      rw (digits_small fuel n behind few) (shifted-IsDigit n few, h)
  | inr big ↦ rw (digits_big fuel n behind big) (
      decimal_digits-All fuel (n / 10) ((48 + n % 10) ∷ behind)
        (shifted-IsDigit (n % 10) (omega arith), h))
]

pub decimal-All : (n : ℕ) → All IsDigit (decimal (pos n))
unfolding decimal
decimal-All n = decimal_digits-All (suc n) n [] tt

-- The first number with one digit more.
abbrev pub limit : ℕ → ℕ
limit zero = 1
limit (suc k) = 10 * limit k

decimal_digits-length :
    (fuel n k : ℕ) (behind : Bytes)
    → n < limit (suc k)
    → length (decimal_digits fuel n behind) ≤ suc k + length behind
unfolding decimal_digits
decimal_digits-length zero n k behind h = omega arith
decimal_digits-length (suc fuel) n k behind h = elim (Bool-cases (ltb n 10)) [
  | inl small ↦ rw (digits_small fuel n behind ((ltb_iff n 10).0 small)) (omega arith)
  | inr big ↦ rw (digits_big fuel n behind big) (
      longer k h (ltb-false n 10 big)
        (λ l lower. decimal_digits-length fuel (n / 10) l ((48 + n % 10) ∷ behind) lower))
]
  where
    longer :
        (k : ℕ)
        → n < limit (suc k)
        → 10 ≤ n
        → ((l : ℕ)
            → n / 10 < limit (suc l)
            → length (decimal_digits fuel (n / 10) ((48 + n % 10) ∷ behind))
              ≤ suc l + suc (length behind))
        → length (decimal_digits fuel (n / 10) ((48 + n % 10) ∷ behind)) ≤ suc k + length behind
    longer zero h ten rest = absurd (omega (arith, h, ten))
    longer (suc l) h ten rest = omega (arith, rest l (omega (arith, h)))

pub decimal-length : (n k : ℕ) → n < limit (suc k) → length (decimal (pos n)) ≤ suc k
unfolding decimal
decimal-length n k h = omega (arith, decimal_digits-length (suc n) n k [] h)

shifted-is_digit : (n : ℕ) → n < 10 → (leb 48 (48 + n) && leb (48 + n) 57) ≡ true
shifted-is_digit n h = ground arith

digit_step :
    (acc n : ℕ) (behind : Bytes)
    → n < 10
    → digits_value acc ((48 + n) ∷ behind) ≡ digits_value (acc * 10 + n) behind
unfolding digits_value
digit_step acc n behind h =
    ap (λ b. elim b [ true ↦ digits_value (acc * 10 + (48 + n - 48)) behind | false ↦ none ])
      (shifted-is_digit n h)
    ∙ ap (λ m. digits_value (acc * 10 + m) behind) (omega arith)

digits_value-decimal_digits :
    (fuel n : ℕ) (behind : Bytes)
    → n < fuel
    → digits_value 0 (decimal_digits fuel n behind) ≡ digits_value n behind
digits_value-decimal_digits zero n behind h = absurd (omega (arith, h))
digits_value-decimal_digits (suc fuel) n behind h = elim (Bool-cases (ltb n 10)) [
  | inl small ↦
      let few = (ltb_iff n 10).0 small in
      ap (digits_value 0) (digits_small fuel n behind few)
      ∙ digit_step 0 n behind few
      ∙ ap (λ m. digits_value m behind) (omega arith)
  | inr big ↦
      ap (digits_value 0) (digits_big fuel n behind big)
      ∙ digits_value-decimal_digits fuel (n / 10) ((48 + n % 10) ∷ behind)
          (omega (arith, h, ltb-false n 10 big))
      ∙ digit_step (n / 10) (n % 10) behind (omega arith)
      ∙ ap (λ m. digits_value m behind) (omega arith)
]

-- A list of digits is not empty, and does not begin with a sign.
decimal_digits-head :
    (fuel n : ℕ) (behind : Bytes)
    → All IsDigit behind
    → n < fuel
    → (c : ℕ) × (cs : Bytes) × (decimal_digits fuel n behind ≡ c ∷ cs) × IsDigit c
decimal_digits-head zero n behind h k = absurd (omega (arith, k))
decimal_digits-head (suc fuel) n behind h k = elim (Bool-cases (ltb n 10)) [
  | inl small ↦
      let few = (ltb_iff n 10).0 small in
      (48 + n, behind, digits_small fuel n behind few, shifted-IsDigit n few)
  | inr big ↦
      let (c, cs, e, d) =
        decimal_digits-head fuel (n / 10) ((48 + n % 10) ∷ behind)
          (shifted-IsDigit (n % 10) (omega arith), h) (omega (arith, k, ltb-false n 10 big)) in
      (c, cs, digits_big fuel n behind big ∙ e, d)
]

==_apart : (m n : ℕ) → n < m → (m == n) ≡ false
==_apart m n h = ground arith

utf8_start-ascii : (x : ℕ) → x < 0x80 → utf8_start x ≡ some []
utf8_start-ascii x h = rw ((ltb_iff x 0x80).1 h) refl

-- ASCII in front of a text does not change whether it is valid UTF-8.
pub utf8_loop-ascii :
    (xs ys : Bytes) → All (λ c. c < 0x80) xs → utf8_loop [] (xs ++ ys) ≡ utf8_loop [] ys
unfolding utf8_loop
utf8_loop-ascii [] ys h = refl
utf8_loop-ascii (x ∷ xs) ys h =
    ap (λ o. elim o [ none ↦ false | some rs ↦ utf8_loop rs (xs ++ ys) ]) (utf8_start-ascii x h.0)
    ∙ utf8_loop-ascii xs ys h.1

pub digits-ascii : (xs : Bytes) → All IsDigit xs → All (λ c. c < 0x80) xs
digits-ascii [] h = tt
digits-ascii (x ∷ xs) h = (omega (arith, h.0.1), digits-ascii xs h.1)

atoi_digits :
    (c n : ℕ) (cs : Bytes)
    → IsDigit c
    → digits_value 0 (c ∷ cs) ≡ some n
    → n < 2 ^ 63
    → atoi (c ∷ cs) ≡ some (pos n)
unfolding atoi unsigned_value
atoi_digits c n cs d value small =
    rw
      (
        ==_apart c 45 (omega (arith, d.0)),
        ==_apart c 43 (omega (arith, d.0)),
        value,
        (ltb_iff n (2 ^ 63)).1 small,
      )
      refl

-- `strconv.Atoi` reads back the decimal form of every int that is not negative.
pub atoi-decimal : (n : ℕ) → n < 2 ^ 63 → atoi (decimal (pos n)) ≡ some (pos n)
unfolding decimal digits_value
atoi-decimal n small =
    let (c, cs, e, d) = decimal_digits-head (suc n) n [] tt (omega arith) in
    ap atoi e
    ∙ atoi_digits c n cs d
        (ap (digits_value 0) (sym e) ∙ digits_value-decimal_digits (suc n) n [] (omega arith)) small
