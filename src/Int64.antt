-- ===== src/Int64.antt =====
-- Go's int64: arithmetic on the integers, wrapped to 64 bits, and its division, which truncates.
use consulting_revenue_platf.Prelude.{
  ℕ, suc, ◌+◌, ◌-◌, ◌*◌, ◌/◌, ◌%◌, ◌≤◌, ◌<◌, ◌≡◌, arith, ltb, if◌then◌else◌,
}
use consulting_revenue_platf.Prelude.Int.{ℤ, pos, negsuc, ◌+ℤ◌, ◌-ℤ◌, ◌*ℤ◌, neg_part}

abbrev pub two63 : ℕ
two63 = 9223372036854775808

abbrev pub two64 : ℕ
two64 = 18446744073709551616

-- `math.MaxInt64`.
abbrev pub max_int64 : ℕ
max_int64 = 9223372036854775807

abbrev pub IsInt64 : ℤ → Type 0
IsInt64 (pos n) = n < two63
IsInt64 (negsuc n) = n < two63

-- The 64 bits of an integer, and the integer of 64 bits.
abbrev bits : ℤ → ℕ
bits (pos n) = n % two64
bits (negsuc n) = two64 - 1 - n % two64

abbrev of_bits : ℕ → ℤ
of_bits m = if ltb m two63 then pos m else negsuc (two64 - m - 1)

unfoldable pub wrap : ℤ → ℤ
wrap z = of_bits (bits z)

pub wrap-IsInt64 : (z : ℤ) → IsInt64 (wrap z)
unfolding wrap
wrap-IsInt64 (pos n) = ground arith
wrap-IsInt64 (negsuc n) = ground arith

-- In range nothing is wrapped.
pub wrap_id : (z : ℤ) → IsInt64 z → wrap z ≡ z
unfolding wrap
wrap_id (pos n) h = ground arith
wrap_id (negsuc n) h = ground arith

unfoldable pub add64 : ℤ → ℤ → ℤ
unfolding wrap ◌+ℤ◌
add64 a b = wrap (a +ℤ b)

unfoldable pub sub64 : ℤ → ℤ → ℤ
unfolding wrap ◌-ℤ◌
sub64 a b = wrap (a -ℤ b)

unfoldable pub mul64 : ℤ → ℤ → ℤ
unfolding wrap ◌*ℤ◌
mul64 a b = wrap (a *ℤ b)

-- `-a`.
unfoldable pub neg64 : ℤ → ℤ
unfolding wrap ◌-ℤ◌
neg64 a = wrap (pos 0 -ℤ a)

-- `a / d` and `a % d` by a positive constant.
unfoldable pub quot : ℤ → ℕ → ℤ
unfolding ◌-ℤ◌
quot (pos n) d = pos (n / d)
quot (negsuc n) d = pos 0 -ℤ pos (suc n / d)

unfoldable pub rem : ℤ → ℕ → ℤ
unfolding ◌-ℤ◌
rem (pos n) d = pos (n % d)
rem (negsuc n) d = pos 0 -ℤ pos (suc n % d)

-- A non-negative sum or product that fits is exact.
pub add64_pos : (a b : ℕ) → a + b < two63 → add64 (pos a) (pos b) ≡ pos (a + b)
unfolding add64
add64_pos a b h = ground arith

pub mul64_pos : (a b : ℕ) → a * b < two63 → mul64 (pos a) (pos b) ≡ pos (a * b)
unfolding mul64
mul64_pos a b h = ground arith

pub sub64_pos : (a b : ℕ) → b ≤ a → a < two63 → sub64 (pos a) (pos b) ≡ pos (a - b)
unfolding sub64
sub64_pos a b h k = ground arith

pub neg64_pos : (n : ℕ) → n < two63 → neg_part (neg64 (pos n)) ≡ n
unfolding neg64
neg64_pos n h = ground arith

-- A sum that is too large by less than 2^63 wraps around to a negative number.
pub add64_wraps :
    (a b : ℕ) → two63 ≤ a + b → a + b < two64 → add64 (pos a) (pos b) ≡ negsuc (two64 - (a + b) - 1)
unfolding add64
add64_wraps a b h k = ground arith
