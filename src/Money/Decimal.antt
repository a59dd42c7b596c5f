-- ===== src/Money/Decimal.antt =====
-- What the program uses of Go's `strconv` and `fmt` for int64 in base 10: `ParseInt(s, 10, 64)`, `%d`
-- and `%02d`.
use consulting_revenue_platf.Prelude.{
  ℕ, zero, suc, ◌+◌, ◌-◌, ◌*◌, ◌/◌, ◌%◌, Bool, ◌&&◌, Option, none, some, [], ◌∷◌, leb, ltb, ◌==◌,
  if◌then◌else◌,
}
use consulting_revenue_platf.Prelude.Int.{ℤ, pos, negsuc, sub_ℕ}
use consulting_revenue_platf.Prelude.Text.{Text}
use consulting_revenue_platf.Int64.{two63}

abbrev pub is_digit : ℕ → Bool
is_digit c = leb b'0' c && leb c b'9'

-- The digits of `s` after those that make `n`; no sign, and any other character is an error.
unfoldable pub parse_nat : ℕ → Text → Option ℕ
parse_nat n [] = some n
parse_nat n (c ∷ s) = if is_digit c then parse_nat (n * 10 + (c - b'0')) s else none

-- A number of that sign if it is an int64.
abbrev pub in_range : Bool → Option ℕ → Option ℤ
in_range negative none = none
in_range negative (some n) =
    if negative
    then if leb n two63 then some (sub_ℕ 0 n) else none
    else if ltb n two63
    then some (pos n)
    else none

abbrev pub parse_digits : Text → Option ℕ
parse_digits [] = none
parse_digits (c ∷ s) = parse_nat 0 (c ∷ s)

-- `strconv.ParseInt(s, 10, 64)`: every error is `none`.
unfoldable pub parse_int : Text → Option ℤ
parse_int [] = none
parse_int (c ∷ s) =
    if c == b'+'
    then in_range Bool.false (parse_digits s)
    else if c == b'-'
    then in_range Bool.true (parse_digits s)
    else in_range Bool.false (parse_digits (c ∷ s))

-- The last `fuel` digits of `n` before `acc`.
unfoldable pub show_nat : ℕ → ℕ → Text → Text
show_nat zero n acc = acc
show_nat (suc fuel) n acc =
    let more = show_nat fuel (n / 10) ((n % 10 + b'0') ∷ acc) in
    if ltb n 10 then (n + b'0') ∷ acc else more

-- An int64 has 19 digits at most.
abbrev pub max_digits : ℕ
max_digits = 20

-- `%d`.
unfoldable pub show_int : ℤ → Text
show_int (pos n) = show_nat max_digits n []
show_int (negsuc n) = b'-' ∷ show_nat max_digits (suc n) []

-- `%02d`: at least two characters, with zeros after the sign.
unfoldable pub show_int2 : ℤ → Text
show_int2 (pos n) = if ltb n 10 then b'0' ∷ show_int (pos n) else show_int (pos n)
show_int2 (negsuc n) = show_int (negsuc n)
