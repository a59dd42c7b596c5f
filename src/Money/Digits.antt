-- ===== src/Money/Digits.antt =====
-- Printing and parsing decimal digits: `ParseInt` reads back what `%d` and `%02d` write.
use consulting_revenue_platf.Prelude.{
  ℕ, zero, suc, ◌+◌, ◌-◌, ◌*◌, ◌/◌, ◌%◌, ◌^◌, ◌<◌, ◌≡◌, ◌∙◌, true, false, inl, inr, some, [], ◌∷◌,
  ltb, ◌==◌, Bool-cases, All, arith, ltb→lt, lt→ltb,
}
use native.Mathlib.Nat.{pow-suc}
use consulting_revenue_platf.Prelude.Int.{pos}
use consulting_revenue_platf.Prelude.Text.{Text}
use consulting_revenue_platf.Int64.{two63}
use consulting_revenue_platf.Money.Decimal.{
  is_digit, parse_nat, parse_int, show_nat, show_int, show_int2, max_digits,
}

digit : (n : ℕ) → n < 10 → is_digit (n + 48) ≡ true
digit n h = ground arith

digit_read : (n : ℕ) (s : Text) → n < 10 → parse_nat 0 ((n + 48) ∷ s) ≡ parse_nat n s
unfolding parse_nat
digit_read n s h = let e : 0 + (n + 48 - 48) ≡ n = omega arith in rw (digit n h, e)

digit_read_next : (n : ℕ) (s : Text) → parse_nat (n / 10) ((n % 10 + 48) ∷ s) ≡ parse_nat n s
unfolding parse_nat
digit_read_next n s =
    let e : n / 10 * 10 + (n % 10 + 48 - 48) ≡ n = omega arith in
    let d : n % 10 < 10 = omega arith in rw (digit (n % 10) d, e)

parse-show_nat :
    (f n : ℕ) (acc : Text) → n < 10 ^ suc f → parse_nat 0 (show_nat (suc f) n acc) ≡ parse_nat n acc
unfolding show_nat
parse-show_nat zero n acc h = let t : ltb n 10 ≡ true = ground arith in rw t (digit_read n acc h)
parse-show_nat (suc f) n acc h = elim (Bool-cases (ltb n 10)) [
  | inl t ↦ rw t (digit_read n acc (ltb→lt n 10 t))
  | inr t ↦
      rw t (parse-show_nat f (n / 10) _ (omega (arith, pow-suc 10 (suc f))) ∙ digit_read_next n acc)
]

-- Every character that is printed is a digit.
abbrev pub AllDigits : Text → Type 0
AllDigits = All (λ c. is_digit c ≡ true)

show_nat-AllDigits : (f n : ℕ) (acc : Text) → AllDigits acc → AllDigits (show_nat f n acc)
unfolding show_nat
show_nat-AllDigits zero n acc h = h
show_nat-AllDigits (suc f) n acc h = elim (Bool-cases (ltb n 10)) [
  | inl t ↦ rw t (digit n (ltb→lt n 10 t), h)
  | inr t ↦ rw t (show_nat-AllDigits f (n / 10) _ (digit (n % 10) (omega arith), h))
]

-- A number of at most `f` digits is printed as at least one.
show_nat_cons : (f n : ℕ) (acc : Text) → (c : ℕ) × (s : Text) × (show_nat (suc f) n acc ≡ c ∷ s)
unfolding show_nat
show_nat_cons zero n acc = elim (Bool-cases (ltb n 10)) [
  | inl t ↦ (n + 48, acc, rw t)
  | inr t ↦ (n % 10 + 48, acc, rw t)
]
show_nat_cons (suc f) n acc = elim (Bool-cases (ltb n 10)) [
  | inl t ↦ (n + 48, acc, rw t)
  | inr t ↦ let (c, s, e) = show_nat_cons f (n / 10) ((n % 10 + 48) ∷ acc) in (c, s, rw t e)
]

-- `%d` of an int64 that is not negative: digits, which `ParseInt` reads back.
pub show_int-AllDigits : (n : ℕ) → AllDigits (show_int (pos n))
unfolding show_int
show_int-AllDigits n = show_nat-AllDigits max_digits n [] tt

pub show_int_cons : (n : ℕ) → (c : ℕ) × (s : Text) × (show_int (pos n) ≡ c ∷ s)
unfolding show_int
show_int_cons n = show_nat_cons 19 n []

-- A text of digits alone is the number that they make.
pub digits_parse :
    (c n : ℕ) (s : Text)
    → is_digit c ≡ true
    → n < two63
    → parse_nat 0 (c ∷ s) ≡ some n
    → parse_int (c ∷ s) ≡ some (pos n)
unfolding parse_int
digits_parse c n s d h e =
    let plus : (c == 43) ≡ false = ground arith in
    let minus : (c == 45) ≡ false = ground arith in rw (plus, minus, e, lt→ltb n two63 h)

text_parse :
    (n : ℕ) (t : Text)
    → n < two63
    → AllDigits t
    → parse_nat 0 t ≡ some n
    → ((c : ℕ) × (s : Text) × (t ≡ c ∷ s))
    → parse_int t ≡ some (pos n)
text_parse n [] h d e (c, s, p) = cc
text_parse n (c ∷ s) h d e p = digits_parse c n s d.0 h e

pub parse_int-show_int : (n : ℕ) → n < two63 → parse_int (show_int (pos n)) ≡ some (pos n)
unfolding show_int parse_nat
parse_int-show_int n h =
    text_parse n (show_nat max_digits n []) h (show_nat-AllDigits max_digits n [] tt)
      (parse-show_nat 19 n [] (omega arith)) (show_nat_cons 19 n [])

-- `%02d` of a number below 100 is its two digits.
pub show_int2_digits : (n : ℕ) → n < 100 → show_int2 (pos n) ≡ (n / 10 + 48) ∷ (n % 10 + 48) ∷ []
unfolding show_int2 show_int show_nat
show_int2_digits n h = elim (Bool-cases (ltb n 10)) [
  | inl t ↦
      let q : n / 10 ≡ 0 = omega (arith, ltb→lt n 10 t) in
      let r : n % 10 ≡ n = omega (arith, ltb→lt n 10 t) in rw (t, q, r)
  | inr t ↦ let u : ltb (n / 10) 10 ≡ true = ground arith in rw (t, u)
]
