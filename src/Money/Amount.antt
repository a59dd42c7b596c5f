-- ===== src/Money/Amount.antt =====
-- `ParseMajorToMinor` and `FormatMinorForDisplay`: a decimal amount and its int64 of minor units.
use consulting_revenue_platf.Prelude.{
  ℕ, ◌+◌, Bool, true, false, Option, none, some, [], ◌∷◌, ◌++◌, ltb, ◌==◌, if◌then◌else◌,
}
use consulting_revenue_platf.Prelude.Int.{ℤ, pos, ltb_ℤ}
use consulting_revenue_platf.Prelude.Text.{Text, text_eq, trim_space}
use consulting_revenue_platf.Int64.{add64, mul64, neg64, quot, rem}
use consulting_revenue_platf.Store.{
  Result, ok, err, unsupported_currency, amount_required, invalid_amount, too_many_decimals,
  no_decimals,
}
use consulting_revenue_platf.Money.Decimal.{parse_int, show_int, show_int2}
use consulting_revenue_platf.Money.Currency.{usd, jpy, normalize_currency}

-- `strings.SplitN(s, ".", 2)`: what stands before the first point, and after it.
unfoldable pub split_point : Text → Text × Option Text
split_point [] = ([], none)
split_point (c ∷ s) =
    let (whole, frac) = split_point s in if c == b'.' then ([], some s) else (c ∷ whole, frac)

-- `len(frac)`: the bytes of its UTF-8 form.
abbrev pub rune_len : ℕ → ℕ
rune_len c = if ltb c 0x80 then 1 else if ltb c 0x800 then 2 else if ltb c 0x10000 then 3 else 4

abbrev pub byte_len : Text → ℕ
byte_len [] = 0
byte_len (c ∷ s) = rune_len c + byte_len s

abbrev pub strip_minus : Text → Bool × Text
strip_minus [] = (false, [])
strip_minus (c ∷ s) = if c == b'-' then (true, s) else (false, c ∷ s)

-- The fraction of a dollar, brought to two digits.
abbrev pub pad_cents : Text → Text
pad_cents frac =
    if byte_len frac == 1
    then frac ++ b'0' ∷ []
    else if byte_len frac == 0
    then b'0' ∷ b'0' ∷ []
    else frac

abbrev pub is_empty : Text → Bool
is_empty [] = true
is_empty (c ∷ s) = false

-- The `switch` on the currency.
unfoldable pub minor_of : Text → ℤ → Text → Result ℤ
minor_of currency whole frac =
    if text_eq currency usd
    then (if ltb 2 (byte_len frac)
        then err too_many_decimals
        else elim (parse_int (pad_cents frac)) [
          | none ↦ err invalid_amount
          | some f ↦ ok (add64 (mul64 whole (pos 100)) f)
        ])
    else if text_eq currency jpy
    then (if is_empty frac then ok whole else err no_decimals)
    else err unsupported_currency

abbrev pub frac_text : Option Text → Text
frac_text none = []
frac_text (some f) = f

abbrev pub apply_sign : Bool → Result ℤ → Result ℤ
apply_sign negative (err e) = err e
apply_sign negative (ok m) = ok (if negative then neg64 m else m)

-- What is done with the parsed whole part, with the parts, and with the sign taken off.
abbrev pub with_whole : Text → Bool → Text → Option ℤ → Result ℤ
with_whole currency negative frac none = err invalid_amount
with_whole currency negative frac (some whole) = apply_sign negative (minor_of currency whole frac)

abbrev pub with_parts : Text → Bool → Text × Option Text → Result ℤ
with_parts currency negative (whole, frac) =
    with_whole currency negative (frac_text frac) (parse_int whole)

abbrev pub with_sign : Text → Bool × Text → Result ℤ
with_sign currency (negative, unsigned) = with_parts currency negative (split_point unsigned)

-- The body after the trimmed amount was found not to be empty.
unfoldable pub parse_trimmed : Text → Text → Result ℤ
parse_trimmed currency major = with_sign currency (strip_minus major)

-- `ParseMajorToMinor`.
unfoldable pub parse_major_to_minor : Text → Text → Result ℤ
parse_major_to_minor currency major = elim (normalize_currency currency) [
  | err e ↦ err e
  | ok c ↦
      (let trimmed = trim_space major in
        if is_empty trimmed then err amount_required else parse_trimmed c trimmed)
]

abbrev pub is_negative : ℤ → Bool
is_negative a = ltb_ℤ a (pos 0)

-- `fmt.Sprintf("%s%d.%02d", sign, whole, frac)`.
unfoldable pub show_cents : Text → ℤ → Text
show_cents sign a = sign ++ (show_int (quot a 100) ++ (b'.' ∷ show_int2 (rem a 100)))

-- `FormatMinorForDisplay`.
unfoldable pub format_minor_for_display : Text → ℤ → Result Text
format_minor_for_display currency amount = elim (normalize_currency currency) [
  | err e ↦ err e
  | ok c ↦
      (if text_eq c jpy
        then ok (show_int amount)
        else if is_negative amount
        then ok (show_cents (b'-' ∷ []) (neg64 amount))
        else ok (show_cents [] amount))
]
