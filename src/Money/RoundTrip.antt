-- ===== src/Money/RoundTrip.antt =====
-- Parsing what was printed: `ParseMajorToMinor` gives back every amount that `FormatMinorForDisplay`
-- shows, but the smallest int64.
use consulting_revenue_platf.Prelude.{
  ◌≢◌, ℕ, suc, ◌+◌, ◌-◌, ◌*◌, ◌/◌, ◌%◌, ◌<◌, ◌≡◌, refl, sym, ap, ◌∙◌, inl, inr, Bool, true, false,
  none, some, [], ◌∷◌, ◌++◌, ltb, ◌==◌, All, All-append, All-map, arith,
}
use mathlib.Core.Path.{subst}
use mathlib.Core.List.{reverse, reverse-reverse, reverse-cons, append-nil}
use consulting_revenue_platf.Prelude.Int.{ℤ, pos, negsuc}
use consulting_revenue_platf.Prelude.Text.{Text, is_space, trim_left, trim_space}
use consulting_revenue_platf.Int64.{
  IsInt64, max_int64, two63, neg64, quot, rem, add64_pos, mul64_pos,
}
use consulting_revenue_platf.Store.{ok}
use consulting_revenue_platf.Money.Decimal.{parse_int, parse_nat, show_int}
use consulting_revenue_platf.Money.Digits.{
  AllDigits, show_int-AllDigits, show_int_cons, parse_int-show_int, show_int2_digits, digits_parse,
}
use consulting_revenue_platf.Money.Currency.{
  usd, jpy, normalize_currency, normalize_currency-IsCurrency,
}
use consulting_revenue_platf.Money.Amount.{
  split_point, minor_of, parse_trimmed, parse_major_to_minor, show_cents, format_minor_for_display,
  is_negative, strip_minus, with_sign, with_parts, with_whole, apply_sign,
}

-- A text with no space in it is trimmed already.
abbrev NoSpace : Text → Type 0
NoSpace = All (λ c. is_space c ≡ false)

trim_left_id : (s : Text) → NoSpace s → trim_left s ≡ s
unfolding trim_left
trim_left_id [] h = refl
trim_left_id (c ∷ s) h = rw h.0

NoSpace-reverse : (s : Text) → NoSpace s → NoSpace (reverse s)
NoSpace-reverse [] h = tt
NoSpace-reverse (c ∷ s) h =
    rw (reverse-cons c s) (All-append _ (reverse s) (c ∷ []) (NoSpace-reverse s h.1) (h.0, tt))

trim_space_id : (s : Text) → NoSpace s → trim_space s ≡ s
unfolding trim_space
trim_space_id s h =
    rw (trim_left_id s h, trim_left_id (reverse s) (NoSpace-reverse s h)) (reverse-reverse s)

digits-NoSpace : (s : Text) → AllDigits s → NoSpace s
digits-NoSpace s h = All-map _ _ s (λ c d. ground arith) h

-- The digits before a point are the whole part.
split_digits : (s t : Text) → AllDigits s → split_point (s ++ b'.' ∷ t) ≡ (s, some t)
unfolding split_point
split_digits [] t h = refl
split_digits (c ∷ s) t h =
    let p : (c == b'.') ≡ false = ground (arith, h.0) in rw (split_digits s t h.1, p)

split_no_point : (s : Text) → AllDigits s → split_point s ≡ (s, none)
unfolding split_point
split_no_point [] h = refl
split_no_point (c ∷ s) h =
    let p : (c == b'.') ≡ false = ground (arith, h.0) in rw (split_no_point s h.1, p)

-- The fraction of cents is read back.
cents_parse : (n : ℕ) → n < 100 → parse_int ((n / 10 + 48) ∷ (n % 10 + 48) ∷ []) ≡ some (pos n)
unfolding parse_nat
cents_parse n h =
    digits_parse (n / 10 + 48) n ((n % 10 + 48) ∷ []) (ground arith) (omega arith) (ground arith)

-- The printed form of `n` cents, and of an amount with its sign.
abbrev cents_text : ℕ → Text
cents_text n = show_int (pos (n / 100)) ++ b'.' ∷ (n % 100 / 10 + 48) ∷ (n % 100 % 10 + 48) ∷ []

abbrev signed : Bool → Text → Text
signed true s = b'-' ∷ s
signed false s = s

-- A text that begins with a digit has no sign.
strip_digit :
    (s : Text)
    → ((c : ℕ) × (r : Text) × (s ≡ c ∷ r))
    → AllDigits s
    → (t : Text) → strip_minus (s ++ t) ≡ (false, s ++ t)
strip_digit [] (c, r, e) d t = cc
strip_digit (c ∷ s) e d t = let p : (c == b'-') ≡ false = ground (arith, d.0) in rw p

strip_signed :
    (b : Bool) (n : ℕ) (t : Text)
    → strip_minus (signed b (show_int (pos n) ++ t)) ≡ (b, show_int (pos n) ++ t)
strip_signed true n t = refl
strip_signed false n t = strip_digit (show_int (pos n)) (show_int_cons n) (show_int-AllDigits n) t

two_digits_minor :
    (n : ℕ)
    → n < two63
    → minor_of usd (pos (n / 100)) ((n % 100 / 10 + 48) ∷ (n % 100 % 10 + 48) ∷ []) ≡ ok (pos n)
unfolding minor_of
two_digits_minor n h =
    let d1 : ltb (n % 100 / 10 + 48) 0x80 ≡ true = ground arith in
    let d2 : ltb (n % 100 % 10 + 48) 0x80 ≡ true = ground arith in
    let q : n / 100 * 100 < two63 = omega arith in
    let sum : n / 100 * 100 + n % 100 ≡ n = omega arith in
    rw (
      d1,
      d2,
      cents_parse (n % 100) (omega arith),
      mul64_pos (n / 100) 100 q,
      add64_pos (n / 100 * 100) (n % 100) (omega arith),
      sum,
    )

parse_cents :
    (b : Bool) (n : ℕ)
    → n < two63
    → parse_trimmed usd (signed b (cents_text n)) ≡ apply_sign b (ok (pos n))
unfolding parse_trimmed
parse_cents b n h =
    let whole : Text = show_int (pos (n / 100)) in
    let frac : Text = (n % 100 / 10 + 48) ∷ (n % 100 % 10 + 48) ∷ [] in
    ap (with_sign usd) (strip_signed b (n / 100) (b'.' ∷ frac))
    ∙ ap (with_parts usd b) (split_digits whole frac (show_int-AllDigits (n / 100)))
    ∙ ap (with_whole usd b frac) (parse_int-show_int (n / 100) (omega arith))
    ∙ ap (apply_sign b) (two_digits_minor n h)

parse_yen :
    (b : Bool) (n : ℕ)
    → n < two63
    → parse_trimmed jpy (signed b (show_int (pos n))) ≡ apply_sign b (ok (pos n))
unfolding parse_trimmed minor_of
parse_yen b n h =
    let s : Text = show_int (pos n) in
    ap (λ t. with_sign jpy (strip_minus (signed b t))) (sym (append-nil s))
    ∙ ap (with_sign jpy) (strip_signed b n [])
    ∙ ap (λ t. with_parts jpy b (split_point t)) (append-nil s)
    ∙ ap (with_parts jpy b) (split_no_point s (show_int-AllDigits n))
    ∙ ap (with_whole jpy b []) (parse_int-show_int n h)

-- The whole of the parser on a text with no space.
parse_normal :
    (currency c t : Text)
    → normalize_currency currency ≡ ok c
    → NoSpace t
    → ¬ (t ≡ [])
    → parse_major_to_minor currency t ≡ parse_trimmed c t
unfolding parse_major_to_minor
parse_normal currency c [] hc h ne = absurd (ne refl)
parse_normal currency c (x ∷ t) hc h ne =
    rw (hc, parse_major_to_minor) (rw (trim_space_id (x ∷ t) h))

signed-NoSpace : (b : Bool) (s : Text) → NoSpace s → NoSpace (signed b s)
signed-NoSpace true s h = (refl, h)
signed-NoSpace false s h = h

signed-ne : (b : Bool) (n : ℕ) (t : Text) → ¬ (signed b (show_int (pos n) ++ t) ≡ [])
signed-ne true n t h = cc (h)
signed-ne false n t h = let (c, s, e) = show_int_cons n in absurd (cc (h, e))

cents_text-NoSpace : (n : ℕ) → NoSpace (cents_text n)
cents_text-NoSpace n =
    All-append _ (show_int (pos (n / 100))) _ (digits-NoSpace _ (show_int-AllDigits (n / 100)))
      (refl, (ground arith, (ground arith, tt)))

parse_signed_cents :
    (b : Bool) (currency : Text) (n : ℕ)
    → normalize_currency currency ≡ ok usd
    → n < two63
    → parse_major_to_minor currency (signed b (cents_text n)) ≡ apply_sign b (ok (pos n))
parse_signed_cents b currency n hc h =
    parse_normal currency usd _ hc (signed-NoSpace b _ (cents_text-NoSpace n))
      (signed-ne b (n / 100) _)
    ∙ parse_cents b n h

parse_signed_yen :
    (b : Bool) (currency : Text) (n : ℕ)
    → normalize_currency currency ≡ ok jpy
    → n < two63
    → parse_major_to_minor currency (signed b (show_int (pos n))) ≡ apply_sign b (ok (pos n))
parse_signed_yen b currency n hc h =
    parse_normal currency jpy _ hc (signed-NoSpace b _ (digits-NoSpace _ (show_int-AllDigits n)))
      (λ e. signed-ne b n [] (subst (λ t. signed b t ≡ []) (sym (append-nil (show_int (pos n)))) e))
    ∙ parse_yen b n h

-- The amount's own form: its sign, and the digits of its absolute value.
neg64_pos : (k : ℕ) → k < two63 - 1 → neg64 (pos (suc k)) ≡ negsuc k
unfolding neg64
neg64_pos k h = ground arith

neg64_negsuc : (k : ℕ) → k < two63 - 1 → neg64 (negsuc k) ≡ pos (suc k)
unfolding neg64
neg64_negsuc k h = ground arith

format_cents : (b : Bool) (n : ℕ) → show_cents (signed b []) (pos n) ≡ signed b (cents_text n)
unfolding show_cents quot rem
format_cents true n = rw (show_int2_digits (n % 100) (omega arith))
format_cents false n = rw (show_int2_digits (n % 100) (omega arith))

-- Shown and read back.
abbrev ReadsBack : Text → ℤ → Type 0
ReadsBack currency a =
    (t : Text) × (format_minor_for_display currency a ≡ ok t)
    × (parse_major_to_minor currency t ≡ ok a)

small : (k : ℕ) → k < two63 → negsuc k ≢ negsuc max_int64 → k < two63 - 1
small k h ne = ground arith

not_negative : (n : ℕ) → is_negative (pos n) ≡ false
not_negative n = ground arith

is_minus : (k : ℕ) → is_negative (negsuc k) ≡ true
is_minus k = ground arith

dollars_back :
    (currency : Text) (a : ℤ)
    → normalize_currency currency ≡ ok usd
    → IsInt64 a
    → a ≢ negsuc max_int64
    → ReadsBack currency a
unfolding format_minor_for_display
dollars_back currency (pos n) hc h ne = (
  cents_text n,
  rw (hc, format_minor_for_display) (rw (not_negative n) (ap ok (format_cents false n))),
  parse_signed_cents false currency n hc h,
)
dollars_back currency (negsuc k) hc h ne = (
  signed true (cents_text (suc k)),
  rw (hc, format_minor_for_display)
      (rw (is_minus k, neg64_negsuc k (small k h ne)) (ap ok (format_cents true (suc k)))),
  parse_signed_cents true currency (suc k) hc (omega (arith, small k h ne))
      ∙ ap ok (neg64_pos k (small k h ne)),
)

yen_back :
    (currency : Text) (a : ℤ)
    → normalize_currency currency ≡ ok jpy
    → IsInt64 a
    → a ≢ negsuc max_int64
    → ReadsBack currency a
unfolding format_minor_for_display show_int
yen_back currency (pos n) hc h ne =
    (show_int (pos n), rw (hc, format_minor_for_display), parse_signed_yen false currency n hc h)
yen_back currency (negsuc k) hc h ne = (
  signed true (show_int (pos (suc k))),
  rw (hc, format_minor_for_display),
  parse_signed_yen true currency (suc k) hc (omega (arith, small k h ne))
      ∙ ap ok (neg64_pos k (small k h ne)),
)

-- Every int64 amount but the smallest, in every currency that is accepted (however it is spelled), is
-- shown as a text that `ParseMajorToMinor` reads back as the same amount.
pub parse-format :
    (currency c : Text) (a : ℤ)
    → normalize_currency currency ≡ ok c
    → IsInt64 a
    → a ≢ negsuc max_int64
    → (t : Text) × (format_minor_for_display currency a ≡ ok t)
      × (parse_major_to_minor currency t ≡ ok a)
parse-format currency c a hc h ne = elim (normalize_currency-IsCurrency currency c hc) [
  | inl e ↦ dollars_back currency a (hc ∙ ap ok e) h ne
  | inr e ↦ yen_back currency a (hc ∙ ap ok e) h ne
]
