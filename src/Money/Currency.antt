-- ===== src/Money/Currency.antt =====
-- `NormalizeCurrencyCode`: the two currencies of the first version, in any case and spacing.
use consulting_revenue_platf.Prelude.{◌≡◌, ◌⊎◌, inl, inr, ◌||◌, if◌then◌else◌, Bool-cases, arith}
use consulting_revenue_platf.Prelude.Text.{
  Text, codes, text_eq, text_eq_sound, trim_space, to_upper,
}
use consulting_revenue_platf.Store.{Error, Result, ok, err, unsupported_currency}

abbrev pub usd : Text
usd = codes "USD"

abbrev pub jpy : Text
jpy = codes "JPY"

unfoldable pub normalize_currency : Text → Result Text
normalize_currency s =
    let t = trim_space (to_upper s) in
    if text_eq t usd || text_eq t jpy then ok t else err unsupported_currency

-- What it accepts.
abbrev pub IsCurrency : Text → Type 0
IsCurrency c = (c ≡ usd) ⊎ (c ≡ jpy)

accepted :
    (t c : Text)
    → (if text_eq t usd || text_eq t jpy then ok t else err unsupported_currency) ≡ ok c
    → IsCurrency c
accepted t c h = elim (Bool-cases (text_eq t usd)) [
  | inl u ↦ ground (arith, text_eq_sound t usd u)
  | inr u ↦ elim (Bool-cases (text_eq t jpy)) [
    | inl j ↦ ground (arith, text_eq_sound t jpy j)
    | inr j ↦ absurd (ground arith)
  ]
]

pub normalize_currency-IsCurrency : (s c : Text) → normalize_currency s ≡ ok c → IsCurrency c
unfolding normalize_currency
normalize_currency-IsCurrency s c h = accepted (trim_space (to_upper s)) c h

pub normalize_currency-err :
    (s : Text) (e : Error) → normalize_currency s ≡ err e → e ≡ unsupported_currency
unfolding normalize_currency
normalize_currency-err s e h = ground arith

pub normalize_currency_fixed : (c : Text) → IsCurrency c → normalize_currency c ≡ ok c
unfolding normalize_currency trim_space to_upper
normalize_currency_fixed c (inl h) = rw h
normalize_currency_fixed c (inr h) = rw h
