-- ===== src/Money/Tests.antt =====
-- Runs of the money functions.
use consulting_revenue_platf.Prelude.{◌≡◌, refl}
use consulting_revenue_platf.Prelude.Int.{pos, negsuc}
use consulting_revenue_platf.Prelude.Text.{codes, trim_space, to_upper}
use consulting_revenue_platf.Int64.{add64, mul64, neg64, quot, rem}
use consulting_revenue_platf.Store.{ok}
use consulting_revenue_platf.Money.Decimal.{parse_nat, parse_int, show_nat, show_int, show_int2}
use consulting_revenue_platf.Money.Currency.{normalize_currency}
use consulting_revenue_platf.Money.Amount.{
  split_point, minor_of, parse_trimmed, parse_major_to_minor, show_cents, format_minor_for_display,
}

-- What a run of the money functions computes with.
money_steps : Unit {0}
unfolding parse_nat parse_int show_nat show_int show_int2 normalize_currency trim_space to_upper
    split_point minor_of parse_trimmed show_cents add64 mul64 neg64 quot rem
money_steps = tt

parse_dollars : parse_major_to_minor (codes " usd") (codes " -12.5 ") ≡ ok (negsuc 1249)
unfolding parse_major_to_minor money_steps
parse_dollars = refl

format_dollars : format_minor_for_display (codes "USD") (negsuc 1204) ≡ ok (codes "-12.05")
unfolding format_minor_for_display money_steps
format_dollars = refl

format_smallest :
    format_minor_for_display (codes "USD") (negsuc 9223372036854775807)
    ≡ ok (codes "--92233720368547758.-8")
unfolding format_minor_for_display money_steps
format_smallest = refl

parse_inner_sign : parse_major_to_minor (codes "USD") (codes "1.-5") ≡ ok (pos 95)
unfolding parse_major_to_minor money_steps
parse_inner_sign = refl
