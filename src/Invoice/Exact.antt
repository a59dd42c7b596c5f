-- ===== src/Invoice/Exact.antt =====
-- The amounts that a patch of line items writes are exact.
use mathlib.Core.Path.{subst}
use native.Mathlib.Nat.{mul_comm}
use consulting_revenue_platf.Prelude.{
  ℕ, suc, ◌+◌, ◌-◌, ◌*◌, ◌/◌, ◌≤◌, ◌<◌, ◌≡◌, ◌≢◌, refl, sym, ap, ◌∙◌, ◌⊎◌, inl, inr, Bool, true,
  false, ◌&&◌, ◌||◌, not, Option, none, some, ◌==◌, ltb, ltb→lt, if◌then◌else◌, Bool-cases, arith,
}
use consulting_revenue_platf.Prelude.Int.{ℤ, pos, negsuc, ltb_ℤ, ◌-ℤ◌}
use consulting_revenue_platf.Prelude.Text.{Text, trim_space}
use consulting_revenue_platf.Int64.{
  two63, two64, add64, mul64, quot, add64_pos, mul64_pos, add64_wraps,
}
use consulting_revenue_platf.Money.Decimal.{parse_nat}
use consulting_revenue_platf.Store.{
  Error, Result, ok, err, line_amount_overflow, bad_quantity, negative_unit_amount,
  description_required,
}
use consulting_revenue_platf.Invoice.Amounts.{
  compute_line_total, compute_line_total_exact, compute_line_total_refuses, over_fits, not_negative,
}
use consulting_revenue_platf.Invoice.Lines.{
  Quantity, LineItemUpsert, LineValues, quantity_of, split_dot, is_whole, is_fraction, padded,
  parse_quantity, priced, quantified, line_values, is_blank_text, fits_line,
}

-- A line's total is the exact product of its quantity and unit amount, rounded half up.
pub record IsExact (quantity : ℕ) (unit total : ℤ) : Type 0 where
  pub amount : ℕ
  pub unit_eq : unit ≡ pos amount
  pub total_eq : total ≡ pos ((quantity * amount + 50) / 100)

negative_total : (n : ℕ) → 100 ≤ suc n → ltb_ℤ (quot (negsuc n) 100) (pos 0) ≡ true
unfolding quot ◌-ℤ◌
negative_total n h = ground arith

ok_inj : {a b : ℤ} → ok a ≡ ok b → a ≡ b
ok_inj e = ground arith

-- A total is exact, or has wrapped around to a negative number.
compute_line_total-cases :
    (q u : ℕ) (total : ℤ)
    → compute_line_total (pos q) (pos u) ≡ ok total
    → (total ≡ pos ((q * u + 50) / 100)) ⊎ (ltb_ℤ total (pos 0) ≡ true)
unfolding compute_line_total quot
compute_line_total-cases q u total h = elim (Bool-cases (ltb (q * u + 50) two63)) [
  | inl t ↦ inl (ok_inj (sym h ∙ compute_line_total_exact q u (ltb→lt _ _ t)))
  | inr t ↦ elim (Bool-cases (ltb (q * u) two63)) [
    | inl v ↦ inr (wrapped t v)
    | inr v ↦ absurd (ok-ne-err (sym h ∙ compute_line_total_refuses q u (ground (arith, v))))
  ]
]
  where
    ok-ne-err : {a : ℤ} → ok a ≢ err line_amount_overflow
    ok-ne-err e = ground arith

    wrapped : ltb (q * u + 50) two63 ≡ false → ltb (q * u) two63 ≡ true → ltb_ℤ total (pos 0) ≡ true
    wrapped t v =
        let fits : q * u < two63 = ltb→lt _ _ v in
        let much : two63 ≤ q * u + 50 = ground (arith, t) in
        let n = two64 - (q * u + 50) - 1 in
        let e : compute_line_total (pos q) (pos u) ≡ ok (quot (negsuc n) 100) =
          rw
            (
              over_fits u q (omega (arith, mul_comm q u, fits)),
              mul64_pos q u fits,
              not_negative (q * u),
              add64_wraps (q * u) 50 much (omega (arith, fits)),
            )
            refl in
        rw (ok_inj (sym h ∙ e)) (negative_total n (omega (arith, fits)))

values_inj : {a b : LineValues} → ok a ≡ ok b → a ≡ b
values_inj e = cc

values_ne : {a : LineValues} {x : Error} → ok a ≢ err x
values_ne e = cc

-- A quantity that the column can hold is the int64 that was computed with.
quantity_of_exact :
    (w f : Option ℕ) (q : Quantity)
    → quantity_of w f ≡ ok q
    → q.stored < 1000000000000
    → q.hundredths ≡ pos q.stored
quantity_of_exact none f q e h = absurd (ground arith)
quantity_of_exact (some w) none q e h = absurd (ground arith)
quantity_of_exact (some w) (some f) q e h = elim (Bool-cases (not (ltb w two63) || w + f == 0)) [
  | inl t ↦ absurd (ok-ne-err {x = bad_quantity} (sym e ∙ rw t refl))
  | inr t ↦
      let same : q
          ≡ record { hundredths = add64 (mul64 (pos w) (pos 100)) (pos f); stored = w * 100 + f } =
        inj (sym e ∙ rw t refl) in
      let small : w * 100 + f < 1000000000000 = omega (arith, ap (λ x. x.stored) same, h) in
      ap (λ x. x.hundredths) same
      ∙ rw (mul64_pos w 100 (omega arith), add64_pos (w * 100) f (omega arith)) refl
      ∙ ap (λ x. pos x.stored) (sym same)
]
  where
    inj : {a b : Quantity} → ok a ≡ ok b → a ≡ b
    inj e = cc

    ok-ne-err : {a : Quantity} {x : Error} → ok a ≢ err x
    ok-ne-err e = cc

parse_quantity_exact :
    (raw : Text) (q : Quantity)
    → parse_quantity raw ≡ ok q
    → q.stored < 1000000000000
    → q.hundredths ≡ pos q.stored
unfolding parse_quantity
parse_quantity_exact raw q h k =
    let (w, f) = split_dot (trim_space raw) in
    cases (parse_nat 0 w) (parse_nat 0 (padded f)) (is_whole w && is_fraction f) h
  where
    cases :
        (w f : Option ℕ) (b : Bool)
        → (if b then quantity_of w f else err bad_quantity) ≡ ok q
        → q.hundredths ≡ pos q.stored
    cases w f true h = quantity_of_exact w f q h k
    cases w f false h = absurd (ground arith)

-- The values of a line that meets the CHECKs.
priced-IsExact :
    (desc : Text) (q : Quantity) (unit : ℤ) (r : Result ℤ) (v : LineValues)
    → compute_line_total q.hundredths unit ≡ r
    → (q.stored < 1000000000000 → q.hundredths ≡ pos q.stored)
    → priced desc q unit r ≡ ok v
    → fits_line v ≡ true
    → IsExact v.quantity v.unit_amount v.total
priced-IsExact desc q unit (err x) v h k e t = absurd (ground arith)
priced-IsExact desc q (negsuc n) (ok total) v h k e t =
    absurd (ground (arith, ap (λ x. x.unit_amount) (values_inj e)))
priced-IsExact desc q (pos n) (ok total) v h k e t =
    let w = values_inj e in
    let small : q.stored < 1000000000000 = ground (arith, ap (λ x. x.quantity) w) in
    let c : compute_line_total (pos q.stored) (pos n) ≡ ok total =
      ap (λ z. compute_line_total z (pos n)) (sym (k small)) ∙ h in
    subst (λ x. IsExact x.quantity x.unit_amount x.total) w
      (elim (compute_line_total-cases q.stored n total c) [
        | inl d ↦ record { amount = n; unit_eq = refl; total_eq = d }
        | inr d ↦ absurd (ground (arith, ap (λ x. x.total) w))
      ])

quantified-IsExact :
    (desc raw : Text) (unit : ℤ) (r : Result Quantity) (v : LineValues)
    → parse_quantity raw ≡ r
    → quantified desc unit r ≡ ok v
    → fits_line v ≡ true
    → IsExact v.quantity v.unit_amount v.total
quantified-IsExact desc raw unit (err x) v h e t = absurd (ground arith)
quantified-IsExact desc raw unit (ok q) v h e t = elim (Bool-cases (ltb_ℤ unit (pos 0))) [
  | inl b ↦ absurd (values_ne {x = negative_unit_amount} (sym e ∙ rw b refl))
  | inr b ↦
      priced-IsExact desc q unit (compute_line_total q.hundredths unit) v refl
        (parse_quantity_exact raw q h) (sym (rw b refl) ∙ e) t
]

pub line_values-IsExact :
    (u : LineItemUpsert) (v : LineValues)
    → line_values u ≡ ok v
    → fits_line v ≡ true
    → IsExact v.quantity v.unit_amount v.total
unfolding line_values
line_values-IsExact u v e t = elim (Bool-cases (is_blank_text (trim_space u.description))) [
  | inl b ↦ absurd (values_ne {x = description_required} (sym e ∙ rw b refl))
  | inr b ↦
      quantified-IsExact (trim_space u.description) u.quantity u.unit_amount_minor
        (parse_quantity u.quantity) v refl (sym (rw b refl) ∙ e) t
]
