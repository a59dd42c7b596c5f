-- ===== src/Invoice/Amounts.antt =====
-- The amounts of invoice lines: `computeLineTotalMinor` of internal/repo/invoice_line_items.go, and the
-- arithmetic of the billing loop of internal/repo/invoice_generation.go.
use native.Mathlib.Nat.{le-div_iff_mul-le, mul_comm}
use consulting_revenue_platf.Prelude.{
  ℕ, zero, suc, ◌+◌, ◌-◌, ◌*◌, ◌/◌, ◌≤◌, ◌<◌, ◌≡◌, ◌≢◌, refl, sym, ◌∙◌, ◌⊎◌, ltb→lt, Bool, true,
  false, ◌&&◌, if◌then◌else◌, ltb, arith, Bool-cases, inl, inr,
}
use consulting_revenue_platf.Prelude.Int.{ℤ, pos, negsuc, ◌-ℤ◌, pos_part, ltb_ℤ}
use consulting_revenue_platf.Int64.{
  two63, two64, add64_wraps, max_int64, add64, sub64, mul64, quot, add64_pos, mul64_pos, sub64_pos,
}
use consulting_revenue_platf.Store.{
  Error, Result, ok, err, line_amount_overflow, invoice_total_overflow,
}

-- The guard `m > 0 && x > math.MaxInt64/m`.
abbrev pub over : ℤ → ℤ → Bool
over m x = ltb_ℤ (pos 0) m && ltb_ℤ (quot (pos max_int64) (pos_part m)) x

-- `computeLineTotalMinor`.
unfoldable pub compute_line_total : ℤ → ℤ → Result ℤ
unfolding quot
compute_line_total quantity unit =
    let product = mul64 quantity unit in
    if over unit quantity
    then err line_amount_overflow
    else if ltb_ℤ product (pos 0)
    then err line_amount_overflow
    else ok (quot (add64 product (pos 50)) 100)

-- The amount of one entry: minutes and hourly rate.
unfoldable pub line_amount : ℤ → ℤ → Result ℤ
line_amount minutes rate =
    if over minutes rate
    then err line_amount_overflow
    else ok (quot (add64 (mul64 minutes rate) (pos 30)) 60)

-- The running subtotal.
unfoldable pub add_line : ℤ → ℤ → Result ℤ
add_line subtotal line =
    if ltb_ℤ (pos 0) line && ltb_ℤ (sub64 (pos max_int64) line) subtotal
    then err invoice_total_overflow
    else ok (add64 subtotal line)

-- A product that fits is within the guard, and one that does not is refused.
pub over_fits : (m x : ℕ) → m * x < two63 → over (pos m) (pos x) ≡ false
unfolding quot
over_fits zero x h = refl
over_fits (suc m) x h =
    let k : x ≤ max_int64 / suc m =
      (le-div_iff_mul-le {k = suc m} {x = x} {y = max_int64} (omega arith)).1
        (omega (arith, mul_comm x (suc m), h)) in
    ground (arith, k)

over_refuses : (m x : ℕ) → two63 ≤ m * x → over (pos m) (pos x) ≡ true
unfolding quot
over_refuses zero x h = absurd (omega (arith, h))
over_refuses (suc m) x h = elim (Bool-cases (ltb (max_int64 / suc m) x)) [
  | inl t ↦ ground (arith, t)
  | inr t ↦
      let k : x * suc m ≤ max_int64 =
        (le-div_iff_mul-le {k = suc m} {x = x} {y = max_int64} (omega arith)).0
          (ground (arith, t)) in
      absurd (omega (arith, k, mul_comm x (suc m), h))
]

pub not_negative : (n : ℕ) → ltb_ℤ (pos n) (pos 0) ≡ false
not_negative n = ground arith

module _ (q u : ℕ) where
  -- A line whose product leaves room for the rounding is rounded half up to the cent, exactly.
  pub compute_line_total_exact :
      q * u + 50 < two63 → compute_line_total (pos q) (pos u) ≡ ok (pos ((q * u + 50) / 100))
  unfolding compute_line_total quot
  compute_line_total_exact h =
      rw
        (
          over_fits u q (omega (arith, mul_comm q u, h)),
          mul64_pos q u (omega (arith, h)),
          not_negative (q * u),
          add64_pos (q * u) 50 h,
        )
        refl

  pub compute_line_total_refuses :
      two63 ≤ q * u → compute_line_total (pos q) (pos u) ≡ err line_amount_overflow
  unfolding compute_line_total
  compute_line_total_refuses h = rw (over_refuses u q (omega (arith, mul_comm q u, h))) refl

  -- An entry's amount, of `q` minutes at `u` an hour, likewise.
  pub line_amount_exact :
      q * u + 30 < two63 → line_amount (pos q) (pos u) ≡ ok (pos ((q * u + 30) / 60))
  unfolding line_amount quot
  line_amount_exact h =
      rw
        (over_fits q u (omega (arith, h)), mul64_pos q u (omega (arith, h)), add64_pos (q * u) 30 h)
        refl

-- A negative line is one that has wrapped around in the rounding.
abbrev pub is_negative_line : ℤ → Bool
is_negative_line line = ltb_ℤ line (pos 0)

negative_line : (n : ℕ) → 60 ≤ suc n → is_negative_line (quot (negsuc n) 60) ≡ true
unfolding quot ◌-ℤ◌
negative_line n h = ground arith

-- An entry's amount is refused, or it is exact, or it is negative.
pub line_amount-cases :
    (m x : ℕ) (line : ℤ)
    → line_amount (pos m) (pos x) ≡ ok line
    → ((line ≡ pos ((m * x + 30) / 60)) × ((m * x + 30) / 60 < two63))
      ⊎ (is_negative_line line ≡ true)
unfolding line_amount quot
line_amount-cases m x line h = elim (Bool-cases (ltb (m * x + 30) two63)) [
  | inl t ↦
      let k : m * x + 30 < two63 = ltb→lt _ _ t in
      inl (some_ok (sym h ∙ line_amount_exact m x k), omega (arith, k))
  | inr t ↦ elim (Bool-cases (ltb (m * x) two63)) [
    | inl u ↦ inr (wrapped t u)
    | inr u ↦ absurd (ok-ne-err (sym h ∙ refused u))
  ]
]
  where
    some_ok : {a b : ℤ} → ok a ≡ ok b → a ≡ b
    some_ok e = ground arith

    ok-ne-err : {a : ℤ} → ok a ≢ err line_amount_overflow
    ok-ne-err e = ground arith

    refused : ltb (m * x) two63 ≡ false → line_amount (pos m) (pos x) ≡ err line_amount_overflow
    refused u = rw (over_refuses m x (ground (arith, u))) refl

    wrapped :
        ltb (m * x + 30) two63 ≡ false → ltb (m * x) two63 ≡ true → is_negative_line line ≡ true
    wrapped t u =
        let fits : m * x < two63 = ltb→lt _ _ u in
        let much : two63 ≤ m * x + 30 = ground (arith, t) in
        let n = two64 - (m * x + 30) - 1 in
        let e : line_amount (pos m) (pos x) ≡ ok (quot (negsuc n) 60) =
          rw
            (
              over_fits m x fits,
              mul64_pos m x fits,
              add64_wraps (m * x) 30 much (omega (arith, fits)),
            )
            refl in
        rw (some_ok (sym h ∙ e)) (negative_line n (omega (arith, fits)))

pub add_line_exact :
    (s l : ℕ) (t : ℤ)
    → s < two63
    → l < two63
    → add_line (pos s) (pos l) ≡ ok t
    → (t ≡ pos (s + l)) × (s + l < two63)
unfolding add_line
add_line_exact s l t hs hl h = elim (Bool-cases (ltb 0 l && ltb (max_int64 - l) s)) [
  | inl g ↦ absurd (ok-ne-err (sym h ∙ refused g))
  | inr g ↦ let fits : s + l < two63 = ground (arith, g) in (same (sym h ∙ allowed g fits), fits)
]
  where
    same : {a b : ℤ} → ok a ≡ ok b → a ≡ b
    same e = ground arith

    ok-ne-err : {a : ℤ} → ok a ≢ err invoice_total_overflow
    ok-ne-err e = ground arith

    refused :
        (ltb 0 l && ltb (max_int64 - l) s) ≡ true
        → add_line (pos s) (pos l) ≡ err invoice_total_overflow
    refused g = rw (sub64_pos max_int64 l (omega arith) (omega arith)) (ground (arith, g))

    allowed :
        (ltb 0 l && ltb (max_int64 - l) s) ≡ false
        → s + l < two63
        → add_line (pos s) (pos l) ≡ ok (pos (s + l))
    allowed g fits =
        rw (sub64_pos max_int64 l (omega arith) (omega arith), add64_pos s l fits)
          (ground (arith, g))

pub line_amount-err : (m x : ℤ) (e : Error) → line_amount m x ≡ err e → e ≡ line_amount_overflow
unfolding line_amount
line_amount-err m x e h = refused (over m x) h
  where
    refused :
        (b : Bool)
        → (if b then err line_amount_overflow else ok (quot (add64 (mul64 m x) (pos 30)) 60))
          ≡ err e
        → e ≡ line_amount_overflow
    refused b h = ground arith

pub add_line-err : (s l : ℤ) (e : Error) → add_line s l ≡ err e → e ≡ invoice_total_overflow
unfolding add_line
add_line-err s l e h = refused (ltb_ℤ (pos 0) l && ltb_ℤ (sub64 (pos max_int64) l) s) h
  where
    refused :
        (b : Bool)
        → (if b then err invoice_total_overflow else ok (add64 s l)) ≡ err e
        → e ≡ invoice_total_overflow
    refused b h = ground arith
