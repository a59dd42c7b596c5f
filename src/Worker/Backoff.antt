-- ===== src/Worker/Backoff.antt =====
-- The waits of the retries: the base doubled after each failure, up to ten seconds.
use native.Mathlib.Nat.{pow-succ', mul_assoc, one-le-pow}
use consulting_revenue_platf.Prelude.{
  ℕ, zero, suc, ◌-◌, ◌*◌, ◌^◌, ◌≤◌, ◌≡◌, refl, inl, inr, true, false, leb, ltb, if◌then◌else◌,
  Bool-cases, arith,
}
use consulting_revenue_platf.Prelude.Int.{pos, ltb_ℤ}
use consulting_revenue_platf.Int64.{mul64, mul64_pos}
use consulting_revenue_platf.Worker.Retry.{max_backoff, double, backoff_after_failure}

abbrev pub capped : ℕ → ℕ
capped n = if leb n max_backoff then n else max_backoff

double-capped : (i b : ℕ) → b ≤ max_backoff → double i (pos b) ≡ pos (capped (b * 2 ^ i))
unfolding double
double-capped zero b h = ground arith
double-capped (suc i) b h =
    let m : mul64 (pos b) (pos 2) ≡ pos (b * 2) = mul64_pos b 2 (omega (arith, h)) in
    let e : b * 2 ^ suc i ≡ b * 2 * 2 ^ i = grind (arith, pow-succ' 2 i, mul_assoc b 2 (2 ^ i)) in
    elim (Bool-cases (ltb max_backoff (b * 2))) [
      | inl t ↦
          let big : b * 2 ≤ b * 2 * 2 ^ i = grind (arith, one-le-pow i 2 (omega arith)) in
          let over : leb (b * 2 * 2 ^ i) max_backoff ≡ false = ground (arith, t, big) in
          let t' : ltb_ℤ (pos max_backoff) (pos (b * 2)) ≡ true = ground (arith, t) in
          rw (double, m, t', e, over) refl
      | inr t ↦
          let t' : ltb_ℤ (pos max_backoff) (pos (b * 2)) ≡ false = ground (arith, t) in
          rw (double, m, t', e) (double-capped i (b * 2) (ground (arith, t)))
    ]

-- Where the base is from zero to ten seconds: the wait after the failure of an attempt is the base
-- times two for each failure before it, up to ten seconds.
pub backoff_after_failure-capped :
    (i b : ℕ) → b ≤ max_backoff → backoff_after_failure (suc i) (pos b) ≡ pos (capped (b * 2 ^ i))
unfolding backoff_after_failure
backoff_after_failure-capped i b h =
    let e : suc i - 1 ≡ i = omega arith in rw e (double-capped i b h)
