-- ===== src/Prelude/Search.antt =====
-- Go's `strings.HasPrefix`, `strings.HasSuffix` and `strings.Contains`.
use consulting_revenue_platf.Prelude.Tests.{◌==◌, Bool-cases}
use consulting_revenue_platf.Prelude.Text.{Text, text_eq, text_eq_refl, text_eq_sound}
use mathlib.Core.Path.{◌≡◌, refl, sym, ap, ◌∙◌}
use mathlib.Core.Logic.{inl, inr}
use mathlib.Core.Bool.{Bool, true, false, ◌&&◌, ◌||◌}
use mathlib.Core.List.{[], ◌∷◌, ◌++◌}
use native.Mathlib.Omega.{arith}

unfoldable pub has_prefix : Text → Text → Bool
has_prefix [] t = true
has_prefix (c ∷ s) [] = false
has_prefix (c ∷ s) (d ∷ t) = c == d && has_prefix s t

unfoldable pub has_suffix : Text → Text → Bool
has_suffix s [] = text_eq s []
has_suffix s (d ∷ t) = text_eq s (d ∷ t) || has_suffix s t

unfoldable pub contains : Text → Text → Bool
unfolding has_prefix
contains s [] = has_prefix s []
contains s (d ∷ t) = has_prefix s (d ∷ t) || contains s t

pub has_prefix-append : (s t : Text) → has_prefix s (s ++ t) ≡ true
unfolding has_prefix
has_prefix-append [] t = refl
has_prefix-append (c ∷ s) t = ground (arith, has_prefix-append s t)

or_true : (a b : Bool) → b ≡ true → (a || b) ≡ true
or_true true b h = refl
or_true false b h = h

true_or : (a b : Bool) → a ≡ true → (a || b) ≡ true
true_or true b h = refl
true_or false b h = absurd (ground arith)

pub has_suffix-append : (a s : Text) → has_suffix s (a ++ s) ≡ true
unfolding has_suffix
has_suffix-append [] [] = refl
has_suffix-append [] (c ∷ s) = true_or _ _ (text_eq_refl (c ∷ s))
has_suffix-append (d ∷ a) s = or_true _ _ (has_suffix-append a s)

pub contains-append : (a s b : Text) → contains s (a ++ (s ++ b)) ≡ true
unfolding contains
contains-append [] [] [] = refl
contains-append [] [] (c ∷ b) = refl
contains-append [] (c ∷ s) b = true_or _ _ (has_prefix-append (c ∷ s) b)
contains-append (d ∷ a) s b = or_true _ _ (contains-append a s b)

pub has_prefix_sound : (s t : Text) → has_prefix s t ≡ true → (b : Text) × (t ≡ s ++ b)
unfolding has_prefix
has_prefix_sound [] t h = (t, refl)
has_prefix_sound (c ∷ s) [] h = absurd (ground arith)
has_prefix_sound (c ∷ s) (d ∷ t) h =
    let (b, e) = has_prefix_sound s t (ground arith) in (b, ground (arith, e))

pub contains_sound :
    (s t : Text) → contains s t ≡ true → (a : Text) × (b : Text) × (t ≡ a ++ (s ++ b))
unfolding contains
contains_sound s [] h = let (b, e) = has_prefix_sound s [] h in ([], b, e)
contains_sound s (d ∷ t) h = elim (Bool-cases (has_prefix s (d ∷ t))) [
  | inl p ↦ let (b, e) = has_prefix_sound s (d ∷ t) p in ([], b, e)
  | inr p ↦
      let (a, b, e) = contains_sound s t (sym (ap (λ x. x || contains s t) p) ∙ h) in
      (d ∷ a, b, ap (λ x. d ∷ x) e)
]

pub has_suffix_sound : (s t : Text) → has_suffix s t ≡ true → (a : Text) × (t ≡ a ++ s)
unfolding has_suffix
has_suffix_sound s [] h = ([], sym (text_eq_sound s [] h))
has_suffix_sound s (d ∷ t) h = elim (Bool-cases (text_eq s (d ∷ t))) [
  | inl p ↦ ([], sym (text_eq_sound s (d ∷ t) p))
  | inr p ↦
      let (a, e) = has_suffix_sound s t (sym (ap (λ x. x || has_suffix s t) p) ∙ h) in
      (d ∷ a, ap (λ x. d ∷ x) e)
]
