-- ===== src/Prelude/Lists.antt =====
-- Lists over the native numbers, and a table's rows under a Boolean condition.
use Prim.Native.Nat.{ℕ, zero, suc, ◌+◌}
use mathlib.Core.Path.{◌≡◌, refl, subst}
use mathlib.Core.Bool.{Bool, true, false}
use mathlib.Core.Logic.{inl, inr}
use mathlib.Core.Option.{Option, none, some, none-ne-some, some-ne-none}
use mathlib.Core.List.{List, [], ◌∷◌, ◌++◌}
use native.Mathlib.Omega.{arith}
use consulting_revenue_platf.Prelude.Tests.{if◌then◌else◌, Bool-cases}

module _ {ℓ} {A : Type ℓ} where
  abbrev pub length : List A → ℕ
  length [] = 0
  length (x ∷ xs) = suc (length xs)

  abbrev pub take : ℕ → List A → List A
  take zero xs = []
  take (suc n) [] = []
  take (suc n) (x ∷ xs) = x ∷ take n xs

  abbrev pub drop : ℕ → List A → List A
  drop zero xs = xs
  drop (suc n) [] = []
  drop (suc n) (x ∷ xs) = drop n xs

  -- The first row that meets the condition: a `SELECT` of one row.
  abbrev pub find : (A → Bool) → List A → Option A
  find p [] = none
  find p (x ∷ xs) = if p x then some x else find p xs

  -- `SELECT ... WHERE`.
  abbrev pub select : (A → Bool) → List A → List A
  select p [] = []
  select p (x ∷ xs) = if p x then x ∷ select p xs else select p xs

  -- `SELECT COUNT(*) ... WHERE`.
  abbrev pub count_where : (A → Bool) → List A → ℕ
  count_where p [] = 0
  count_where p (x ∷ xs) = if p x then suc (count_where p xs) else count_where p xs

  -- `UPDATE ... SET ... WHERE`.
  abbrev pub update_where : (A → Bool) → (A → A) → List A → List A
  update_where p f [] = []
  update_where p f (x ∷ xs) = (if p x then f x else x) ∷ update_where p f xs

  -- `DELETE ... WHERE`.
  abbrev pub delete_where : (A → Bool) → List A → List A
  delete_where p [] = []
  delete_where p (x ∷ xs) = if p x then delete_where p xs else x ∷ delete_where p xs

  -- Every row meets the predicate.
  abbrev pub All {κ} : (A → Type κ) → List A → Type κ
  All P [] = Unit
  All P (x ∷ xs) = P x × All P xs

module _ {ℓ} {A : Type ℓ} where
  pub length-append : (xs ys : List A) → length (xs ++ ys) ≡ length xs + length ys
  length-append [] ys = omega arith
  length-append (x ∷ xs) ys = omega (arith, length-append xs ys)

  pub some_inj : {x y : A} → some x ≡ some y → x ≡ y
  some_inj h = cc

  -- A row that is found meets the condition.
  pub find_sound : (p : A → Bool) (xs : List A) (a : A) → find p xs ≡ some a → p a ≡ true
  find_sound p [] a h = cc
  find_sound p (x ∷ xs) a h = elim (Bool-cases (p x)) [
    | inl e ↦ subst (λ y. p y ≡ true) (some_inj (rw e at h)) e
    | inr e ↦ find_sound p xs a (rw e at h)
  ]

  pub All-find {κ} :
      (P : A → Type κ) (p : A → Bool) (xs : List A) (a : A) → All P xs → find p xs ≡ some a → P a
  All-find P p [] a h e = absurd (none-ne-some a e)
  All-find P p (x ∷ xs) a h e = elim (Bool-cases (p x)) [
    | inl t ↦ subst P (some_inj (rw t at e)) h.0
    | inr t ↦ All-find P p xs a h.1 (rw t at e)
  ]

  -- An update takes a predicate of every row to another.
  pub All-update_where {κ μ} :
      (P : A → Type κ) (R : A → Type μ) (p : A → Bool) (f : A → A) (xs : List A)
      → ((a : A) → p a ≡ true → P a → R (f a))
      → ((a : A) → p a ≡ false → P a → R a)
      → All P xs
      → All R (update_where p f xs)
  All-update_where P R p f [] change keep h = tt
  All-update_where P R p f (x ∷ xs) change keep h = elim (Bool-cases (p x)) [
    | inl t ↦ (rw t (change x t h.0), All-update_where P R p f xs change keep h.1)
    | inr t ↦ (rw t (keep x t h.0), All-update_where P R p f xs change keep h.1)
  ]

  -- Where no row meets the condition nothing is updated.
  pub update_where-none :
      (p : A → Bool) (f : A → A) (xs : List A) → find p xs ≡ none → update_where p f xs ≡ xs
  update_where-none p f [] h = refl
  update_where-none p f (x ∷ xs) h = elim (Bool-cases (p x)) [
    | inl t ↦ absurd (some-ne-none x (rw t at h))
    | inr t ↦ rw (t, update_where-none p f xs (rw t at h))
  ]

  -- Two updates that agree on every row.
  pub update_where_ap :
      (p : A → Bool) (f g : A → A) (xs : List A)
      → ((a : A) → f a ≡ g a)
      → update_where p f xs ≡ update_where p g xs
  update_where_ap p f g [] h = refl
  update_where_ap p f g (x ∷ xs) h = rw (h x, update_where_ap p f g xs h)

  pub All-map {κ μ} :
      (P : A → Type κ) (R : A → Type μ) (xs : List A) → ((a : A) → P a → R a) → All P xs → All R xs
  All-map P R [] f h = tt
  All-map P R (x ∷ xs) f h = (f x h.0, All-map P R xs f h.1)

  pub All-append {κ} : (P : A → Type κ) (xs ys : List A) → All P xs → All P ys → All P (xs ++ ys)
  All-append P [] ys h k = k
  All-append P (x ∷ xs) ys h k = (h.0, All-append P xs ys h.1 k)
