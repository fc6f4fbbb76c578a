-- ===== src/Prelude/Quantifiers.antt =====
-- The Boolean quantifiers and filters of lists against the predicates `All`, `In` and `IsUnique`.
use mathlib.Core.Path.{◌≡◌, refl, sym}
use mathlib.Core.Logic.{◌↔◌, inl, inr}
use mathlib.Core.Bool.{Bool, true, false, false≢true}
use mathlib.Core.List.{List, [], ◌∷◌}
use native.Mathlib.Omega.{arith}
use skills_sdk.Prelude.Tests.{Bool-cases}
use skills_sdk.Prelude.Lists.{all, any, filter, All, IsUnique, In-filter}

module _ {A : Type 0} where
  pub all_iff : (p : A → Bool) (xs : List A) → (all p xs ≡ true) ↔ All (λ x. p x ≡ true) xs
  all_iff p [] = (λ h. tt, λ h. refl)
  all_iff p (x ∷ xs) = elim (Bool-cases (p x)) [
    | inl holds ↦ rw holds (λ h. (refl, (all_iff p xs).0 h), λ h. (all_iff p xs).1 h.1)
    | inr fails ↦ rw fails (λ h. absurd (false≢true h), λ h. absurd (false≢true h.0))
  ]

  pub any-false : (p : A → Bool) (xs : List A) → (any p xs ≡ false) ↔ All (λ x. p x ≡ false) xs
  any-false p [] = (λ h. tt, λ h. refl)
  any-false p (x ∷ xs) = elim (Bool-cases (p x)) [
    | inl holds ↦ rw holds (λ h. absurd (false≢true (sym h)), λ h. absurd (false≢true (sym h.0)))
    | inr fails ↦ rw fails (λ h. (refl, (any-false p xs).0 h), λ h. (any-false p xs).1 h.1)
  ]

  pub filter-IsUnique : (p : A → Bool) (xs : List A) → IsUnique xs → IsUnique (filter p xs)
  filter-IsUnique p [] u = tt
  filter-IsUnique p (x ∷ xs) u = elim (Bool-cases (p x)) [
    | inl kept ↦ rw kept (λ m. u.0 ((In-filter p x xs).0 m).0, filter-IsUnique p xs u.1)
    | inr dropped ↦ rw dropped (filter-IsUnique p xs u.1)
  ]

  -- Two tests that agree on the list keep the same of it.
  pub filter_same :
      (p q : A → Bool) (xs : List A) → All (λ x. p x ≡ q x) xs → filter p xs ≡ filter q xs
  filter_same p q [] h = refl
  filter_same p q (x ∷ xs) h = rw (h.0, filter_same p q xs h.1)

  pub filter-nil : (p : A → Bool) (xs : List A) → All (λ x. p x ≡ false) xs → filter p xs ≡ []
  filter-nil p [] h = refl
  filter-nil p (x ∷ xs) h = rw (h.0, filter-nil p xs h.1)

  pub All_of_filter-nil :
      (p : A → Bool) (xs : List A) → filter p xs ≡ [] → All (λ x. p x ≡ false) xs
  All_of_filter-nil p [] e = tt
  All_of_filter-nil p (x ∷ xs) e = elim (Bool-cases (p x)) [
    | inl kept ↦ absurd (ground arith)
    | inr dropped ↦ (dropped, All_of_filter-nil p xs (ground arith))
  ]
