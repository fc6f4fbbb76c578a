-- ===== src/Prelude/Counting.antt =====
-- Lists without repetitions, counted by inclusion.
use Prim.Native.Nat.{suc, ◌≤◌}
use mathlib.Core.Path.{◌≡◌, refl, sym, ◌∙◌, subst}
use mathlib.Core.Logic.{inl, inr}
use mathlib.Core.List.{List, [], ◌∷◌}
use native.Mathlib.Omega.{arith}
use skills_sdk.Prelude.Lists.{length, In, All, IsUnique, All_of_In, All-In}

module _ {A : Type 0} where
  -- The list without the place where `x` stands.
  without : (x : A) (ys : List A) → In x ys → List A
  without x [] m = absurd m
  without x (y ∷ ys) (inl e) = ys
  without x (y ∷ ys) (inr m) = y ∷ without x ys m

  length-without : (x : A) (ys : List A) (m : In x ys) → length ys ≡ suc (length (without x ys m))
  unfolding without
  length-without x [] m = absurd m
  length-without x (y ∷ ys) (inl e) = refl
  length-without x (y ∷ ys) (inr m) = omega (arith, length-without x ys m)

  In-without : (x z : A) (ys : List A) (m : In x ys) → In z ys → ¬ (z ≡ x) → In z (without x ys m)
  unfolding without
  In-without x z [] m n other = absurd m
  In-without x z (y ∷ ys) (inl e) (inl f) other = absurd (other (f ∙ sym e))
  In-without x z (y ∷ ys) (inl e) (inr n) other = n
  In-without x z (y ∷ ys) (inr m) (inl f) other = inl f
  In-without x z (y ∷ ys) (inr m) (inr n) other = inr (In-without x z ys m n other)

  pub length-le_of_All :
      (xs ys : List A) → IsUnique xs → All (λ x. In x ys) xs → length xs ≤ length ys
  length-le_of_All [] ys u inside = omega arith
  length-le_of_All (x ∷ xs) ys u inside =
      let rest =
        All_of_In (λ z. In z (without x ys inside.0)) xs
          λ z m.
            In-without x z ys inside.0 (All-In (λ z. In z ys) z xs inside.1 m)
              (λ e. u.0 (subst (λ t. In t xs) e m)) in
      omega
        (arith, length-without x ys inside.0, length-le_of_All xs (without x ys inside.0) u.1 rest)
