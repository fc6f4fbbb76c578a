-- ===== src/Prelude/Sorting.antt =====
-- Python's `sorted` on texts: by code points.
use mathlib.Core.Path.{◌≡◌}
use Prim.Native.Nat.{ℕ}
use Prim.Native.String.{String}
use mathlib.Core.Bool.{Bool, true, false, ◌&&◌, ◌||◌}
use mathlib.Core.List.{List, [], ◌∷◌}
use mathlib.Core.Logic.{◌⊎◌, inl, inr, ◌↔◌}
use skills_sdk.Prelude.Tests.{ltb, nat_eq, if◌then◌else◌, Bool-cases}
use skills_sdk.Prelude.Lists.{In}
use skills_sdk.Prelude.Texts.{codes}

codes_le : List ℕ → List ℕ → Bool
codes_le [] ys = true
codes_le (x ∷ xs) [] = false
codes_le (x ∷ xs) (y ∷ ys) = ltb x y || (nat_eq x y && codes_le xs ys)

unfoldable pub text_le : String → String → Bool
unfolding codes_le
text_le s t = codes_le (codes s) (codes t)

insert_sorted : String → List String → List String
unfolding text_le
insert_sorted x [] = x ∷ []
insert_sorted x (y ∷ ys) =
    let rest = insert_sorted x ys in if text_le x y then x ∷ y ∷ ys else y ∷ rest

unfoldable pub sorted : List String → List String
unfolding insert_sorted
sorted [] = []
sorted (x ∷ xs) = insert_sorted x (sorted xs)

In-insert_sorted :
    (z x : String) (ys : List String) → In z (insert_sorted x ys) ↔ ((z ≡ x) ⊎ In z ys)
unfolding insert_sorted
In-insert_sorted z x [] = (λ m. m, λ m. m)
In-insert_sorted z x (y ∷ ys) = elim (Bool-cases (text_le x y)) [
  | inl first ↦ rw first (λ m. m, λ m. m)
  | inr later ↦ rw later (
    λ m. elim m [
      | inl e ↦ inr (inl e)
      | inr n ↦ elim ((In-insert_sorted z x ys).0 n) [ inl e ↦ inl e | inr k ↦ inr (inr k) ]
    ],
    λ m. elim m [
      | inl e ↦ inr ((In-insert_sorted z x ys).1 (inl e))
      | inr (inl e) ↦ inl e
      | inr (inr k) ↦ inr ((In-insert_sorted z x ys).1 (inr k))
    ],
  )
]

-- Sorting keeps the values of the list.
pub In-sorted : (z : String) (xs : List String) → In z (sorted xs) ↔ In z xs
unfolding sorted
In-sorted z [] = (λ m. m, λ m. m)
In-sorted z (x ∷ xs) = (
  λ m. elim ((In-insert_sorted z x (sorted xs)).0 m) [
    | inl e ↦ inl e
    | inr n ↦ inr ((In-sorted z xs).0 n)
  ],
  λ m.
      (In-insert_sorted z x (sorted xs)).1
        (elim m [ inl e ↦ inl e | inr n ↦ inr ((In-sorted z xs).1 n) ]),
)
