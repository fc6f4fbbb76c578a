-- ===== src/Prelude/Lists.antt =====
-- Lists measured by native numbers, membership and sets as Python's `in`, `set` and `len`.
use Prim.Native.Nat.{ℕ, zero, suc, ◌+◌, ◌≤◌}
use mathlib.Core.Path.{ap, ◌≡◌, refl, sym, ◌∙◌, subst}
use mathlib.Core.Logic.{◌↔◌, ◌⊎◌, inl, inr}
use mathlib.Core.Bool.{Bool, true, false, ◌&&◌, ◌||◌, false≢true}
use mathlib.Core.List.{List, [], ◌∷◌, ◌++◌}
use native.Mathlib.Omega.{arith}
use skills_sdk.Prelude.Tests.{Comparable, ◌==◌, if◌then◌else◌, Bool-cases, nat_eq}

module _ {ℓ} {A : Type ℓ} where
  abbrev pub length : List A → ℕ
  length [] = 0
  length (x ∷ xs) = suc (length xs)

  abbrev pub take : ℕ → List A → List A
  take zero xs = []
  take (suc n) [] = []
  take (suc n) (x ∷ xs) = x ∷ take n xs

  abbrev pub drop : ℕ → List A → List A
  drop zero xs = xs
  drop (suc n) [] = []
  drop (suc n) (x ∷ xs) = drop n xs

  abbrev pub filter : (A → Bool) → List A → List A
  filter p [] = []
  filter p (x ∷ xs) = let rest = filter p xs in if p x then x ∷ rest else rest

  abbrev pub all : (A → Bool) → List A → Bool
  all p [] = true
  all p (x ∷ xs) = p x && all p xs

  abbrev pub any : (A → Bool) → List A → Bool
  any p [] = false
  any p (x ∷ xs) = p x || any p xs

  pub length-append : (xs ys : List A) → length (xs ++ ys) ≡ length xs + length ys
  length-append [] ys = omega arith
  length-append (x ∷ xs) ys = omega (arith, length-append xs ys)

  abbrev pub All {κ} : (A → Type κ) → List A → Type κ
  All P [] = Unit
  All P (x ∷ xs) = P x × All P xs

module _ {A : Type 0} where
  -- `x` stands in the list.
  abbrev pub In : A → List A → Type 0
  In x [] = ⊥
  In x (y ∷ ys) = (x ≡ y) ⊎ In x ys

  pub All-filter : (p : A → Bool) (xs : List A) → All (λ x. p x ≡ true) (filter p xs)
  All-filter p [] = tt
  All-filter p (x ∷ xs) = elim (Bool-cases (p x)) [
    | inl kept ↦ rw kept (kept, All-filter p xs)
    | inr dropped ↦ rw dropped (All-filter p xs)
  ]

  pub filter_keep : (p : A → Bool) (xs : List A) → All (λ x. p x ≡ true) xs → filter p xs ≡ xs
  filter_keep p [] h = refl
  filter_keep p (x ∷ xs) h = rw (h.0, filter_keep p xs h.1)

  pub All_of_filter : (P : A → Type 0) (p : A → Bool) (xs : List A) → All P xs → All P (filter p xs)
  All_of_filter P p [] h = tt
  All_of_filter P p (x ∷ xs) h = elim (Bool-cases (p x)) [
    | inl kept ↦ rw kept (h.0, All_of_filter P p xs h.1)
    | inr dropped ↦ rw dropped (All_of_filter P p xs h.1)
  ]

  pub All-map : (P Q : A → Type 0) (xs : List A) → ((x : A) → P x → Q x) → All P xs → All Q xs
  All-map P Q [] f h = tt
  All-map P Q (x ∷ xs) f h = (f x h.0, All-map P Q xs f h.1)

  pub All-pair : (P Q : A → Type 0) (xs : List A) → All P xs → All Q xs → All (λ x. P x × Q x) xs
  All-pair P Q [] h k = tt
  All-pair P Q (x ∷ xs) h k = ((h.0, k.0), All-pair P Q xs h.1 k.1)

  -- No value stands twice in the list.
  abbrev pub IsUnique : List A → Type 0
  IsUnique [] = Unit
  IsUnique (x ∷ xs) = (¬ In x xs) × IsUnique xs

  pub All-In : (P : A → Type 0) (x : A) (xs : List A) → All P xs → In x xs → P x
  All-In P x [] h m = absurd m
  All-In P x (y ∷ ys) h (inl e) = subst P (sym e) h.0
  All-In P x (y ∷ ys) h (inr m) = All-In P x ys h.1 m

  pub All_of_In : (P : A → Type 0) (xs : List A) → ((x : A) → In x xs → P x) → All P xs
  All_of_In P [] h = tt
  All_of_In P (y ∷ ys) h = (h y (inl refl), All_of_In P ys (λ x m. h x (inr m)))

  pub In-append : (x : A) (xs ys : List A) → In x (xs ++ ys) → In x xs ⊎ In x ys
  In-append x [] ys m = inr m
  In-append x (z ∷ zs) ys (inl e) = inl (inl e)
  In-append x (z ∷ zs) ys (inr m) = elim (In-append x zs ys m) [
    | inl l ↦ inl (inr l)
    | inr r ↦ inr r
  ]

  pub In-append_left : (x : A) (xs ys : List A) → In x xs → In x (xs ++ ys)
  In-append_left x [] ys m = absurd m
  In-append_left x (z ∷ zs) ys (inl e) = inl e
  In-append_left x (z ∷ zs) ys (inr m) = inr (In-append_left x zs ys m)

  pub In-append_right : (x : A) (xs ys : List A) → In x ys → In x (xs ++ ys)
  In-append_right x [] ys m = m
  In-append_right x (z ∷ zs) ys m = inr (In-append_right x zs ys m)

  pub IsUnique-snoc : (xs : List A) (x : A) → IsUnique xs → ¬ In x xs → IsUnique (xs ++ x ∷ [])
  IsUnique-snoc [] x u h = (λ m. m, tt)
  IsUnique-snoc (y ∷ ys) x u h = (
    λ m. elim (In-append y ys (x ∷ []) m) [
      | inl l ↦ u.0 l
      | inr (inl e) ↦ h (inl (sym e))
      | inr (inr e) ↦ e
    ],
    IsUnique-snoc ys x u.1 (λ m. h (inr m)),
  )

module _ {A : Type 0} ⦃e : Comparable A⦄ where
  -- Python's `x in xs`.
  unfoldable pub contains : A → List A → Bool
  contains x [] = false
  contains x (y ∷ ys) = x == y || contains x ys

  pub contains_iff : (x : A) (xs : List A) → (contains x xs ≡ true) ↔ In x xs
  unfolding contains
  contains_iff x [] = (λ h. cc, λ m. absurd m)
  contains_iff x (y ∷ ys) = ground (arith, e.eqb_iff x y, contains_iff x ys)

  pub contains-false : (x : A) (xs : List A) → contains x xs ≡ false → ¬ In x xs
  contains-false x xs h m = false≢true (sym h ∙ (contains_iff x xs).1 m)

  -- Python's `set(xs)`.
  unfoldable pub to_set : List A → List A
  unfolding contains
  to_set [] = []
  to_set (x ∷ xs) = let rest = to_set xs in if contains x xs then rest else x ∷ rest

  length-to_set : (xs : List A) → length (to_set xs) ≤ length xs
  unfolding to_set
  length-to_set [] = omega arith
  length-to_set (x ∷ xs) = ground (arith, length-to_set xs)

  -- `len(xs) == len(set(xs))`
  unfoldable pub all_distinct : List A → Bool
  unfolding to_set
  all_distinct xs = nat_eq (length xs) (length (to_set xs))

  pub all_distinct_iff : (xs : List A) → (all_distinct xs ≡ true) ↔ IsUnique xs
  unfolding all_distinct
  all_distinct_iff [] = (λ h. tt, λ u. refl)
  all_distinct_iff (x ∷ xs) = elim (Bool-cases (contains x xs)) [
    | inl old ↦ (
      λ h. absurd (ground (arith, length-to_set xs)),
      λ u. absurd (u.0 ((contains_iff x xs).0 old)),
    )
    | inr new ↦ (
      λ h. (contains-false x xs new, (all_distinct_iff xs).0 (ground arith)),
      λ u. ground (arith, (all_distinct_iff xs).1 u.1),
    )
  ]

  pub In-to_set : (z : A) (xs : List A) → In z (to_set xs) ↔ In z xs
  unfolding to_set
  In-to_set z [] = (λ m. m, λ m. m)
  In-to_set z (x ∷ xs) = elim (Bool-cases (contains x xs)) [
    | inl old ↦ rw old (
      λ m. inr ((In-to_set z xs).0 m),
      λ m. elim m [
        | inl e ↦ (In-to_set z xs).1 (subst (λ t. In t xs) (sym e) ((contains_iff x xs).0 old))
        | inr n ↦ (In-to_set z xs).1 n
      ],
    )
    | inr new ↦ rw new (
      λ m. elim m [ inl e ↦ inl e | inr n ↦ inr ((In-to_set z xs).0 n) ],
      λ m. elim m [ inl e ↦ inl e | inr n ↦ inr ((In-to_set z xs).1 n) ],
    )
  ]

module _ {A : Type 0} where
  pub In-filter :
      (p : A → Bool) (z : A) (xs : List A) → In z (filter p xs) ↔ (In z xs × (p z ≡ true))
  In-filter p z [] = (λ m. absurd m, λ m. absurd m.0)
  In-filter p z (x ∷ xs) = elim (Bool-cases (p x)) [
    | inl kept ↦ rw kept (
      λ m. elim m [
        | inl e ↦ (inl e, ap p e ∙ kept)
        | inr n ↦ (inr ((In-filter p z xs).0 n).0, ((In-filter p z xs).0 n).1)
      ],
      λ m. elim m.0 [ inl e ↦ inl e | inr n ↦ inr ((In-filter p z xs).1 (n, m.1)) ],
    )
    | inr dropped ↦ rw dropped (
      λ m. (inr ((In-filter p z xs).0 m).0, ((In-filter p z xs).0 m).1),
      λ m. elim m.0 [
        | inl e ↦ absurd (false≢true (sym dropped ∙ ap p (sym e) ∙ m.1))
        | inr n ↦ (In-filter p z xs).1 (n, m.1)
      ],
    )
  ]
