-- ===== src/Paths/Split.antt =====
-- `str.split` and `str.join` at one separator, over code points.
use skills_sdk.Prelude.{
  ℕ, ◌≡◌, ◌≢◌, refl, ap, ◌∙◌, List, [], ◌∷◌, ◌++◌, All, arith, nat_eq, inl, inr, nat_eq_iff,
  Bool-cases, if◌then◌else◌,
}

abbrev push : ℕ → List (List ℕ) → List (List ℕ)
push c [] = (c ∷ []) ∷ []
push c (part ∷ parts) = (c ∷ part) ∷ parts

unfoldable pub split : ℕ → List ℕ → List (List ℕ)
split sep [] = [] ∷ []
split sep (c ∷ cs) = let rest = split sep cs in if nat_eq c sep then [] ∷ rest else push c rest

unfoldable pub join : ℕ → List (List ℕ) → List ℕ
join sep [] = []
join sep (part ∷ []) = part
join sep (part ∷ next ∷ parts) = part ++ sep ∷ join sep (next ∷ parts)

-- No separator stands in the part.
abbrev pub Without : ℕ → List ℕ → Type 0
Without sep part = All (λ c. c ≢ sep) part

-- The list has at least one part.
pub data IsNonempty {A : Type 0} : List A → Type 0 where
  at_least : (x : A) (xs : List A) → IsNonempty (x ∷ xs)

push-IsNonempty : (c : ℕ) (parts : List (List ℕ)) → IsNonempty (push c parts)
push-IsNonempty c [] = at_least _ _
push-IsNonempty c (p ∷ ps) = at_least _ _

pub split-IsNonempty : (sep : ℕ) (cs : List ℕ) → IsNonempty (split sep cs)
unfolding split
split-IsNonempty sep [] = at_least _ _
split-IsNonempty sep (c ∷ cs) = elim (Bool-cases (nat_eq c sep)) [
  | inl e ↦ rw e (at_least _ _)
  | inr e ↦ rw e (push-IsNonempty c (split sep cs))
]

join-push : (sep c : ℕ) (parts : List (List ℕ)) → join sep (push c parts) ≡ c ∷ join sep parts
unfolding join
join-push sep c [] = refl
join-push sep c (p ∷ []) = refl
join-push sep c (p ∷ q ∷ ps) = refl

join-nil :
    (sep : ℕ) (parts : List (List ℕ))
    → IsNonempty parts
    → join sep ([] ∷ parts) ≡ sep ∷ join sep parts
unfolding join
join-nil sep (p ∷ ps) h = refl
join-nil sep [] h = elim h [ ]

-- Joining the parts gives the text back.
pub join-split : (sep : ℕ) (cs : List ℕ) → join sep (split sep cs) ≡ cs
unfolding split
join-split sep [] = unfold join in refl
join-split sep (c ∷ cs) = elim (Bool-cases (nat_eq c sep)) [
  | inl e ↦ rw e (
      join-nil sep (split sep cs) (split-IsNonempty sep cs)
      ∙ cc ((nat_eq_iff c sep).0 e, join-split sep cs))
  | inr e ↦ rw e (join-push sep c (split sep cs) ∙ ap (λ t. c ∷ t) (join-split sep cs))
]

push-Without :
    (sep c : ℕ) (parts : List (List ℕ))
    → c ≢ sep
    → All (Without sep) parts
    → All (Without sep) (push c parts)
push-Without sep c [] n h = ((n, tt), tt)
push-Without sep c (p ∷ ps) n h = ((n, h.0), h.1)

pub split-Without : (sep : ℕ) (cs : List ℕ) → All (Without sep) (split sep cs)
unfolding split
split-Without sep [] = (tt, tt)
split-Without sep (c ∷ cs) = elim (Bool-cases (nat_eq c sep)) [
  | inl e ↦ rw e (tt, split-Without sep cs)
  | inr e ↦
      rw e (
        push-Without sep c (split sep cs) (λ q. cc ((nat_eq_iff c sep).1 q)) (split-Without sep cs))
]

split_part : (sep : ℕ) (part : List ℕ) → Without sep part → split sep part ≡ part ∷ []
unfolding split
split_part sep [] h = refl
split_part sep (c ∷ cs) h = ground (arith, split_part sep cs h.1)

split_first :
    (sep : ℕ) (part rest : List ℕ)
    → Without sep part
    → split sep (part ++ sep ∷ rest) ≡ part ∷ split sep rest
unfolding split
split_first sep [] rest h = ground arith
split_first sep (c ∷ cs) rest h = ground (arith, split_first sep cs rest h.1)

-- Splitting a joined list gives the parts back, if none of them holds the separator.
pub split-join :
    (sep : ℕ) (parts : List (List ℕ))
    → IsNonempty parts
    → All (Without sep) parts
    → split sep (join sep parts) ≡ parts
unfolding join
split-join sep [] s h = elim s [ ]
split-join sep (p ∷ []) s h = split_part sep p h.0
split-join sep (p ∷ q ∷ ps) s h =
    split_first sep p (join sep (q ∷ ps)) h.0
    ∙ ap (λ t. p ∷ t) (split-join sep (q ∷ ps) (at_least q ps) h.1)
