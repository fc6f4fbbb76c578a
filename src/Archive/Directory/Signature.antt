-- ===== src/Archive/Directory/Signature.antt =====
-- Where the end signature stands: two occurrences never overlap, and `rfind` misses none.
use native.Mathlib.Decide.{dec_le, ℕ_discrete}
use mathlib.Core.Bool.{false≢true}
use skills_sdk.Prelude.{
  ap, ◌∙◌, sym, ℕ, zero, suc, ◌+◌, ◌≤◌, ◌<◌, ◌≡◌, true, false, List, [], ◌∷◌, length, ltb, none,
  some, arith, Bool-cases, inl, inr,
}
use skills_sdk.Archive.Bytes.{byte_at}
use skills_sdk.Archive.Directory.{signature_at, rfind_below}

-- The four bytes of the signature, inside the snapshot.
abbrev Spelled : List ℕ → ℕ → Type 0
Spelled s i =
    (byte_at s i ≡ 0x50)
    × (byte_at s (suc i) ≡ 0x4b)
    × (byte_at s (suc (suc i)) ≡ 5)
    × (byte_at s (suc (suc (suc i))) ≡ 6)
    × (suc (suc (suc i)) < length s)

Spelled-of : (s : List ℕ) (i : ℕ) → signature_at s i ≡ true → Spelled s i
Spelled-of [] zero h = cc
Spelled-of [] (suc i) h = cc
Spelled-of (a ∷ s) (suc i) h = ground (arith, Spelled-of s i h)
Spelled-of (a ∷ []) zero h = ground arith
Spelled-of (a ∷ b ∷ []) zero h = ground arith
Spelled-of (a ∷ b ∷ c ∷ []) zero h = ground arith
Spelled-of (a ∷ b ∷ c ∷ d ∷ s) zero h = ground arith

pub signature_inside : (s : List ℕ) (i : ℕ) → signature_at s i ≡ true → i + 4 ≤ length s
signature_inside s i h = omega (arith, (Spelled-of s i h).4)

step_to : (s : List ℕ) (i j k v : ℕ) → byte_at s k ≡ v → byte_at s j ≡ 0x50 → j ≡ k → v ≡ 0x50
step_to s i j k v e f h = sym e ∙ ap (byte_at s) (sym h) ∙ f

overlap : (s : List ℕ) (i j : ℕ) → Spelled s i → Spelled s j → i < j → ¬ (i + 4 ≤ j) → ⊥
overlap s i j p q h near = elim (ℕ_discrete j (suc i)) [
  | yes e ↦ omega (arith, step_to s i j (suc i) 0x4b p.1 q.0 e)
  | no a ↦ elim (ℕ_discrete j (suc (suc i))) [
    | yes e ↦ omega (arith, step_to s i j (suc (suc i)) 5 p.2 q.0 e)
    | no b ↦
        omega (arith, step_to s i j (suc (suc (suc i))) 6 p.3 q.0 (omega (arith, a, b, h, near)))
  ]
]

-- Two occurrences of the signature stand four bytes apart.
pub signature_apart :
    (s : List ℕ) (i j : ℕ) → signature_at s i ≡ true → signature_at s j ≡ true → i < j → i + 4 ≤ j
signature_apart s i j p q h = elim (dec_le (i + 4) j) [
  | yes far ↦ far
  | no near ↦ absurd (overlap s i j (Spelled-of s i p) (Spelled-of s j q) h near)
]

-- One position more that the signature does not stand at.
step_free :
    (s : List ℕ) (n j : ℕ)
    → signature_at s n ≡ false
    → (j < n → ¬ (signature_at s j ≡ true))
    → j < suc n
    → ¬ (signature_at s j ≡ true)
step_free s n j other below b q = elim (dec_le (suc j) n) [
  | yes less ↦ below less q
  | no top ↦ let e : j ≡ n = omega arith in false≢true (sym other ∙ ap (signature_at s) (sym e) ∙ q)
]

-- `rfind` finds the last occurrence within its slice.
pub rfind_below-some :
    (s : List ℕ) (start n i : ℕ)
    → rfind_below s start n ≡ some i
    → (signature_at s i ≡ true)
      × (start ≤ i)
      × (i < n)
      × ((j : ℕ) → i < j → j < n → ¬ (signature_at s j ≡ true))
unfolding rfind_below
rfind_below-some s start zero i h = cc
rfind_below-some s start (suc n) i h = elim (Bool-cases (ltb n start)) [
  | inl out ↦ cc (rw out at h)
  | inr inside ↦ elim (Bool-cases (signature_at s n)) [
    | inl here ↦
        let e : n ≡ i = ground arith in
        rw (← e) (here, ground arith, omega arith, λ j a b. absurd (omega arith))
    | inr other ↦
        let (sign, low, high, free) = rfind_below-some s start n i (ground arith) in
        (sign, low, omega arith, λ j a b. step_free s n j other (free j a) b)
  ]
]

pub rfind_below-none :
    (s : List ℕ) (start n : ℕ)
    → rfind_below s start n ≡ none
    → (j : ℕ) → start ≤ j
    → j < n
    → ¬ (signature_at s j ≡ true)
unfolding rfind_below
rfind_below-none s start zero h j a b = absurd (omega arith)
rfind_below-none s start (suc n) h j a b = elim (Bool-cases (ltb n start)) [
  | inl out ↦ absurd (ground arith)
  | inr inside ↦ elim (Bool-cases (signature_at s n)) [
    | inl here ↦ cc (rw (inside, here) at h)
    | inr other ↦ step_free s n j other (rfind_below-none s start n (ground arith) j a) b
  ]
]
