-- ===== src/Prelude/Texts.antt =====
-- Texts: their code points, their UTF-8 bytes, and the string methods that the program calls.
use Prim.Native.Nat.{ℕ, ◌+◌, ◌/◌, ◌%◌}
use Prim.Native.Char.{code}
use Prim.Native.String.{String}
use mathlib.Core.Path.{◌≡◌, refl}
use mathlib.Core.Logic.{◌↔◌}
use mathlib.Core.Bool.{Bool, true, false, ◌&&◌, ◌||◌}
use mathlib.Core.List.{List, [], ◌∷◌, ◌++◌}
use native.Mathlib.Omega.{arith}
use skills_sdk.Prelude.Tests.{Comparable, ltb, leb, nat_eq, if◌then◌else◌, nat_eq_iff}
use skills_sdk.Prelude.Lists.{all}

-- The code points of a text. `String` has its own `[]` and `∷`.
abbrev pub codes : String → List ℕ
codes String.[] = []
codes (String.◌∷◌ c s) = code c ∷ codes s

abbrev pub codes_beq : List ℕ → List ℕ → Bool
codes_beq [] [] = true
codes_beq [] (b ∷ bs) = false
codes_beq (a ∷ as') [] = false
codes_beq (a ∷ as') (b ∷ bs) = nat_eq a b && codes_beq as' bs

pub codes_beq_iff : (xs ys : List ℕ) → (codes_beq xs ys ≡ true) ↔ (xs ≡ ys)
codes_beq_iff [] [] = (λ _. refl, λ _. refl)
codes_beq_iff [] (b ∷ bs) = (λ h. cc, λ h. cc)
codes_beq_iff (a ∷ r) [] = (λ h. cc, λ h. cc)
codes_beq_iff (a ∷ r) (b ∷ bs) = ground (arith, nat_eq_iff a b, codes_beq_iff r bs)

instance abbrev pub codes_eq : Comparable (List ℕ)
codes_eq = record { eqb = codes_beq; eqb_iff = codes_beq_iff }

-- `value.encode("utf-8")` of one code point.
unfoldable pub utf8_code : ℕ → List ℕ
utf8_code c =
    if ltb c 0x80
    then c ∷ []
    else if ltb c 0x800
    then (0xc0 + c / 0x40) ∷ (0x80 + c % 0x40) ∷ []
    else if ltb c 0x10000
    then (0xe0 + c / 0x1000) ∷ (0x80 + c / 0x40 % 0x40) ∷ (0x80 + c % 0x40) ∷ []
    else (0xf0 + c / 0x40000)
      ∷ (0x80 + c / 0x1000 % 0x40)
      ∷ (0x80 + c / 0x40 % 0x40)
      ∷ (0x80 + c % 0x40)
      ∷ []

-- The bytes of a text.
unfoldable pub utf8 : List ℕ → List ℕ
unfolding utf8_code
utf8 [] = []
utf8 (c ∷ cs) = utf8_code c ++ utf8 cs

-- The code points that `str.strip` removes.
unfoldable pub is_space : ℕ → Bool
is_space c =
    (leb 9 c && leb c 13)
    || (leb 28 c && leb c 32)
    || nat_eq c 0x85
    || nat_eq c 0xa0
    || nat_eq c 0x1680
    || (leb 0x2000 c && leb c 0x200a)
    || nat_eq c 0x2028
    || nat_eq c 0x2029
    || nat_eq c 0x202f
    || nat_eq c 0x205f
    || nat_eq c 0x3000

-- `not value.strip()`
unfoldable pub is_blank : List ℕ → Bool
unfolding is_space
is_blank cs = all is_space cs

abbrev pub starts_with : List ℕ → List ℕ → Bool
starts_with [] cs = true
starts_with (d ∷ p) [] = false
starts_with (d ∷ p) (c ∷ cs) = nat_eq d c && starts_with p cs

unfoldable pub ends_with : ℕ → List ℕ → Bool
ends_with d [] = false
ends_with d (c ∷ []) = nat_eq d c
ends_with d (c ∷ e ∷ cs) = ends_with d (e ∷ cs)
