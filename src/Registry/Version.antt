-- ===== src/Registry/Version.antt =====
-- `REGISTRY_VERSION_PATTERN`: canonical Semantic Versioning. A `+` stands only before the build
-- part, and the first `-` before it only before the pre-release part, so the text is split there.
use skills_sdk.Prelude.{
  ℕ, Bool, true, false, not, ◌&&◌, ◌||◌, Option, none, some, List, [], ◌∷◌, String, codes, all, any,
  leb, nat_eq, if◌then◌else◌,
}
use skills_sdk.Paths.Split.{split}

is_digit : ℕ → Bool
is_digit c = leb b'0' c && leb c b'9'

is_letter_or_dash : ℕ → Bool
is_letter_or_dash c = (leb b'a' c && leb c b'z') || (leb b'A' c && leb c b'Z') || nat_eq c b'-'

abbrev is_identifier_code : ℕ → Bool
is_identifier_code c = is_digit c || is_letter_or_dash c

-- `0|[1-9][0-9]*`
is_number : List ℕ → Bool
unfolding is_digit
is_number [] = false
is_number (c ∷ []) = is_digit c
is_number (c ∷ d ∷ cs) = is_digit c && not (nat_eq c b'0') && all is_digit (d ∷ cs)

-- `_SEMVER_IDENTIFIER`
is_semver_identifier : List ℕ → Bool
unfolding is_number is_letter_or_dash
is_semver_identifier part =
    is_number part || (all is_identifier_code part && any is_letter_or_dash part)

is_build_identifier : List ℕ → Bool
unfolding is_digit is_letter_or_dash
is_build_identifier [] = false
is_build_identifier (c ∷ cs) = all is_identifier_code (c ∷ cs)

-- The text before the first separator, and what follows it.
cut : ℕ → List ℕ → List ℕ × Option (List ℕ)
cut sep [] = ([], none)
cut sep (c ∷ cs) =
    let (before, after) = cut sep cs in if nat_eq c sep then ([], some cs) else (c ∷ before, after)

abbrev parts_ok : (List ℕ → Bool) → Option (List ℕ) → Bool
parts_ok test none = true
parts_ok test (some text) = all test (split b'.' text)

core_ok : List (List ℕ) → Bool
core_ok (major ∷ minor ∷ patch ∷ []) = is_number major && is_number minor && is_number patch
core_ok _ = false

unfoldable pub is_registry_version : String → Bool
unfolding cut core_ok is_semver_identifier is_build_identifier split
is_registry_version value =
    let (rest, build) = cut b'+' (codes value) in
    let (core, pre) = cut b'-' rest in
    core_ok (split b'.' core)
    && parts_ok is_semver_identifier pre
    && parts_ok is_build_identifier build
