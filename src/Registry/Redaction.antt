-- ===== src/Registry/Redaction.antt =====
-- `registry_evidence_is_redaction_safe`: the search for a credential prefix at the start of the
-- text or behind a character that is no letter or digit; and the search of
-- `identity_text_is_redaction_safe`, for one behind a separator.
use skills_sdk.Prelude.{
  ℕ, ◌+◌, Bool, true, false, not, ◌&&◌, ◌||◌, List, [], ◌∷◌, String, codes, any, leb, nat_eq,
  if◌then◌else◌,
}

-- The case folding of `re.IGNORECASE` on the characters that fold to an ASCII letter.
fold : ℕ → ℕ
fold c =
    if leb b'A' c && leb c b'Z'
    then c + 32
    else if nat_eq c 0x130 || nat_eq c 0x131
    then b'i'
    else if nat_eq c 0x17f
    then b's'
    else if nat_eq c 0x212a
    then b'k'
    else c

is_alphanumeric : ℕ → Bool
unfolding fold
is_alphanumeric c = let d = fold c in (leb b'a' d && leb d b'z') || (leb b'0' d && leb d b'9')

prefix_at : List ℕ → List ℕ → Bool
unfolding fold
prefix_at [] cs = true
prefix_at (d ∷ p) [] = false
prefix_at (d ∷ p) (c ∷ cs) = nat_eq d (fold c) && prefix_at p cs

abbrev credential_prefixes : List (List ℕ)
credential_prefixes =
    codes "aiza"
    ∷ codes "akia"
    ∷ codes "bearer"
    ∷ codes "ghp_"
    ∷ codes "github_pat_"
    ∷ codes "hf_"
    ∷ codes "sk-"
    ∷ codes "xoxb-"
    ∷ codes "xoxp-"
    ∷ []

search_credential : Bool → List ℕ → Bool
unfolding prefix_at is_alphanumeric
search_credential boundary [] = false
search_credential boundary (c ∷ cs) =
    (boundary && any (λ p. prefix_at p (c ∷ cs)) credential_prefixes)
    || search_credential (not (is_alphanumeric c)) cs

unfoldable pub registry_evidence_is_redaction_safe : String → Bool
unfolding search_credential
registry_evidence_is_redaction_safe value = not (search_credential true (codes value))

is_separator : ℕ → Bool
is_separator c = nat_eq c b'.' || nat_eq c b'_' || nat_eq c b'-'

search_component : Bool → List ℕ → Bool
unfolding prefix_at is_separator
search_component boundary [] = false
search_component boundary (c ∷ cs) =
    (boundary && any (λ p. prefix_at p (c ∷ cs)) credential_prefixes)
    || search_component (is_separator c) cs

-- `_CREDENTIAL_COMPONENT_PATTERN.search(value) is None`
unfoldable pub components_are_redaction_safe : String → Bool
unfolding search_component
components_are_redaction_safe value = not (search_component true (codes value))
