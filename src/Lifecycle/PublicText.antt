-- ===== src/Lifecycle/PublicText.antt =====
-- `lifecycle_text_is_public_safe` of src/skills_sdk/models/lifecycle.py: the searches for credentials
-- and for paths of a machine. Both tables of words fold the case of ASCII letters only.
use skills_sdk.Prelude.{
  refl, ◌≡◌, ℕ, ◌+◌, Bool, true, false, not, ◌&&◌, ◌||◌, List, [], ◌∷◌, String, codes, leb, nat_eq,
  is_space, if◌then◌else◌,
}
use skills_sdk.Lifecycle.Patterns.{
  Pattern, empty, one, then_, either, many, sequence, one_of, some_of, maybe, anything, full_match,
}

abbrev lower_ascii : ℕ → ℕ
lower_ascii c = if leb b'A' c && leb c b'Z' then c + 32 else c

abbrev is_letter : ℕ → Bool
is_letter c = let d = lower_ascii c in leb b'a' d && leb d b'z'

abbrev is_alnum : ℕ → Bool
is_alnum c = is_letter c || (leb b'0' c && leb c b'9')

-- `[A-Za-z0-9_-]` and `[A-Za-z0-9._-]`
abbrev is_word : ℕ → Bool
is_word c = is_alnum c || nat_eq c b'_' || nat_eq c b'-'

abbrev is_name : ℕ → Bool
is_name c = is_word c || nat_eq c b'.'

abbrev char : ℕ → Pattern
char d = one (λ c. nat_eq d c)

abbrev letters : List ℕ → List Pattern
letters [] = []
letters (d ∷ ds) = one (λ c. nat_eq d (lower_ascii c)) ∷ letters ds

-- A word of lower-case characters, in any case.
abbrev word : String → Pattern
word w = sequence (letters (codes w))

abbrev words : List String → List Pattern
words [] = []
words (w ∷ ws) = word w ∷ words ws

-- `r` at the start of the text, or behind a character that `border` accepts; then anything.
abbrev behind : (ℕ → Bool) → Pattern → Pattern
behind border r = then_ (either r (sequence (anything ∷ one border ∷ r ∷ []))) anything

abbrev anywhere : Pattern → Pattern
anywhere r = sequence (anything ∷ r ∷ anything ∷ [])

abbrev is_dash : ℕ → Bool
is_dash c = nat_eq c b'_' || nat_eq c b'-'

abbrev dash : Pattern
dash = one is_dash

abbrev secret_names : Pattern
secret_names = one_of (
    sequence (maybe (word "ssh_") ∷ word "private" ∷ maybe dash ∷ word "key" ∷ [])
    ∷ sequence (word "api" ∷ maybe dash ∷ word "key" ∷ [])
    ∷ words ("credential" ∷ "password" ∷ "secret" ∷ "token" ∷ []))

abbrev is_quote : ℕ → Bool
is_quote c = nat_eq c b'"' || nat_eq c 39

abbrev is_assignment : ℕ → Bool
is_assignment c = nat_eq c b':' || nat_eq c b'='

unfoldable pub credential_pattern : Pattern
unfolding is_space
credential_pattern =
    behind (λ c. not (is_alnum c))
      (one_of (
        one_of (
          words (
            "aiza" ∷ "akia" ∷ "bearer" ∷ "ghp_" ∷ "github_pat_" ∷ "hf_" ∷ "sk-" ∷ "xoxb-" ∷ "xoxp-"
            ∷ []))
        ∷ sequence (
            word "-----begin"
            ∷ maybe (then_ (word " ") (some_of (one is_alnum)))
            ∷ word " private key-----"
            ∷ [])
        ∷ sequence (
            word "eyj"
            ∷ some_of (one is_word)
            ∷ char b'.'
            ∷ some_of (one is_word)
            ∷ char b'.'
            ∷ some_of (one is_word)
            ∷ [])
        ∷ sequence (
            one_of (words ("client" ∷ "access" ∷ []))
            ∷ maybe dash
            ∷ one_of (
                word "secret"
                ∷ word "token"
                ∷ then_ (word "key") (maybe (then_ (maybe dash) (word "id")))
                ∷ [])
            ∷ [])
        ∷ sequence (
            secret_names
            ∷ many (then_ dash (some_of (one is_alnum)))
            ∷ maybe (one is_quote)
            ∷ many (one is_space)
            ∷ one is_assignment
            ∷ [])
        ∷ []))

abbrev slash : Pattern
slash = char b'/'

abbrev host_directories : Pattern
host_directories =
    one_of
      (words ("users" ∷ "home" ∷ "private" ∷ "tmp" ∷ "workspace" ∷ "var/folders" ∷ "root" ∷ []))

-- The characters before a path from the root, and before a relative one.
abbrev before_root : ℕ → Bool
before_root c = not (is_alnum c || nat_eq c b'/')

abbrev before_name : ℕ → Bool
before_name c = not (is_alnum c || nat_eq c b'.' || nat_eq c b':' || nat_eq c b'/')

abbrev backslash : Pattern
backslash = char 92

-- The alternatives in order; `(?!/)` is the end of the text or another character.
abbrev pub machine_path_pattern : Pattern
machine_path_pattern = one_of (
    anywhere (then_ (word "file:") (some_of slash))
    ∷ behind (λ c. not (is_alnum c))
        (sequence (
          char b'$'
          ∷ one (λ c. is_letter c || nat_eq c b'_')
          ∷ many (one (λ c. is_alnum c || nat_eq c b'_'))
          ∷ slash
          ∷ []))
    ∷ anywhere (then_ (some_of (then_ (some_of (one is_name)) backslash)) (some_of (one is_name)))
    ∷ behind (λ c. not (is_alnum c)) backslash
    ∷ then_ (either slash (sequence (anything ∷ one before_root ∷ slash ∷ [])))
        (either empty (then_ (one (λ c. not (nat_eq c b'/'))) anything))
    ∷ behind before_root (sequence (slash ∷ host_directories ∷ slash ∷ []))
    ∷ behind before_name
        (sequence (some_of (then_ (some_of (one is_name)) slash) ∷ host_directories ∷ slash ∷ []))
    ∷ behind (λ c. not (is_alnum c)) (then_ (one is_letter) (char b':'))
    ∷ [])

unfoldable pub lifecycle_text_is_public_safe : String → Bool
unfolding full_match credential_pattern
lifecycle_text_is_public_safe value =
    not (full_match credential_pattern (codes value))
    && not (full_match machine_path_pattern (codes value))

-- The text of a blocker's message is safe, and six texts are not.
plain_is_safe :
    lifecycle_text_is_public_safe
      "Package and registry preparation must bind the same built candidate and digest."
    ≡ true
unfolding lifecycle_text_is_public_safe credential_pattern
plain_is_safe = refl

not_safe :
    (lifecycle_text_is_public_safe "see /etc/passwd" ≡ false)
    × (lifecycle_text_is_public_safe "api_key = 1" ≡ false)
    × (lifecycle_text_is_public_safe "C:x" ≡ false)
    × (lifecycle_text_is_public_safe "docs/tmp/x" ≡ false)
    × (lifecycle_text_is_public_safe "docs//x" ≡ true)
    × (lifecycle_text_is_public_safe "use client-secret" ≡ false)
unfolding lifecycle_text_is_public_safe credential_pattern
not_safe = (refl, refl, refl, refl, refl, refl)
