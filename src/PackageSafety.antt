-- ===== src/PackageSafety.antt =====
-- The package-path policy: src/skills_sdk/core/package_safety.py. `str.lower` is a parameter.
use skills_sdk.Prelude.{
  ℕ, Bool, ◌||◌, Option, none, some, List, [], ◌∷◌, map, String, codes, contains, codes_eq, any,
  starts_with, ◌==◌, if◌then◌else◌,
}
use mathlib.Core.List.{reverse}
use skills_sdk.Paths.{PurePosixPath, posix_path}

abbrev pub unsafe_package_directories : List (List ℕ)
unsafe_package_directories =
    codes ".agents"
    ∷ codes ".cache"
    ∷ codes ".codex"
    ∷ codes ".git"
    ∷ codes ".gnupg"
    ∷ codes ".harness"
    ∷ codes ".mypy_cache"
    ∷ codes ".plugin-appserver"
    ∷ codes ".pytest_cache"
    ∷ codes ".ruff_cache"
    ∷ codes ".ssh"
    ∷ codes ".tox"
    ∷ codes ".venv"
    ∷ codes "__pycache__"
    ∷ codes "artifacts"
    ∷ codes "dist"
    ∷ codes "node_modules"
    ∷ codes "venv"
    ∷ []

abbrev pub unsafe_package_filenames : List (List ℕ)
unsafe_package_filenames =
    codes ".env"
    ∷ codes ".netrc"
    ∷ codes ".npmrc"
    ∷ codes "credentials.json"
    ∷ codes "id_ed25519"
    ∷ codes "id_rsa"
    ∷ codes "secrets.json"
    ∷ []

abbrev pub unsafe_package_suffixes : List (List ℕ)
unsafe_package_suffixes =
    codes ".key" ∷ codes ".p12" ∷ codes ".pem" ∷ codes ".pfx" ∷ codes ".token" ∷ []

-- `text.endswith(suffix)`
abbrev pub has_suffix : List ℕ → List ℕ → Bool
has_suffix suffix text = starts_with (reverse suffix) (reverse text)

-- `parts[-1]`; a path of no parts has none.
abbrev pub last_part : List (List ℕ) → Option (List ℕ)
last_part [] = none
last_part (p ∷ []) = some p
last_part (p ∷ q ∷ ps) = last_part (q ∷ ps)

-- `PurePosixPath(path).parts`: the root counts as a part.
abbrev all_parts : PurePosixPath → List (List ℕ)
all_parts path = if path.root == [] then path.parts else path.root ∷ path.parts

file_reason : List ℕ → Option String
unfolding contains
file_reason normalized =
    if contains normalized unsafe_package_filenames
    then some "forbidden_filename"
    else if starts_with (codes ".env.") normalized
    then some "forbidden_env_family"
    else if normalized == codes "skill-package-validation.json"
        || has_suffix (codes "-receipt.json") normalized
    then some "forbidden_generated_receipt"
    else if any (λ s. has_suffix s normalized) unsafe_package_suffixes
    then some "forbidden_secret_suffix"
    else none

module _ (lower : List ℕ → List ℕ) where
  unfoldable pub unsafe_package_file_reason : List ℕ → Option String
  unfolding file_reason
  unsafe_package_file_reason name = file_reason (lower name)

  -- The last part is lowered a second time, as in the source.
  unfoldable pub unsafe_package_path_reason : String → Option String
  unfolding unsafe_package_file_reason posix_path contains
  unsafe_package_path_reason path =
      let parts = map lower (all_parts (posix_path (codes path))) in
      if any (λ p. contains p unsafe_package_directories) parts
      then some "forbidden_path_part"
      else elim (last_part parts) [ none ↦ none | some name ↦ unsafe_package_file_reason name ]
