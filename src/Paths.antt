-- ===== src/Paths.antt =====
-- Portable paths: src/skills_sdk/core/paths.py and src/skills_sdk/core/errors.py.
pub mod Split
pub mod Laws
mod Tests
use skills_sdk.Prelude.{
  ℕ, ◌≡◌, Bool, true, false, not, ◌&&◌, ◌||◌, Option, none, some, List, [], ◌∷◌, ◌++◌, String,
  codes, is_blank, all, any, contains, filter, starts_with, ◌==◌, ℕ_eq, codes_eq, if◌then◌else◌,
}
use skills_sdk.Paths.Split.{split, join}

-- `ContractError`; its `details` are always the default, the empty tuple.
pub record ContractError : Type 0 where
  pub code : String
  pub message : String

-- What a checked function returns: a value, or the error that it raises.
pub data Checked (A : Type 0) : Type 0 where
  ok : A → Checked A
  err : ContractError → Checked A

-- `PurePosixPath` of the standard library: its root, and its parts without the root.
pub record PurePosixPath : Type 0 where
  pub root : List ℕ
  pub parts : List (List ℕ)

abbrev pub slash : ℕ
slash = b'/'

abbrev pub dot : List ℕ
dot = b'.' ∷ []

abbrev pub dot_dot : List ℕ
dot_dot = b'.' ∷ b'.' ∷ []

strip_slashes : List ℕ → List ℕ
strip_slashes [] = []
strip_slashes (c ∷ cs) = let rest = strip_slashes cs in if c == slash then rest else c ∷ cs

-- One slash or three and more are the root `/`; exactly two are the root `//`.
abbrev root_of : List ℕ → List ℕ
root_of value =
    if starts_with (slash ∷ slash ∷ []) value
      && not (starts_with (slash ∷ slash ∷ slash ∷ []) value)
    then slash ∷ slash ∷ []
    else if starts_with (slash ∷ []) value
    then slash ∷ []
    else []

abbrev pub is_kept : List ℕ → Bool
is_kept part = not (part == []) && not (part == dot)

unfoldable pub posix_path : List ℕ → PurePosixPath
unfolding strip_slashes split
posix_path value = record {
  root = root_of value;
  parts = filter is_kept (split slash (strip_slashes value));
}

-- `path.as_posix()`
unfoldable pub as_posix : PurePosixPath → List ℕ
unfolding join
as_posix path = let text = path.root ++ join slash path.parts in if text == [] then dot else text

abbrev is_absolute : PurePosixPath → Bool
is_absolute path = not (path.root == [])

-- `path.parts and ":" in path.parts[0]`, where the path has no root.
abbrev pub first_has_colon : List (List ℕ) → Bool
first_has_colon [] = false
first_has_colon (part ∷ _) = contains b':' part

abbrev pub portable_error : String → ContractError
portable_error text = record { code = "invalid_portable_path"; message = text }

check_path : List ℕ → PurePosixPath → Checked PurePosixPath
unfolding contains as_posix
check_path value path =
    if is_absolute path || contains dot_dot path.parts || first_has_colon path.parts
    then err (portable_error "path must be relative and cannot escape its root")
    else if not (as_posix path == value) || contains (as_posix path) (dot ∷ [] ∷ [])
    then err (portable_error "path must already be normalized")
    else ok path

unfoldable pub require_portable_relative_path : String → Checked PurePosixPath
unfolding is_blank contains check_path posix_path
require_portable_relative_path value =
    let text = codes value in
    if is_blank text || contains b'\\' text || any (λ c. contains c (13 ∷ 10 ∷ [])) text
    then err (portable_error "path must be a non-empty POSIX path")
    else check_path text (posix_path text)

-- `require_portable_relative_path` between `try` and `except ContractError`, for the callers that
-- only ask whether the path is refused, such as `_local_evidence_reference_is_safe` of
-- src/skills_sdk/validation/pr_sweep.py.
unfoldable pub is_portable : String → Bool
unfolding require_portable_relative_path
is_portable value = elim (require_portable_relative_path value) [ ok _ ↦ true | err _ ↦ false ]
