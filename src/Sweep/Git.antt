-- ===== src/Sweep/Git.antt =====
-- The inspection by git: `_git_status_preflight` and the parsing of what its commands print. Git and
-- the file system are the parameter `Checkout`.
use Prim.Native.String
use Prim.Native.Char.{code}
use skills_sdk.Prelude.{
  ℕ, zero, suc, Bool, true, false, not, ◌||◌, Option, none, some, List, [], ◌∷◌, String, any,
  filter, nat_eq, codes, starts_with, string_eq, ◌==◌, if◌then◌else◌,
}
use skills_sdk.Sweep.Porcelain.{split_nul}

-- `subprocess.CompletedProcess`
pub record Completed : Type 0 where
  pub succeeded : Bool
  pub stdout : String

-- `git` in a directory with its arguments and its input; `none` is an exception of
-- `subprocess.run`. Then `Path.resolve`, what the working tree holds, and `str.islower` on a letter.
pub record Checkout : Type 0 where
  pub git : String → List String → String → Option Completed
  pub is_top_level : String → String → Bool
  pub submodule_root : String → String → String
  pub is_symlink : String → Bool
  pub has_git : String → Bool
  pub is_lower : ℕ → Bool

-- An exception, the blocker's code and message, or nothing to report.
pub data Inspection : Type 0 where
  exception clear : Inspection
  blocker : String → String → Inspection

abbrev unavailable : String → Inspection
unavailable message = blocker "git_status_unavailable" message

abbrev is_given : String → Bool
is_given String.[] = false
is_given (String.◌∷◌ c s) = true

-- `record[1] == " "` of a record of three characters at least.
abbrev well_formed : String → Bool
well_formed (String.◌∷◌ a (String.◌∷◌ b (String.◌∷◌ c s))) = nat_eq (code b) b' '
well_formed _ = false

abbrev path_of : String → String
path_of (String.◌∷◌ a (String.◌∷◌ b s)) = s
path_of _ = ""

abbrev hides : (ℕ → Bool) → String → Bool
hides is_lower String.[] = false
hides is_lower (String.◌∷◌ a s) = is_lower (code a) || nat_eq (code a) b'S'

-- `record.partition("\t")`, its last part.
abbrev after_tab : String → Option String
after_tab String.[] = none
after_tab (String.◌∷◌ c s) = if nat_eq (code c) 9 then some s else after_tab s

abbrev paths_of : List String → List String
paths_of [] = []
paths_of (r ∷ rs) = path_of r ∷ paths_of rs

-- `"\0".join(paths) + "\0"`
abbrev closed_by_nul : List String → String
closed_by_nul [] = ""
closed_by_nul (p ∷ ps) = String.◌++◌ p (String.◌++◌ "\0" (closed_by_nul ps))

-- The answer of `check-attr -z`: triples, each field closed by a NUL; the third is the value.
-- `none` is an answer of another shape.
unfoldable pub attribute_values : List String → Option (List String)
attribute_values [] = none
attribute_values (String.[] ∷ []) = some []
attribute_values (_ ∷ []) = none
attribute_values (_ ∷ _ ∷ []) = none
attribute_values (_ ∷ _ ∷ _ ∷ []) = none
attribute_values (path ∷ attribute ∷ value ∷ next ∷ rest) = elim (attribute_values (next ∷ rest)) [
  | none ↦ none
  | some values ↦ some (value ∷ values)
]

abbrev filters : String → Bool
filters value = not (value == "unspecified" || value == "unset")

module _ (tree : Checkout) where
  -- The check of the filter attributes of the tracked paths.
  unfoldable pub check_attributes : String → List String → Inspection
  check_attributes root [] = clear
  check_attributes root (p ∷ ps) =
      elim (tree.git root ("check-attr" ∷ "-z" ∷ "--stdin" ∷ "filter" ∷ [])
        (closed_by_nul (p ∷ ps))) [
          | none ↦ exception
          | some done ↦
              if not done.succeeded
              then unavailable "could not inspect tracked Git attributes"
              else elim (attribute_values (split_nul done.stdout)) [
                | none ↦ unavailable "could not parse tracked Git attributes"
                | some values ↦
                    if any filters values
                    then blocker "clean_filter_present"
                        "tracked Git filter attributes prevent read-only status inspection"
                    else clear
              ]
        ]

  -- The walk over the modes: what a submodule reports, the whole inspection reports. `inspect` is
  -- the inspection of a submodule.
  unfoldable pub check_submodules : (String → Inspection) → String → List String → Inspection
  check_submodules inspect root [] = clear
  check_submodules inspect root (record_ ∷ records) =
      let rest = check_submodules inspect root records in
      if not (starts_with (codes "160000 ") (codes record_))
      then rest
      else elim (after_tab record_) [
        | none ↦ unavailable "could not parse tracked Git modes"
        | some path ↦
            let inner = inspect (tree.submodule_root root path) in
            if tree.is_symlink (tree.submodule_root root path)
            then unavailable "submodule path is not safe to inspect"
            else if tree.has_git (tree.submodule_root root path)
            then elim inner [ clear ↦ rest | exception ↦ exception | blocker c m ↦ blocker c m ]
            else rest
      ]

  abbrev check_modes : (String → Inspection) → String → List String → Inspection
  check_modes inspect root records = elim (tree.git root ("ls-files" ∷ "--stage" ∷ "-z" ∷ []) "") [
    | none ↦ exception
    | some done ↦
        if not done.succeeded
        then unavailable "could not inspect tracked Git modes"
        else elim (check_submodules inspect root (split_nul done.stdout)) [
          | clear ↦ check_attributes root (paths_of records)
          | exception ↦ exception
          | blocker c m ↦ blocker c m
        ]
  ]

  abbrev check_index : (String → Inspection) → String → Inspection
  check_index inspect root = elim (tree.git root ("ls-files" ∷ "-v" ∷ "-z" ∷ []) "") [
    | none ↦ exception
    | some done ↦
        let records = filter is_given (split_nul done.stdout) in
        if not done.succeeded
        then unavailable "could not inspect tracked Git paths"
        else if any (λ r. not (well_formed r)) records
        then unavailable "could not parse tracked Git paths"
        else if any (hides tree.is_lower) records
        then blocker "index_visibility_flags"
            "index visibility flags prevent a trustworthy clean result"
        else check_modes inspect root records
  ]

  -- `levels` is 9 at the start, one for each depth from 0 to 8.
  unfoldable pub git_status_preflight : ℕ → String → Inspection
  git_status_preflight zero root = unavailable "submodule nesting exceeds safe inspection depth"
  git_status_preflight (suc levels) root = check_index (git_status_preflight levels) root
