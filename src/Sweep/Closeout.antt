-- ===== src/Sweep/Closeout.antt =====
-- `validate_pr_sweep_dirty_closeout`: the accounting of the dirty paths by a ledger.
use skills_sdk.Prelude.{
  Bool, true, false, not, ◌&&◌, ◌||◌, Option, none, some, List, [], ◌∷◌, ◌++◌, String, filter,
  if◌then◌else◌,
}
use skills_sdk.Json.{Json}
use skills_sdk.Paths.{is_portable}
use skills_sdk.Packaging.Validation.{is_empty}
use skills_sdk.Sweep.{
  PrSweepFinding, PrSweepDirtyState, PrSweepValidationResult, pass, fail, blocked, sorted_set,
  without, ledger_paths, sweep_result_ok,
}
use skills_sdk.Sweep.Porcelain.{parse_porcelain}
use skills_sdk.Sweep.Git.{Checkout, Completed, exception, clear, blocker, git_status_preflight}

-- What `_read_ledger` has to say of the ledger that was given, if one was.
pub data Ledger : Type 0 where
  no_ledger unreadable : Ledger
  contents : Json → Ledger

abbrev pub finding : String → String → PrSweepFinding
finding code message = record { code = code; message = message }

-- The blocked result of `_failure`.
abbrev pub failure : String → String → PrSweepValidationResult
failure code message = record {
  status = blocked;
  findings = finding code message ∷ [];
  dirty_state = none;
  ledgered_paths = [];
  unledgered_paths = [];
}

abbrev pub named_paths : Ledger → List String
named_paths (contents value) = sorted_set (ledger_paths value)
named_paths _ = []

-- The paths of the ledger that are kept, and a finding for each of the others.
abbrev pub safe_paths : Ledger → List String
safe_paths ledger = filter is_portable (named_paths ledger)

unfoldable pub unsafe_findings : List String → List PrSweepFinding
unsafe_findings [] = []
unsafe_findings (path ∷ paths) =
    let rest = unsafe_findings paths in
    if is_portable path
    then rest
    else finding "invalid_ledger_path" "dirty-worktree ledger contains an unsafe path" ∷ rest

abbrev pub ledger_findings : Ledger → List PrSweepFinding
ledger_findings no_ledger = []
ledger_findings unreadable =
    finding "ledger_unreadable" "could not read or parse dirty-worktree ledger JSON" ∷ []
ledger_findings (contents value) = unsafe_findings (named_paths (contents value))

abbrev pub is_missing : Ledger → Bool
is_missing no_ledger = true
is_missing _ = false

-- The finding on the dirty paths.
unfoldable pub dirt_findings : PrSweepDirtyState → Ledger → Bool → List String → List PrSweepFinding
dirt_findings state ledger require_clean unledgered =
    if require_clean && not (is_empty state.dirty_paths)
    then finding "primary_worktree_dirty"
        "primary checkout is dirty; branch movement requires a clean checkout"
      ∷ []
    else if not (is_empty state.dirty_paths) && is_missing ledger
    then finding "dirty_worktree_ledger_required" "dirty checkout requires a ledger for accounting"
      ∷ []
    else if not (is_empty unledgered)
    then finding "dirty_worktree_unledgered_paths" "dirty paths are missing from the ledger" ∷ []
    else []

unfoldable pub account : PrSweepDirtyState → Ledger → Bool → PrSweepValidationResult
account state ledger require_clean =
    let unledgered = sorted_set (without state.dirty_paths (safe_paths ledger)) in
    let findings = ledger_findings ledger ++ dirt_findings state ledger require_clean unledgered in
    record {
      status = if is_empty findings then pass else fail;
      findings = findings;
      dirty_state = some state;
      ledgered_paths = sorted_set (safe_paths ledger);
      unledgered_paths = unledgered;
    }

abbrev pub status_arguments : List String
status_arguments =
    "status" ∷ "--porcelain=v1" ∷ "-z" ∷ "--untracked-files=all" ∷ "--ignore-submodules=none" ∷ []

module _ (tree : Checkout) (root : String) (ledger : Ledger) (require_clean : Bool) where
  -- From the answer of `git status` on; `none` is an exception.
  unfoldable pub account_status : Completed → Option PrSweepValidationResult
  account_status done =
      if not done.succeeded
      then some
          (failure "git_status_unavailable" "Git status failed in the supplied repository root")
      else elim (parse_porcelain done.stdout) [
        | none ↦ none
        | some state ↦
            if sweep_result_ok (account state ledger require_clean)
            then some (account state ledger require_clean)
            else none
      ]

  abbrev unavailable : PrSweepValidationResult
  unavailable = failure "git_status_unavailable" "could not inspect Git dirty state"

  abbrev pub read_status : Option PrSweepValidationResult
  read_status = elim (tree.git root status_arguments "") [
    | none ↦ some unavailable
    | some done ↦ account_status done
  ]

  unfoldable pub validate_pr_sweep_dirty_closeout : Option PrSweepValidationResult
  validate_pr_sweep_dirty_closeout =
      elim (tree.git root ("rev-parse" ∷ "--show-toplevel" ∷ []) "") [
        | none ↦ some unavailable
        | some top ↦
            if not top.succeeded || not (tree.is_top_level top.stdout root)
            then some (failure "invalid_repo_root" "supplied root is not a worktree top level")
            else elim (git_status_preflight tree 9 root) [
              | exception ↦ some unavailable
              | blocker code message ↦ some (failure code message)
              | clear ↦ read_status
            ]
      ]
