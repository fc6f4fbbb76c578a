-- ===== src/Sweep/Tests.antt =====
-- A checkout with two dirty paths, and a ledger of them.
use skills_sdk.Prelude.{
  if◌then◌else◌, true, false, ◌≡◌, ◌↔◌, refl, String, List, [], ◌∷◌, some, contains, string_eq,
  sorted, to_set,
}
use skills_sdk.Json.{text, object, array}
use skills_sdk.Paths.{is_portable}
use skills_sdk.Packaging.Validation.{is_subset}
use skills_sdk.Sweep.{PrSweepDirtyState, pass, dirty_state_ok, same_paths, ledger_paths}
use skills_sdk.Sweep.Porcelain.{parse_porcelain, parse_records, split_nul, add_record}
use skills_sdk.Sweep.Git.{
  Checkout, Completed, clear, git_status_preflight, check_submodules, check_attributes,
}
use skills_sdk.Sweep.Closeout.{
  Ledger, contents, account, account_status, validate_pr_sweep_dirty_closeout, unsafe_findings,
  dirt_findings,
}
use skills_sdk.Sweep.Laws.{IsAccounted, account_iff}
use skills_sdk.Sweep.Results.{
  IsClosed, account_status_total, validate_pr_sweep_dirty_closeout-IsClosed,
}

abbrev printed : String
printed = "R  new.md\0old.md\0 M kept.md\0?? more.md\0"

abbrev state : PrSweepDirtyState
state = record {
  staged_paths = "new.md" ∷ "old.md" ∷ [];
  unstaged_paths = "kept.md" ∷ [];
  untracked_paths = "more.md" ∷ [];
  dirty_paths = "kept.md" ∷ "more.md" ∷ "new.md" ∷ "old.md" ∷ [];
}

parses : parse_porcelain printed ≡ some state
unfolding parse_porcelain parse_records split_nul add_record dirty_state_ok same_paths is_portable
    is_subset sorted to_set contains
parses = refl

abbrev ledger : Ledger
ledger = contents (
    object (
      ("note", text "kept.txt")
      ∷ ("moves", array (object (("paths", array (text "old.md" ∷ text "new.md" ∷ [])) ∷ []) ∷ []))
      ∷ ("dirty_paths", array (text "kept.md" ∷ text "more.md" ∷ []))
      ∷ []))

abbrev answer : List String → Completed
unfolding contains
answer arguments = record {
  succeeded = true;
  stdout = if contains "status" arguments then printed else "";
}

abbrev tree : Checkout
tree = record {
  git = λ root arguments input. some (answer arguments);
  is_top_level = λ printed root. true;
  submodule_root = λ root path. path;
  is_symlink = λ root. false;
  has_git = λ root. false;
  is_lower = λ c. false;
}

account_example : ((account state ledger false).status ≡ pass) ↔ IsAccounted state ledger false
account_example = account_iff state ledger false

account_status_total_example :
    account_status tree "root" ledger false (record { succeeded = true; stdout = printed })
    ≡ some (account state ledger false)
account_status_total_example =
    account_status_total tree "root" ledger false (record { succeeded = true; stdout = printed })
      state refl parses

passes : (account state ledger false).status ≡ pass
unfolding account unsafe_findings dirt_findings is_portable contains sorted to_set ledger_paths
passes = refl

inspected : git_status_preflight tree 9 "root" ≡ clear
unfolding answer git_status_preflight split_nul check_submodules check_attributes contains
inspected = refl

runs : validate_pr_sweep_dirty_closeout tree "root" ledger false ≡ some (account state ledger false)
unfolding validate_pr_sweep_dirty_closeout answer contains
runs = rw inspected (
    account_status_total tree "root" ledger false (record { succeeded = true; stdout = printed })
      state refl parses)

validate_pr_sweep_dirty_closeout-IsClosed_example :
    IsClosed tree "root" ledger false (account state ledger false)
validate_pr_sweep_dirty_closeout-IsClosed_example =
    validate_pr_sweep_dirty_closeout-IsClosed tree "root" ledger false (account state ledger false)
      passes runs
