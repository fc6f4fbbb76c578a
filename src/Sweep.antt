-- ===== src/Sweep.antt =====
-- The accounting for a dirty checkout: src/skills_sdk/validation/pr_sweep.py, with the results of
-- src/skills_sdk/models/pr_sweep.py. Sets of paths are lists, read through `sorted`.
pub mod Porcelain
pub mod Git
pub mod Closeout
pub mod Recurring
pub mod Laws
pub mod Results
mod Tests
use skills_sdk.Prelude.{
  if◌then◌else◌, Bool, true, false, not, ◌&&◌, Option, none, some, List, [], ◌∷◌, ◌++◌, String, all,
  filter, contains, sorted, to_set, string_eq,
}
use skills_sdk.Json.{
  Json, Items, Members, arr, obj, text, nil, cons, end, member, null, boolean, number, double,
}
use skills_sdk.Paths.{is_portable}
use skills_sdk.Packaging.Validation.{is_empty, is_none, is_subset}

pub record PrSweepFinding : Type 0 where
  pub code : String
  pub message : String

pub record PrSweepDirtyState : Type 0 where
  pub staged_paths : List String
  pub unstaged_paths : List String
  pub untracked_paths : List String
  pub dirty_paths : List String

pub data SweepStatus : Type 0 where
  pass fail blocked : SweepStatus

-- A result of the kind `dirty_closeout`.
pub record PrSweepValidationResult : Type 0 where
  pub status : SweepStatus
  pub findings : List PrSweepFinding
  pub dirty_state : Option PrSweepDirtyState
  pub ledgered_paths : List String
  pub unledgered_paths : List String

-- Python's `sorted(set(xs))`.
abbrev pub sorted_set : List String → List String
sorted_set xs = sorted (to_set xs)

-- The paths of `xs` that are not in `ys`.
abbrev pub without : List String → List String → List String
without xs ys = filter (λ x. not (contains x ys)) xs

unfoldable pub same_paths : List String → List String → Bool
same_paths xs ys = is_subset xs ys && is_subset ys xs

-- `PrSweepDirtyState`
unfoldable pub dirty_state_ok : PrSweepDirtyState → Bool
dirty_state_ok s =
    all is_portable (s.staged_paths ++ s.unstaged_paths ++ s.untracked_paths ++ s.dirty_paths)
    && same_paths s.dirty_paths (s.staged_paths ++ s.unstaged_paths ++ s.untracked_paths)

abbrev pub is_pass : SweepStatus → Bool
is_pass pass = true
is_pass _ = false

abbrev pub is_blocked : SweepStatus → Bool
is_blocked blocked = true
is_blocked _ = false

abbrev pub state_bound : PrSweepValidationResult → PrSweepDirtyState → Bool
state_bound r s =
    same_paths r.unledgered_paths (without s.dirty_paths r.ledgered_paths)
    && not (is_pass r.status && not (is_empty (without s.dirty_paths r.ledgered_paths)))

-- `findings_match_status`, of a dirty closeout.
unfoldable pub sweep_result_ok : PrSweepValidationResult → Bool
sweep_result_ok r =
    (if is_pass r.status then is_empty r.findings else not (is_empty r.findings))
    && all is_portable (r.ledgered_paths ++ r.unledgered_paths)
    && elim r.dirty_state [ none ↦ is_blocked r.status | some s ↦ state_bound r s ]

abbrev path_keys : List String
path_keys =
    "path" ∷ "file" ∷ "files" ∷ "paths" ∷ "changed_files" ∷ "dirty_paths" ∷ "ledgered_paths" ∷ []

abbrev given : String → List String
given String.[] = []
given (String.◌∷◌ c s) = String.◌∷◌ c s ∷ []

-- `_ledger_paths` and `_recognized_paths` on values, lists and objects.
mutual
  pub ledger_paths : Json → List String
  ledger_paths null = []
  ledger_paths (boolean b) = []
  ledger_paths (number n) = []
  ledger_paths (double d) = []
  ledger_paths (text t) = []
  ledger_paths (arr vs) = ledger_items vs
  ledger_paths (obj ms) = ledger_members ms

  ledger_items : Items → List String
  ledger_items nil = []
  ledger_items (cons v vs) = ledger_paths v ++ ledger_items vs

  ledger_members : Members → List String
  ledger_members end = []
  ledger_members (member key value rest) =
      let named = recognized_paths value in
      let nested = ledger_paths value in
      let others = ledger_members rest in
      if contains key path_keys then named ++ others else nested ++ others

  recognized_paths : Json → List String
  recognized_paths null = []
  recognized_paths (boolean b) = []
  recognized_paths (number n) = []
  recognized_paths (double d) = []
  recognized_paths (text t) = given t
  recognized_paths (arr vs) = recognized_items vs
  recognized_paths (obj ms) = ledger_members ms

  recognized_items : Items → List String
  recognized_items nil = []
  recognized_items (cons v vs) = recognized_paths v ++ recognized_items vs
