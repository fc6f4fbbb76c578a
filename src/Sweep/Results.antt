-- ===== src/Sweep/Results.antt =====
-- The results of a dirty closeout satisfy their model, and what the whole closeout passes.
use mathlib.Core.Option.{some-injective}
use skills_sdk.Prelude.{
  ◌||◌, Bool, true, false, not, ◌≡◌, refl, sym, ap, ◌∙◌, subst, Option, none, some, List, [], ◌∷◌,
  ◌++◌, String, filter_same, all, all_iff, contains, contains_iff, In, In-append, All_of_In, All-In,
  In-filter, if◌then◌else◌, arith, Bool-cases, Option-cases, inl, inr, string_eq, In-append_right,
}
use skills_sdk.Paths.{is_portable}
use skills_sdk.Packaging.Validation.{is_empty, is_subset_iff}
use skills_sdk.Sweep.{
  PrSweepDirtyState, PrSweepValidationResult, SweepStatus, pass, fail, is_pass, is_blocked,
  sorted_set, without, same_paths, dirty_state_ok, sweep_result_ok, state_bound,
}
use skills_sdk.Sweep.Porcelain.{Dirt, parse_porcelain, parse_records, split_nul, state_of}
use skills_sdk.Sweep.Git.{
  Checkout, Completed, Inspection, exception, clear, blocker, git_status_preflight,
}
use skills_sdk.Sweep.Closeout.{
  read_status, status_arguments, Ledger, failure, named_paths, safe_paths, account, account_status,
  validate_pr_sweep_dirty_closeout,
}
use skills_sdk.Sweep.Laws.{
  IsAccounted, account_iff, In-sorted_set, sorted_set-nil_iff, account_status_iff,
  dirt_findings-nil_iff,
}

same_tests : (a b : Bool) → (a ≡ true → b ≡ true) → (b ≡ true → a ≡ true) → a ≡ b
same_tests a b f g = ground arith

contains-sorted_set : (x : String) (ys : List String) → contains x (sorted_set ys) ≡ contains x ys
contains-sorted_set x ys =
    same_tests (contains x (sorted_set ys)) (contains x ys)
      (λ h. (contains_iff x ys).1 ((In-sorted_set x ys).0 ((contains_iff x (sorted_set ys)).0 h)))
      (λ h. (contains_iff x (sorted_set ys)).1 ((In-sorted_set x ys).1 ((contains_iff x ys).0 h)))

without-sorted_set : (xs ys : List String) → without xs (sorted_set ys) ≡ without xs ys
without-sorted_set xs ys =
    filter_same _ _ xs (All_of_In _ xs λ x m. ap not (contains-sorted_set x ys))

same_paths-sorted_set : (xs : List String) → same_paths (sorted_set xs) xs ≡ true
unfolding same_paths
same_paths-sorted_set xs =
    let down =
      (is_subset_iff (sorted_set xs) xs).1 (All_of_In _ _ λ x m. (In-sorted_set x xs).0 m) in
    let up = (is_subset_iff xs (sorted_set xs)).1 (All_of_In _ _ λ x m. (In-sorted_set x xs).1 m) in
    rw (down, up) refl

module _ (state : PrSweepDirtyState) (ledger : Ledger) (require_clean : Bool) where
  dirty_is_portable :
      dirty_state_ok state ≡ true → (x : String) → In x state.dirty_paths → is_portable x ≡ true
  unfolding dirty_state_ok
  dirty_is_portable ok x m =
      All-In _ x
        (state.staged_paths ++ state.unstaged_paths ++ state.untracked_paths ++ state.dirty_paths)
        ((all_iff is_portable _).0 (ground arith))
        (In-append_right x (state.staged_paths ++ state.unstaged_paths ++ state.untracked_paths) _
          m)

  portable_results :
      dirty_state_ok state ≡ true
      → all is_portable (
          (account state ledger require_clean).ledgered_paths
          ++ (account state ledger require_clean).unledgered_paths)
        ≡ true
  unfolding account
  portable_results ok = (all_iff is_portable _).1 (
      All_of_In _ _ λ x m. elim (In-append x (sorted_set (safe_paths ledger)) _ m) [
        | inl kept ↦
            ((In-filter is_portable x (named_paths ledger)).0
              ((In-sorted_set x (safe_paths ledger)).0 kept)).1
        | inr left ↦
            dirty_is_portable ok x
              ((In-filter _ x state.dirty_paths).0 ((In-sorted_set x _).0 left)).0
      ])

  bound_result : state_bound (account state ledger require_clean) state ≡ true
  unfolding account
  bound_result =
      let left = without state.dirty_paths (safe_paths ledger) in
      let same = without-sorted_set state.dirty_paths (safe_paths ledger) in
      rw (same, same_paths-sorted_set left)
        (elim (Bool-cases (is_pass (account state ledger require_clean).status)) [
          | inr failed ↦ rw failed refl
          | inl passed ↦
              let none_left =
                (dirt_findings-nil_iff state ledger require_clean _).0
                  ((account_status_iff state ledger require_clean).0 (ground arith)).1 in
              let nothing = (sorted_set-nil_iff left).0 none_left.2 in rw (passed, nothing) refl
        ])

  findings_match :
      (if is_pass (account state ledger require_clean).status
        then is_empty (account state ledger require_clean).findings
        else not (is_empty (account state ledger require_clean).findings))
      ≡ true
  unfolding account
  findings_match = ground arith

  bound_state :
      elim (account state ledger require_clean).dirty_state [
        | none ↦ is_blocked (account state ledger require_clean).status
        | some s ↦ state_bound (account state ledger require_clean) s
      ]
      ≡ true
  unfolding account
  bound_state = bound_result

  -- The accounting of a valid state is a valid result, so it raises nothing.
  account_ok :
      dirty_state_ok state ≡ true → sweep_result_ok (account state ledger require_clean) ≡ true
  unfolding sweep_result_ok
  account_ok ok = rw (findings_match, portable_results ok) bound_state

-- The states that the parser returns are valid.
parse_porcelain-ok :
    (output : String) (state : PrSweepDirtyState)
    → parse_porcelain output ≡ some state
    → dirty_state_ok state ≡ true
unfolding parse_porcelain
parse_porcelain-ok output state e = go (parse_records (split_nul output)) e
  where
    go :
        (found : Option Dirt)
        → elim found [
          | none ↦ none
          | some d ↦ if dirty_state_ok (state_of d) then some (state_of d) else none
        ]
          ≡ some state
        → dirty_state_ok state ≡ true
    go none e = absurd (ground arith)
    go (some d) e = elim (Bool-cases (dirty_state_ok (state_of d))) [
      | inl ok ↦ subst (λ s. dirty_state_ok s ≡ true) (ground arith) ok
      | inr refused ↦ absurd (ground arith)
    ]

module _ (tree : Checkout) (root : String) (ledger : Ledger) (require_clean : Bool) where
  -- A readable answer of `git status` is accounted for, whatever it and the ledger hold.
  pub account_status_total :
      (done : Completed) (state : PrSweepDirtyState)
      → done.succeeded ≡ true
      → parse_porcelain done.stdout ≡ some state
      → account_status tree root ledger require_clean done
        ≡ some (account state ledger require_clean)
  unfolding account_status
  account_status_total done state ran parsed =
      rw
        (
          ran,
          parsed,
          account_ok state ledger require_clean (parse_porcelain-ok done.stdout state parsed),
        )
        refl

-- What a passing closeout rests on: git names the root as its top level, the inspection is clear,
-- and git's status, parsed, is accounted for by the result.
pub record IsClosed (tree : Checkout) (root : String) (ledger : Ledger) (require_clean : Bool)
    (r : PrSweepValidationResult) : Type 0 where
  pub top : Completed
  pub located : tree.git root ("rev-parse" ∷ "--show-toplevel" ∷ []) "" ≡ some top
  pub top_succeeded : top.succeeded ≡ true
  pub is_top : tree.is_top_level top.stdout root ≡ true
  pub inspected : git_status_preflight tree 9 root ≡ clear
  pub done : Completed
  pub answered :
      tree.git root
        ("status" ∷ "--porcelain=v1" ∷ "-z" ∷ "--untracked-files=all" ∷ "--ignore-submodules=none"
          ∷ [])
        ""
      ≡ some done
  pub done_succeeded : done.succeeded ≡ true
  pub state : PrSweepDirtyState
  pub parsed : parse_porcelain done.stdout ≡ some state
  pub accounted : IsAccounted state ledger require_clean
  pub result : r ≡ account state ledger require_clean

abbrev status_or : SweepStatus → Option PrSweepValidationResult → SweepStatus
status_or other none = other
status_or other (some k) = k.status

module _ (tree : Checkout) (root : String) (ledger : Ledger) (require_clean : Bool)
    (r : PrSweepValidationResult) (passes : r.status ≡ pass) where
  not_failure : (code message : String) → some (failure code message) ≡ some r → ⊥
  not_failure code message e = cc (ap (status_or pass) e, passes)

  state_of_account :
      (done : Completed)
      → account_status tree root ledger require_clean done ≡ some r
      → (state : PrSweepDirtyState) × (done.succeeded ≡ true)
        × (parse_porcelain done.stdout ≡ some state)
        × IsAccounted state ledger require_clean
        × (r ≡ account state ledger require_clean)
  unfolding account_status
  state_of_account done e = elim (Bool-cases done.succeeded) [
    | inr failed ↦ absurd (
        not_failure "git_status_unavailable" "Git status failed in the supplied repository root"
          (sym (rw failed refl) ∙ e))
    | inl ran ↦ elim (Option-cases (parse_porcelain done.stdout)) [
      | inl refused ↦ absurd (ground arith)
      | inr (state, parsed) ↦
          let same =
            sym (account_status_total tree root ledger require_clean done state ran parsed) ∙ e in
          let passed : (account state ledger require_clean).status ≡ pass =
            ap (status_or fail) same ∙ passes in
          (
            state,
            ran,
            parsed,
            (account_iff state ledger require_clean).0 passed,
            sym (some-injective _ _ same),
          )
    ]
  ]

  -- A closeout passes only for a root that `git rev-parse` names as the top level, that the
  -- inspection clears, whose status git reports, and whose dirty paths the ledger accounts for; the
  -- result is the accounting of that status.
  pub validate_pr_sweep_dirty_closeout-IsClosed :
      validate_pr_sweep_dirty_closeout tree root ledger require_clean ≡ some r
      → IsClosed tree root ledger require_clean r
  unfolding validate_pr_sweep_dirty_closeout
  validate_pr_sweep_dirty_closeout-IsClosed e =
      elim (Option-cases (tree.git root ("rev-parse" ∷ "--show-toplevel" ∷ []) "")) [
        | inl silent ↦ absurd (
            not_failure "git_status_unavailable" "could not inspect Git dirty state"
              (sym (rw (validate_pr_sweep_dirty_closeout, silent) refl) ∙ e))
        | inr (top, said) ↦
            elim (Bool-cases (not top.succeeded || not (tree.is_top_level top.stdout root))) [
              | inl other ↦ absurd (
                  not_failure "invalid_repo_root" "supplied root is not a worktree top level"
                    (sym (rw (validate_pr_sweep_dirty_closeout, said, other) refl) ∙ e))
              | inr here ↦
                  inspection top said here (git_status_preflight tree 9 root) refl
                    (sym (rw (validate_pr_sweep_dirty_closeout, said, here) refl) ∙ e)
            ]
      ]
    where
      reported :
          (top : Completed)
          → tree.git root ("rev-parse" ∷ "--show-toplevel" ∷ []) "" ≡ some top
          → (not top.succeeded || not (tree.is_top_level top.stdout root)) ≡ false
          → git_status_preflight tree 9 root ≡ clear
          → (answer : Option Completed) → tree.git root status_arguments "" ≡ answer
          → elim answer [
            | none ↦ some (failure "git_status_unavailable" "could not inspect Git dirty state")
            | some done ↦ account_status tree root ledger require_clean done
          ]
            ≡ some r
          → IsClosed tree root ledger require_clean r
      reported top at here clean none said e =
          absurd (not_failure "git_status_unavailable" "could not inspect Git dirty state" e)
      reported top at here clean (some done) said e =
          let (state, ran, parsed, accounted, result) = state_of_account done e in
          record {
            top = top;
            located = at;
            top_succeeded = ground arith;
            is_top = ground arith;
            inspected = clean;
            done = done;
            answered = said;
            done_succeeded = ran;
            state = state;
            parsed = parsed;
            accounted = accounted;
            result = result;
          }

      inspection :
          (top : Completed)
          → tree.git root ("rev-parse" ∷ "--show-toplevel" ∷ []) "" ≡ some top
          → (not top.succeeded || not (tree.is_top_level top.stdout root)) ≡ false
          → (found : Inspection) → git_status_preflight tree 9 root ≡ found
          → elim found [
            | exception ↦
                some (failure "git_status_unavailable" "could not inspect Git dirty state")
            | blocker code message ↦ some (failure code message)
            | clear ↦ read_status tree root ledger require_clean
          ]
            ≡ some r
          → IsClosed tree root ledger require_clean r
      inspection top at here exception p e =
          absurd (not_failure "git_status_unavailable" "could not inspect Git dirty state" e)
      inspection top at here (blocker code message) p e = absurd (not_failure code message e)
      inspection top at here clear p e =
          reported top at here p (tree.git root status_arguments "") refl e
