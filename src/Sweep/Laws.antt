-- ===== src/Sweep/Laws.antt =====
-- When a dirty closeout passes, and that its results satisfy their model.
use skills_sdk.Prelude.{
  All-map, Bool, true, not, ◌&&◌, ◌≡◌, ◌↔◌, refl, subst, List, [], ◌∷◌, ◌++◌, String, contains,
  contains_iff, In, All, All_of_In, All-In, In-filter, In-sorted, In-to_set, to_set, if◌then◌else◌,
  arith, Bool-cases, inl, inr, string_eq,
}
use skills_sdk.Paths.{is_portable}
use skills_sdk.Packaging.Validation.{is_empty}
use skills_sdk.Sweep.{PrSweepFinding, PrSweepDirtyState, pass, sorted_set, without}
use skills_sdk.Sweep.Closeout.{
  finding, Ledger, no_ledger, unreadable, contents, named_paths, safe_paths, unsafe_findings,
  ledger_findings, dirt_findings, account, is_missing,
}

pub In-sorted_set : (z : String) (xs : List String) → In z (sorted_set xs) ↔ In z xs
In-sorted_set z xs = (
  λ m. (In-to_set z xs).0 ((In-sorted z (to_set xs)).0 m),
  λ m. (In-sorted z (to_set xs)).1 ((In-to_set z xs).1 m),
)

nil-of_absent : (xs : List String) → ((x : String) → ¬ In x xs) → xs ≡ []
nil-of_absent [] h = refl
nil-of_absent (x ∷ xs) h = absurd (h x (inl refl))

pub sorted_set-nil_iff : (xs : List String) → (sorted_set xs ≡ []) ↔ (xs ≡ [])
sorted_set-nil_iff xs = (
  λ e. nil-of_absent xs (λ x m. subst (In x) e ((In-sorted_set x xs).1 m)),
  λ e. nil-of_absent (sorted_set xs) (λ x m. subst (In x) e ((In-sorted_set x xs).0 m)),
)

unsafe_findings-nil_iff :
    (paths : List String) → (unsafe_findings paths ≡ []) ↔ All (λ p. is_portable p ≡ true) paths
unfolding unsafe_findings
unsafe_findings-nil_iff [] = (λ e. tt, λ h. refl)
unsafe_findings-nil_iff (p ∷ ps) = elim (Bool-cases (is_portable p)) [
  | inl safe ↦
      rw safe
        (λ e. (refl, (unsafe_findings-nil_iff ps).0 e), λ h. (unsafe_findings-nil_iff ps).1 h.1)
  | inr unsafe ↦ rw unsafe (λ e. absurd (ground arith), λ h. absurd (ground arith))
]

-- What the dirty paths and the ledger have to be.
pub record IsAccounted (state : PrSweepDirtyState) (ledger : Ledger) (require_clean : Bool)
    : Type 0 where
  pub readable : ¬ (ledger ≡ unreadable)
  pub safe : All (λ p. is_portable p ≡ true) (named_paths ledger)
  pub clean : require_clean ≡ true → state.dirty_paths ≡ []
  pub covered : All (λ p. In p (named_paths ledger)) state.dirty_paths

ledger_findings-nil_iff :
    (ledger : Ledger)
    → (ledger_findings ledger ≡ [])
      ↔ ((¬ (ledger ≡ unreadable)) × All (λ p. is_portable p ≡ true) (named_paths ledger))
ledger_findings-nil_iff no_ledger = (λ e. (λ k. cc k, tt), λ d. refl)
ledger_findings-nil_iff unreadable = (λ e. absurd (ground arith), λ d. absurd (d.0 refl))
ledger_findings-nil_iff (contents value) =
    let (forth, back) = unsafe_findings-nil_iff (named_paths (contents value)) in
    (λ e. (λ k. cc k, forth e), λ d. back d.1)

-- Nothing is left over exactly when the ledger keeps every dirty path.
pub without-nil_iff : (xs ys : List String) → (without xs ys ≡ []) ↔ All (λ x. In x ys) xs
without-nil_iff xs ys = (
  λ e. All_of_In _ xs λ x m. elim (Bool-cases (contains x ys)) [
    | inl kept ↦ (contains_iff x ys).0 kept
    | inr left ↦
        absurd (subst (In x) e ((In-filter (λ x. not (contains x ys)) x xs).1 (m, rw left refl)))
  ],
  λ h. nil-of_absent (without xs ys) λ x m.
      let (inside, left) = (In-filter (λ x. not (contains x ys)) x xs).0 m in
      let kept = (contains_iff x ys).1 (All-In _ x xs h inside) in ground arith,
)

append-nil_iff :
    (xs ys : List PrSweepFinding) → (is_empty (xs ++ ys) ≡ true) ↔ ((xs ≡ []) × (ys ≡ []))
append-nil_iff [] [] = (λ e. (refl, refl), λ d. refl)
append-nil_iff [] (y ∷ ys) = (λ e. absurd (ground arith), λ d. absurd (ground arith))
append-nil_iff (x ∷ xs) ys = (λ e. absurd (ground arith), λ d. absurd (ground arith))

module _ (state : PrSweepDirtyState) (ledger : Ledger) (require_clean : Bool) where
  pub dirt_findings-nil_iff :
      (unledgered : List String)
      → (dirt_findings state ledger require_clean unledgered ≡ []) ↔ (
          (require_clean ≡ true → state.dirty_paths ≡ [])
          × (is_missing ledger ≡ true → state.dirty_paths ≡ [])
          × (unledgered ≡ []))
  unfolding dirt_findings
  dirt_findings-nil_iff unledgered =
      go require_clean (is_missing ledger) state.dirty_paths unledgered
    where
      go :
          (strict missing : Bool) (dirty left : List String)
          → ((if strict && not (is_empty dirty)
                then finding "primary_worktree_dirty"
                    "primary checkout is dirty; branch movement requires a clean checkout"
                  ∷ []
                else if not (is_empty dirty) && missing
                then finding "dirty_worktree_ledger_required"
                    "dirty checkout requires a ledger for accounting"
                  ∷ []
                else if not (is_empty left)
                then finding "dirty_worktree_unledgered_paths"
                    "dirty paths are missing from the ledger"
                  ∷ []
                else [])
              ≡ [])
            ↔ ((strict ≡ true → dirty ≡ []) × (missing ≡ true → dirty ≡ []) × (left ≡ []))
      go strict missing dirty left = ground arith

  pub account_status_iff : ((account state ledger require_clean).status ≡ pass) ↔ (
      (ledger_findings ledger ≡ [])
      × (dirt_findings state ledger require_clean
            (sorted_set (without state.dirty_paths (safe_paths ledger)))
          ≡ []))
  unfolding account
  account_status_iff =
      let (forth, back) = append-nil_iff (ledger_findings ledger) (
        dirt_findings state ledger require_clean
          (sorted_set (without state.dirty_paths (safe_paths ledger)))) in
      (λ e. forth (ground arith), λ d. rw (back d) refl)

  nothing_dirty :
      is_missing ledger ≡ true
      → All (λ p. In p (named_paths ledger)) state.dirty_paths
      → state.dirty_paths ≡ []
  nothing_dirty missing h = go ledger missing state.dirty_paths h
    where
      go :
          (l : Ledger)
          → is_missing l ≡ true
          → (dirty : List String) → All (λ p. In p (named_paths l)) dirty
          → dirty ≡ []
      go no_ledger m [] h = refl
      go no_ledger m (p ∷ ps) h = absurd h.0
      go unreadable m dirty h = absurd (ground arith)
      go (contents v) m dirty h = absurd (ground arith)

  -- A closeout passes exactly when the ledger, if one is given, can be read and names portable paths
  -- only, every dirty path is among them, and nothing is dirty where a clean checkout is required.
  pub account_iff :
      ((account state ledger require_clean).status ≡ pass) ↔ IsAccounted state ledger require_clean
  account_iff = (forward, backward)
    where
      forward :
          (account state ledger require_clean).status ≡ pass
          → IsAccounted state ledger require_clean
      forward e =
          let (none_unsafe, none_left) = account_status_iff.0 e in
          let (readable, safe) = (ledger_findings-nil_iff ledger).0 none_unsafe in
          let (clean, given, left) = (dirt_findings-nil_iff _).0 none_left in
          let kept =
            (without-nil_iff state.dirty_paths (safe_paths ledger)).0
              ((sorted_set-nil_iff _).0 left) in
          record {
            readable = readable;
            safe = safe;
            clean = clean;
            covered =
                All-map _ _ state.dirty_paths
                  (λ p m. ((In-filter is_portable p (named_paths ledger)).0 m).0) kept;
          }

      backward :
          IsAccounted state ledger require_clean
          → (account state ledger require_clean).status ≡ pass
      backward d =
          let kept =
            All-map (λ p. In p (named_paths ledger)) (λ p. In p (safe_paths ledger))
              state.dirty_paths
              (λ p m.
                (In-filter is_portable p (named_paths ledger)).1
                  (m, All-In _ p (named_paths ledger) d.safe m))
              d.covered in
          let left = (without-nil_iff state.dirty_paths (safe_paths ledger)).1 kept in
          account_status_iff.1 (
            (ledger_findings-nil_iff ledger).1 (d.readable, d.safe),
            (dirt_findings-nil_iff _).1 (
              d.clean,
              λ missing. nothing_dirty missing d.covered,
              (sorted_set-nil_iff _).1 left,
            ),
          )
