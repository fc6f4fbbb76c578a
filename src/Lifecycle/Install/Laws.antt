-- ===== src/Lifecycle/Install/Laws.antt =====
-- What a plan of a runtime installation promises, and that valid arguments have one.
use skills_sdk.Json.{Hash}
use skills_sdk.Prelude.{
  ap, Bool, true, false, ◌≡◌, refl, sym, ◌∙◌, subst, all, arith, some, none, Option, List, [], ◌∷◌,
  ◌++◌, String, Bool-cases, inl, inr, ◌&&◌, string_eq, option_eq,
}
use skills_sdk.Packaging.{PackageCandidateIdentity, PackageManifest, PackageReceipt}
use skills_sdk.Packaging.Validation.{is_empty}
use skills_sdk.Registry.Models.{RegistryPreparationBlocker, RegistryPreparationReceipt}
use skills_sdk.Lifecycle.{RuntimeLock, RuntimeLockEntry, RuntimeTarget, key_eq, lock_ok}
use skills_sdk.Lifecycle.Laws.{lock_ok-proposed_lock}
use skills_sdk.Lifecycle.Identity.{identity_blocker, identity_blocker_iff, IsBound}
use skills_sdk.Lifecycle.Planning.{
  planned_entry, proposed_lock, proposed_entries, replaced, matching, planned_operation,
}
use skills_sdk.Lifecycle.PublicText.{lifecycle_text_is_public_safe}
use skills_sdk.Lifecycle.Plan.{
  InstallPlan, planned, entry_ok, runtime_lock_ok, plan_ok, lock_digest, validated,
}
use skills_sdk.Lifecycle.Install.{
  arguments_ok, blocked_plan, planned_plan, plan_entry, planned_transition, plan_runtime_install,
}

all-append :
    (p : RuntimeLockEntry → Bool) (xs ys : List RuntimeLockEntry)
    → all p xs ≡ true
    → all p ys ≡ true
    → all p (xs ++ ys) ≡ true
all-append p [] ys l r = r
all-append p (x ∷ xs) ys l r = ground (arith, all-append p xs ys (ground arith) r)

all-replaced :
    (p : RuntimeLockEntry → Bool) (entry : RuntimeLockEntry) (items : List RuntimeLockEntry)
    → p entry ≡ true
    → all p items ≡ true
    → all p (replaced entry items) ≡ true
unfolding replaced
all-replaced p entry [] new old = refl
all-replaced p entry (item ∷ items) new old =
    ground (arith, all-replaced p entry items new (ground arith))

all-proposed_entries :
    (p : RuntimeLockEntry → Bool) (entry : RuntimeLockEntry) (items : List RuntimeLockEntry)
    → p entry ≡ true
    → all p items ≡ true
    → all p (proposed_entries entry items) ≡ true
unfolding proposed_entries
all-proposed_entries p entry items new old =
    let kept = all-replaced p entry items new old in
    let added = all-append p (replaced entry items) (entry ∷ []) kept (rw new refl) in
    elim (Bool-cases (is_empty (matching entry items))) [
      | inl none_left ↦ rw (none_left, added) refl
      | inr found ↦ rw (found, kept) refl
    ]

both : (a b : Bool) → a ≡ true → b ≡ true → (a && b) ≡ true
both a b l r = ground arith

-- The proposed lock is valid if the lock and the entry are.
runtime_lock_ok-proposed_lock :
    (h : Hash) (entry : RuntimeLockEntry) (lock : RuntimeLock)
    → runtime_lock_ok h lock ≡ true
    → entry_ok h entry ≡ true
    → runtime_lock_ok h (proposed_lock entry lock) ≡ true
unfolding runtime_lock_ok proposed_lock
runtime_lock_ok-proposed_lock h entry lock ok new =
    both (all (entry_ok h) (proposed_entries entry lock.entries))
      (lock_ok (proposed_lock entry lock))
      (all-proposed_entries (entry_ok h) entry lock.entries new (ground arith))
      (lock_ok-proposed_lock entry lock (ground arith))

-- The transition that a planned plan stands for.
pub record IsTransition (h : Hash) (pkg : PackageReceipt) (registered : RegistryPreparationReceipt)
    (lock : RuntimeLock) (plan : InstallPlan) : Type 0 where
  pub bound : IsBound pkg registered
  pub entry : RuntimeLockEntry
  pub has_entry : plan.proposed_entry ≡ some entry
  pub operation : plan.operation ≡ some (planned_operation entry lock)
  pub rollback : plan.rollback_lock_sha256 ≡ lock_digest h lock
  pub proposal : plan.proposed_lock_sha256 ≡ some (lock_digest h (proposed_lock entry lock))
  pub valid : runtime_lock_ok h (proposed_lock entry lock) ≡ true

module _ (h : Hash) (pkg : PackageReceipt) (registered : RegistryPreparationReceipt)
    (lock : RuntimeLock) (target : RuntimeTarget) (evidence : List String) where
  validated-some : (p q : InstallPlan) → validated h p ≡ some q → p ≡ q
  unfolding validated
  validated-some p q e = elim (Bool-cases (plan_ok h p)) [
    | inl ok ↦ ground arith
    | inr refused ↦ ground arith
  ]

  planned_plan-IsTransition :
      (c : PackageCandidateIdentity) (digest : String) (entry : RuntimeLockEntry)
      → IsBound pkg registered
      → runtime_lock_ok h lock ≡ true
      → entry_ok h entry ≡ true
      → IsTransition h pkg registered lock
          (planned_plan h pkg registered lock target evidence c digest entry)
  unfolding planned_plan
  planned_plan-IsTransition c digest entry found ok new = record {
    bound = found;
    entry = entry;
    has_entry = refl;
    operation = refl;
    rollback = refl;
    proposal = refl;
    valid = runtime_lock_ok-proposed_lock h entry lock ok new;
  }

  plan_entry-IsTransition :
      (c : PackageCandidateIdentity) (digest : String) (entry : RuntimeLockEntry)
      (plan : InstallPlan)
      → IsBound pkg registered
      → runtime_lock_ok h lock ≡ true
      → plan_entry h pkg registered lock target evidence c digest entry ≡ some plan
      → IsTransition h pkg registered lock plan
  unfolding plan_entry
  plan_entry-IsTransition c digest entry plan found ok e =
      elim (Bool-cases (entry_ok h entry && lock_ok (proposed_lock entry lock))) [
        | inr refused ↦ absurd (ground arith)
        | inl new ↦
            subst (IsTransition h pkg registered lock)
              (validated-some (planned_plan h pkg registered lock target evidence c digest entry)
                plan (ground arith))
              (planned_plan-IsTransition c digest entry found ok (ground arith))
      ]

  planned_transition-IsTransition :
      (plan : InstallPlan)
      → IsBound pkg registered
      → runtime_lock_ok h lock ≡ true
      → planned_transition h pkg registered lock target evidence ≡ some plan
      → IsTransition h pkg registered lock plan
  unfolding planned_transition
  planned_transition-IsTransition plan found ok e =
      go pkg.candidate pkg.manifest pkg.package_digest e
    where
      go :
          (candidate : Option PackageCandidateIdentity) (manifest : Option PackageManifest)
          (found_digest : Option String)
          → elim candidate [
            | none ↦ none
            | some c ↦ elim manifest [
              | none ↦ none
              | some m ↦ elim found_digest [
                | none ↦ none
                | some digest ↦
                    plan_entry h pkg registered lock target evidence c digest
                      (planned_entry pkg registered target c m digest)
              ]
            ]
          ]
            ≡ some plan
          → IsTransition h pkg registered lock plan
      go none m d e = ground arith
      go (some c) none d e = ground arith
      go (some c) (some m) none e = ground arith
      go (some c) (some m) (some d) e =
          plan_entry-IsTransition c d (planned_entry pkg registered target c m d) plan found ok e

  unfoldable pub found_plan : Option (Option RegistryPreparationBlocker) → Option InstallPlan
  found_plan none = none
  found_plan (some none) = planned_transition h pkg registered lock target evidence
  found_plan (some (some b)) = validated h (blocked_plan h pkg registered lock target evidence b)

  pub install_of_arguments :
      arguments_ok h pkg registered lock target evidence ≡ true
      → plan_runtime_install h pkg registered lock target evidence
        ≡ found_plan (identity_blocker lifecycle_text_is_public_safe pkg registered)
  unfolding plan_runtime_install found_plan
  install_of_arguments ok =
      rw ok (go (identity_blocker lifecycle_text_is_public_safe pkg registered))
    where
      go :
          (found : Option (Option RegistryPreparationBlocker))
          → elim found [
            | none ↦ none
            | some k ↦ elim k [
              | some blocker ↦
                  validated h (blocked_plan h pkg registered lock target evidence blocker)
              | none ↦ planned_transition h pkg registered lock target evidence
            ]
          ]
            ≡ found_plan found
      go none = refl
      go (some none) = refl
      go (some (some b)) = refl

  refused_arguments :
      (plan : InstallPlan)
      → arguments_ok h pkg registered lock target evidence ≡ false
      → plan_runtime_install h pkg registered lock target evidence ≡ some plan
      → ⊥
  unfolding plan_runtime_install
  refused_arguments plan refused e = ground arith

  lock_of_arguments :
      arguments_ok h pkg registered lock target evidence ≡ true → runtime_lock_ok h lock ≡ true
  unfolding arguments_ok
  lock_of_arguments ok = ground arith

  not_planned :
      (plan : InstallPlan) (b : RegistryPreparationBlocker)
      → plan.status ≡ planned
      → blocked_plan h pkg registered lock target evidence b ≡ plan
      → ⊥
  unfolding blocked_plan
  not_planned plan b status same = cc (ap (λ p. p.status) same, status)

  -- A planned result is a transition: its receipts are of one package, built and prepared, it can
  -- be rolled back to the current lock, and the lock that it proposes is valid.
  pub plan_runtime_install-IsTransition :
      (plan : InstallPlan)
      → plan_runtime_install h pkg registered lock target evidence ≡ some plan
      → plan.status ≡ planned
      → IsTransition h pkg registered lock plan
  unfolding found_plan
  plan_runtime_install-IsTransition plan e status =
      elim (Bool-cases (arguments_ok h pkg registered lock target evidence)) [
        | inr refused ↦ absurd (refused_arguments plan refused e)
        | inl ok ↦
            go (identity_blocker lifecycle_text_is_public_safe pkg registered) refl
              (lock_of_arguments ok) (sym (install_of_arguments ok) ∙ e)
      ]
    where
      go :
          (found : Option (Option RegistryPreparationBlocker))
          → identity_blocker lifecycle_text_is_public_safe pkg registered ≡ found
          → runtime_lock_ok h lock ≡ true
          → found_plan found ≡ some plan
          → IsTransition h pkg registered lock plan
      go none k ok f = ground arith
      go (some (some b)) k ok f = absurd (
          not_planned plan b status
            (validated-some (blocked_plan h pkg registered lock target evidence b) plan f))
      go (some none) k ok f =
          planned_transition-IsTransition plan
            ((identity_blocker_iff lifecycle_text_is_public_safe pkg registered).0 k) ok f
