-- ===== src/Lifecycle/Install/Totality.antt =====
-- Valid arguments have a plan: `plan_runtime_install` raises nothing on them.
use skills_sdk.Json.{Hash}
use skills_sdk.Prelude.{
  ap, true, ◌≡◌, ◌↔◌, refl, ◌∙◌, arith, some, none, Option, List, String, Option-cases, inl, inr,
  string_eq, option_eq,
}
use skills_sdk.Packaging.{PackageCandidateIdentity, PackageManifest, PackageReceipt}
use skills_sdk.Packaging.Validation.{receipt_ok}
use skills_sdk.Registry.Models.{RegistryPreparationBlocker, RegistryPreparationReceipt, prepared}
use skills_sdk.Registry.Validation.{identity_ok, preparation_ok, prepared_ok}
use skills_sdk.Lifecycle.{RuntimeLock, RuntimeLockEntry, RuntimeTarget, key_eq, lock_ok}
use skills_sdk.Lifecycle.Laws.{lock_ok-proposed_lock}
use skills_sdk.Lifecycle.Identity.{identity_blocker, identity_blocker_iff, IsBound}
use skills_sdk.Lifecycle.Planning.{planned_entry, proposed_lock}
use skills_sdk.Lifecycle.PublicText.{lifecycle_text_is_public_safe}
use skills_sdk.Lifecycle.Plan.{
  InstallPlan, planned, target_ok, entry_ok, runtime_lock_ok, plan_ok, lock_digest, evidence_ok,
  validated,
}
use skills_sdk.Lifecycle.Install.{
  arguments_ok, blocked_plan, planned_plan, plan_entry, planned_transition, plan_runtime_install,
}
use skills_sdk.Lifecycle.Install.Blocked.{
  identity_blocker_public, identity_blocker-some, blocked_plan_ok,
}
use skills_sdk.Lifecycle.Install.Planned.{
  HasPublicTexts, changes_digest_lem, planned_entry_ok, planned_plan_state, planned_plan_ok,
}
use skills_sdk.Lifecycle.Install.Laws.{found_plan, install_of_arguments}

-- A prepared receipt has a candidate of its name, and a digest.
prepared_facts :
    (registered : RegistryPreparationReceipt)
    → preparation_ok registered ≡ true
    → registered.status ≡ prepared
    → (c : PackageCandidateIdentity) × (digest : String) × (registered.candidate ≡ some c)
      × (registered.package_digest ≡ some digest)
      × (registered.package_name ≡ c.package_id)
unfolding preparation_ok prepared_ok
prepared_facts registered ok ready = elim (Option-cases registered.candidate) [
  | inl none_left ↦ absurd (ground arith)
  | inr (c, named) ↦ elim (Option-cases registered.package_digest) [
    | inl none_left ↦ absurd (ground arith)
    | inr (digest, has) ↦ (
      c,
      digest,
      named,
      has,
      (string_eq.eqb_iff registered.package_name c.package_id).0 (ground arith),
    )
  ]
]

private_registry :
    (registered : RegistryPreparationReceipt)
    → preparation_ok registered ≡ true
    → identity_ok registered.registry ≡ true
unfolding preparation_ok
private_registry registered ok = ground arith

module _ (h : Hash) (pkg : PackageReceipt) (registered : RegistryPreparationReceipt)
    (lock : RuntimeLock) (target : RuntimeTarget) (evidence : List String) where
  parts :
      arguments_ok h pkg registered lock target evidence ≡ true
      → (preparation_ok registered ≡ true)
        × (receipt_ok h pkg ≡ true)
        × (runtime_lock_ok h lock ≡ true)
        × (target_ok target ≡ true)
  unfolding arguments_ok
  parts ok = (ground arith, ground arith, ground arith, ground arith)

  distinct : runtime_lock_ok h lock ≡ true → lock_ok lock ≡ true
  unfolding runtime_lock_ok
  distinct locked = ground arith

  accepted : (p : InstallPlan) → plan_ok h p ≡ true → validated h p ≡ some p
  unfolding validated
  accepted p good = rw good refl

  blocked_exact :
      (b : RegistryPreparationBlocker)
      → identity_blocker lifecycle_text_is_public_safe pkg registered ≡ some (some b)
      → ((blocked_plan h pkg registered lock target evidence b).status ≡ planned)
        ↔ IsBound pkg registered
  unfolding blocked_plan
  blocked_exact b e = (
    λ p. absurd (cc p),
    λ d. absurd (cc (e, (identity_blocker_iff lifecycle_text_is_public_safe pkg registered).1 d)),
  )

  transition_of :
      (c : PackageCandidateIdentity) (m : PackageManifest) (digest : String)
      → pkg.candidate ≡ some c
      → pkg.manifest ≡ some m
      → pkg.package_digest ≡ some digest
      → planned_transition h pkg registered lock target evidence
        ≡ plan_entry h pkg registered lock target evidence c digest
            (planned_entry pkg registered target c m digest)
  unfolding planned_transition
  transition_of c m digest named has digested =
      go pkg.candidate pkg.manifest pkg.package_digest named has digested
    where
      go :
          (candidate : Option PackageCandidateIdentity) (manifest : Option PackageManifest)
          (found_digest : Option String)
          → candidate ≡ some c
          → manifest ≡ some m
          → found_digest ≡ some digest
          → elim candidate [
            | none ↦ none
            | some c ↦ elim manifest [
              | none ↦ none
              | some m ↦ elim found_digest [
                | none ↦ none
                | some digest ↦
                    plan_entry h pkg registered lock target evidence c digest
                      (planned_entry pkg registered target c m digest)
              ]
            ]
          ]
            ≡ plan_entry h pkg registered lock target evidence c digest
                (planned_entry pkg registered target c m digest)
      go none k d p q r = absurd (cc p)
      go (some c') none d p q r = absurd (cc q)
      go (some c') (some m') none p q r = absurd (cc r)
      go (some c') (some m') (some d') p q r = cc (p, q, r)

  entry_kept :
      (c : PackageCandidateIdentity) (digest : String) (entry : RuntimeLockEntry)
      → entry_ok h entry ≡ true
      → lock_ok (proposed_lock entry lock) ≡ true
      → plan_ok h (planned_plan h pkg registered lock target evidence c digest entry) ≡ true
      → plan_entry h pkg registered lock target evidence c digest entry
        ≡ some (planned_plan h pkg registered lock target evidence c digest entry)
  unfolding plan_entry
  entry_kept c digest entry new proposed good =
      rw (new, proposed)
        (accepted (planned_plan h pkg registered lock target evidence c digest entry) good)

  entry_accepted :
      (c : PackageCandidateIdentity) (m : PackageManifest) (digest : String)
      → pkg.candidate ≡ some c
      → pkg.manifest ≡ some m
      → pkg.package_digest ≡ some digest
      → entry_ok h (planned_entry pkg registered target c m digest) ≡ true
      → lock_ok (proposed_lock (planned_entry pkg registered target c m digest) lock) ≡ true
      → plan_ok h (
          planned_plan h pkg registered lock target evidence c digest
            (planned_entry pkg registered target c m digest))
        ≡ true
      → planned_transition h pkg registered lock target evidence
        ≡ some (
            planned_plan h pkg registered lock target evidence c digest
              (planned_entry pkg registered target c m digest))
  entry_accepted c m digest named has digested new proposed good =
      transition_of c m digest named has digested
      ∙ entry_kept c digest (planned_entry pkg registered target c m digest) new proposed good

  is_planned :
      (c : PackageCandidateIdentity) (digest : String) (entry : RuntimeLockEntry)
      → (planned_plan h pkg registered lock target evidence c digest entry).status ≡ planned
  unfolding planned_plan
  is_planned c digest entry = refl

  -- Arguments that their models accept, whose texts are public, have a plan that the model of
  -- plans accepts. It is planned exactly when the two receipts are of one package. The hypothesis
  -- on digests is that the proposed lock has no digest of another lock.
  pub plan_runtime_install_total :
      arguments_ok h pkg registered lock target evidence ≡ true
      → HasPublicTexts pkg registered
      → evidence_ok evidence ≡ true
      → ((entry : RuntimeLockEntry)
          → lock_digest h (proposed_lock entry lock) ≡ lock_digest h lock
          → proposed_lock entry lock ≡ lock)
      → (plan : InstallPlan) × (plan_runtime_install h pkg registered lock target evidence
          ≡ some plan)
        × (plan_ok h plan ≡ true)
        × ((plan.status ≡ planned) ↔ IsBound pkg registered)
  unfolding found_plan
  plan_runtime_install_total ok public listed injective =
      let (valid, receipt, locked, aimed) = parts ok in
      let (found, e) = identity_blocker-some pkg registered valid in
      let (plan, f, good, exact) = go found e valid receipt locked aimed in
      (
        plan,
        install_of_arguments h pkg registered lock target evidence ok
            ∙ ap (found_plan h pkg registered lock target evidence) e
            ∙ f,
        good,
        exact,
      )
    where
      go :
          (found : Option RegistryPreparationBlocker)
          → identity_blocker lifecycle_text_is_public_safe pkg registered ≡ some found
          → preparation_ok registered ≡ true
          → receipt_ok h pkg ≡ true
          → runtime_lock_ok h lock ≡ true
          → target_ok target ≡ true
          → (plan : InstallPlan) × (found_plan h pkg registered lock target evidence (some found)
              ≡ some plan)
            × (plan_ok h plan ≡ true)
            × ((plan.status ≡ planned) ↔ IsBound pkg registered)
      go (some b) e valid receipt locked aimed =
          let good =
            blocked_plan_ok h pkg registered lock target evidence b
              (identity_blocker_public pkg registered b e) public.own_name public.own_version
              public.receipt public.preparation public.input listed in
          let plan = blocked_plan h pkg registered lock target evidence b in
          (plan, accepted plan good, good, blocked_exact b e)
      go none e valid receipt locked aimed =
          let bound = (identity_blocker_iff lifecycle_text_is_public_safe pkg registered).0 e in
          let (c, digest, named, has, same) = prepared_facts registered valid bound.preparation in
          let own = bound.same_candidate ∙ named in
          let entry = planned_entry pkg registered target c bound.manifest digest in
          let plan = planned_plan h pkg registered lock target evidence c digest entry in
          let new =
            planned_entry_ok h pkg registered lock target evidence c bound.manifest digest public
              receipt bound.build own bound.has_manifest same (private_registry registered valid)
              aimed in
          let state =
            planned_plan_state h pkg registered lock target evidence c bound.manifest digest same
              (changes_digest_lem h entry lock (distinct locked) (injective entry)) in
          let good =
            planned_plan_ok h pkg registered lock target evidence c digest entry public
              bound.same_receipt listed state in
          (
            plan,
            entry_accepted c bound.manifest digest own bound.has_manifest (bound.same_digest ∙ has)
                new (lock_ok-proposed_lock entry lock (distinct locked)) good,
            good,
            (λ p. bound, λ d. is_planned c digest entry),
          )
