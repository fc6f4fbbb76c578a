-- ===== src/Lifecycle/Install/Planned.antt =====
-- The planned transition: its entry, its lock and its plan pass their validators.
use skills_sdk.Registry.Validation.{identity_ok}
use skills_sdk.Json.{Hash}
use skills_sdk.Prelude.{
  true, false, not, ◌≡◌, refl, sym, ap, subst, all, all_distinct, arith, some, none, List, [], ◌∷◌,
  String, Bool-cases, inl, inr, ◌==◌, string_eq, option_eq,
}
use skills_sdk.Packaging.{
  PackageCandidateIdentity, PackageManifest, PackageManifestFile, PackageReceipt, built, file_paths,
  content_pairs, candidate_content_sha256, candidate_eq,
}
use skills_sdk.Packaging.Validation.{manifest_paths, receipt_ok, manifest_ok, is_empty}
use skills_sdk.Registry.Models.{RegistryPreparationReceipt}
use skills_sdk.Lifecycle.{
  RuntimeLock, RuntimeLockEntry, RuntimeTarget, Operation, install, update, no_change, lock_ok,
  registry_beq_iff, target_beq_iff,
}
use skills_sdk.Lifecycle.Laws.{proposed_lock_settled, planned_operation-proposed_lock}
use skills_sdk.Lifecycle.Planning.{runtime_files, planned_entry, proposed_lock, planned_operation}
use skills_sdk.Lifecycle.PublicText.{lifecycle_text_is_public_safe}
use skills_sdk.Lifecycle.Plan.{
  runtime_pairs, runtime_paths, is_public_path, target_ok, entry_ok, plan_ok, planned_state_ok,
  changes_digest, lock_digest, plan_id_of, identity_payload, sorted_members, evidence_ok,
}
use skills_sdk.Lifecycle.Install.{planned_plan, blocked_name, blocked_version}

runtime_pairs-runtime_files :
    (files : List PackageManifestFile) → runtime_pairs (runtime_files files) ≡ content_pairs files
unfolding runtime_files
runtime_pairs-runtime_files [] = refl
runtime_pairs-runtime_files (f ∷ fs) =
    ap (λ t. (f.path, f.sha256) ∷ t) (runtime_pairs-runtime_files fs)

runtime_paths-runtime_files :
    (files : List PackageManifestFile) → runtime_paths (runtime_files files) ≡ file_paths files
unfolding runtime_files
runtime_paths-runtime_files [] = refl
runtime_paths-runtime_files (f ∷ fs) = ap (λ t. f.path ∷ t) (runtime_paths-runtime_files fs)

is_empty-runtime_files :
    (files : List PackageManifestFile) → is_empty (runtime_files files) ≡ is_empty files
unfolding runtime_files
is_empty-runtime_files [] = refl
is_empty-runtime_files (f ∷ fs) = refl

module _ (h : Hash) (pkg : PackageReceipt) where
  -- What the model of a built receipt guarantees of its manifest.
  manifest_facts :
      (c : PackageCandidateIdentity) (m : PackageManifest)
      → receipt_ok h pkg ≡ true
      → pkg.status ≡ built
      → pkg.candidate ≡ some c
      → pkg.manifest ≡ some m
      → ((c.content_sha256 == candidate_content_sha256 h m.files) ≡ true) × (manifest_ok m ≡ true)
  unfolding receipt_ok
  manifest_facts c m ok was named has = (ground arith, ground arith)

  files_facts :
      (m : PackageManifest)
      → manifest_ok m ≡ true
      → (is_empty m.files ≡ false) × (all_distinct (file_paths m.files) ≡ true)
  unfolding manifest_ok
  files_facts m ok = (ground arith, ground arith)

module _ (h : Hash) (entry : RuntimeLockEntry) (lock : RuntimeLock) where
  -- The digest of the lock changes exactly when the operation says so.
  pub changes_digest_lem :
      lock_ok lock ≡ true
      → (lock_digest h (proposed_lock entry lock) ≡ lock_digest h lock
          → proposed_lock entry lock ≡ lock)
      → changes_digest
          (planned_operation entry lock)
          (lock_digest h lock)
          (lock_digest h (proposed_lock entry lock))
        ≡ true
  changes_digest_lem ok injective = go (planned_operation entry lock) refl
    where
      changed :
          ¬ (planned_operation entry lock ≡ no_change)
          → not (lock_digest h lock == lock_digest h (proposed_lock entry lock)) ≡ true
      changed differs =
          elim (Bool-cases (lock_digest h lock == lock_digest h (proposed_lock entry lock))) [
            | inr apart ↦ rw apart refl
            | inl same ↦
                let kept = injective (sym ((string_eq.eqb_iff _ _).0 same)) in
                absurd (
                  differs (
                    subst (λ l. planned_operation entry l ≡ no_change) kept
                      (planned_operation-proposed_lock entry lock ok).0))
          ]

      go :
          (operation : Operation)
          → planned_operation entry lock ≡ operation
          → changes_digest operation (lock_digest h lock) (lock_digest h (proposed_lock entry lock))
            ≡ true
      go no_change e =
          (string_eq.eqb_iff _ _).1
            (ap (λ l. lock_digest h l) (sym (proposed_lock_settled entry lock ok e)))
      go install e = changed (λ k. cc (e, k))
      go update e = changed (λ k. cc (e, k))

-- The texts of a package that stand in a plan, and that its models want public.
pub record HasPublicTexts (pkg : PackageReceipt) (registered : RegistryPreparationReceipt)
    : Type 0 where
  pub name : lifecycle_text_is_public_safe registered.package_name ≡ true
  pub version : lifecycle_text_is_public_safe registered.version ≡ true
  pub own_name : lifecycle_text_is_public_safe (blocked_name pkg registered) ≡ true
  pub own_version : lifecycle_text_is_public_safe (blocked_version pkg registered) ≡ true
  pub receipt : lifecycle_text_is_public_safe pkg.receipt_id ≡ true
  pub preparation : lifecycle_text_is_public_safe registered.receipt_id ≡ true
  pub input : lifecycle_text_is_public_safe registered.input_receipt_id ≡ true
  pub files : all is_public_path (manifest_paths pkg) ≡ true

module _ (h : Hash) (pkg : PackageReceipt) (registered : RegistryPreparationReceipt)
    (lock : RuntimeLock) (target : RuntimeTarget) (evidence : List String) where
  pub planned_entry_ok :
      (c : PackageCandidateIdentity) (m : PackageManifest) (digest : String)
      → HasPublicTexts pkg registered
      → receipt_ok h pkg ≡ true
      → pkg.status ≡ built
      → pkg.candidate ≡ some c
      → pkg.manifest ≡ some m
      → registered.package_name ≡ c.package_id
      → identity_ok registered.registry ≡ true
      → target_ok target ≡ true
      → entry_ok h (planned_entry pkg registered target c m digest) ≡ true
  unfolding entry_ok planned_entry
  planned_entry_ok c m digest public ok was named has same private aimed =
      let (content, manifest) = manifest_facts h pkg c m ok was named has in
      let (filled, distinct) = files_facts h pkg m manifest in
      let listed : all is_public_path (file_paths m.files) ≡ true =
        subst (λ o. all is_public_path (elim o [ none ↦ [] | some k ↦ file_paths k.files ]) ≡ true)
          has public.files in
      let name_bound = (string_eq.eqb_iff _ _).1 same in
      let content_bound =
        (string_eq.eqb_iff (candidate_content_sha256 h m.files) c.content_sha256).1
          (sym ((string_eq.eqb_iff _ _).0 content)) in
      rw
        (
          public.name,
          public.version,
          public.receipt,
          public.preparation,
          private,
          aimed,
          is_empty-runtime_files m.files,
          filled,
          runtime_paths-runtime_files m.files,
          listed,
          name_bound,
          distinct,
          runtime_pairs-runtime_files m.files,
          content_bound,
        )
        refl

  planned_plan_id :
      (c : PackageCandidateIdentity) (digest : String) (entry : RuntimeLockEntry)
      → (planned_plan h pkg registered lock target evidence c digest entry).plan_id
        ≡ plan_id_of h
            (identity_payload (planned_plan h pkg registered lock target evidence c digest entry))
  unfolding planned_plan identity_payload plan_id_of sorted_members
  planned_plan_id c digest entry = refl

  pub planned_plan_state :
      (c : PackageCandidateIdentity) (m : PackageManifest) (digest : String)
      → registered.package_name ≡ c.package_id
      → changes_digest
          (planned_operation (planned_entry pkg registered target c m digest) lock)
          (lock_digest h lock)
          (lock_digest h (proposed_lock (planned_entry pkg registered target c m digest) lock))
        ≡ true
      → planned_state_ok (
          planned_plan h pkg registered lock target evidence c digest
            (planned_entry pkg registered target c m digest))
        ≡ true
  unfolding planned_state_ok planned_plan planned_entry
  planned_plan_state c m digest same changes =
      rw
        (
          (candidate_eq.eqb_iff c c).1 refl,
          (target_beq_iff target target).1 refl,
          (string_eq.eqb_iff digest digest).1 refl,
          (string_eq.eqb_iff registered.package_name registered.package_name).1 refl,
          (string_eq.eqb_iff registered.package_name c.package_id).1 same,
          (string_eq.eqb_iff registered.version registered.version).1 refl,
          (string_eq.eqb_iff pkg.receipt_id pkg.receipt_id).1 refl,
          (string_eq.eqb_iff registered.receipt_id registered.receipt_id).1 refl,
          (registry_beq_iff registered.registry registered.registry).1 refl,
          changes,
        )
        refl

  pub planned_plan_ok :
      (c : PackageCandidateIdentity) (digest : String) (entry : RuntimeLockEntry)
      → HasPublicTexts pkg registered
      → registered.input_receipt_id ≡ pkg.receipt_id
      → evidence_ok evidence ≡ true
      → planned_state_ok (planned_plan h pkg registered lock target evidence c digest entry) ≡ true
      → plan_ok h (planned_plan h pkg registered lock target evidence c digest entry) ≡ true
  unfolding plan_ok planned_plan
  planned_plan_ok c digest entry public same listed state =
      let digests = (string_eq.eqb_iff (lock_digest h lock) (lock_digest h lock)).1 refl in
      let id = (string_eq.eqb_iff _ _).1 (planned_plan_id c digest entry) in
      let bound = (string_eq.eqb_iff registered.input_receipt_id pkg.receipt_id).1 same in
      rw
        (
          public.name, public.version, public.receipt, public.preparation, public.input, listed,
          digests, bound, state, id,
        )
        refl
