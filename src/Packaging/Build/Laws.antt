-- ===== src/Packaging/Build/Laws.antt =====
-- Every build of a valid validation result is a valid package receipt.
use mathlib.Core.Bool.{false≢true}
use skills_sdk.Json.{Hash}
use skills_sdk.Paths.{is_portable}
use skills_sdk.Packaging.{
  PackageCandidateIdentity, PackageManifestFile, PackageReceipt, file_paths,
  candidate_content_sha256, manifest_digest, candidate_eq,
}
use skills_sdk.Packaging.Validation.{is_empty, is_subset, meets, paths_ok, manifest_ok, receipt_ok}
use skills_sdk.Packaging.Build.{
  refs_portable, is_blocking, SkillIdentity, SkillPackageValidation, SkillPackageFinding,
  ValidationStatus, pass, build_evidence, validation_ok, blocked_build, built_receipt,
  built_manifest, build_skill_package,
}
use skills_sdk.Prelude.{
  ◌≢◌, all_iff, subst, sym, ℕ, ◌≤◌, ◌≡◌, true, false, Option, none, some, List, [], ◌∷◌, String,
  string_eq, option_eq, all, any, all_distinct, arith, refl, contains, contains_iff, In, All,
  All_of_In,
}

module _ (h : Hash) (v : SkillPackageValidation) (started finished : ℕ) where
  subset_self : (xs ys : List String) → All (λ x. In x ys) xs → is_subset xs ys ≡ true
  unfolding is_subset
  subset_self [] ys m = refl
  subset_self (x ∷ xs) ys m = ground (arith, contains_iff x ys, subset_self xs ys m.1)

  meets_nothing : (xs : List String) → meets xs [] ≡ false
  unfolding meets contains
  meets_nothing [] = refl
  meets_nothing (x ∷ xs) = meets_nothing xs

  built_receipt_ok :
      (candidate : PackageCandidateIdentity) (identity : SkillIdentity) (f : PackageManifestFile)
      (fs : List PackageManifestFile)
      → started ≤ finished
      → all is_portable (file_paths (f ∷ fs)) ≡ true
      → all_distinct (file_paths (f ∷ fs)) ≡ true
      → candidate.content_sha256 ≡ candidate_content_sha256 h (f ∷ fs)
      → receipt_ok h (built_receipt h candidate identity (f ∷ fs) started finished) ≡ true
  unfolding receipt_ok built_receipt manifest_ok paths_ok
  built_receipt_ok candidate identity f fs times portable distinct bound =
      let paths = file_paths (f ∷ fs) in
      let here : is_subset paths paths ≡ true =
        subset_self paths paths (All_of_In _ paths λ x m. m) in
      let digest =
        (string_eq.eqb_iff candidate.content_sha256 (candidate_content_sha256 h (f ∷ fs))).1
          bound in
      let same = (candidate_eq.eqb_iff candidate candidate).1 refl in
      let manifest =
        (string_eq.eqb_iff (manifest_digest h (built_manifest candidate identity (f ∷ fs))) _).1
          refl in
      let apart = meets_nothing paths in ground arith

  evidence_ok :
      (files : List PackageManifestFile)
      → all is_portable (file_paths files) ≡ true
      → all_distinct (file_paths files) ≡ true
      → (paths_ok (build_evidence files) ≡ true) × (is_empty (build_evidence files) ≡ false)
  unfolding paths_ok is_portable
  evidence_ok [] portable distinct = (refl, refl)
  evidence_ok (f ∷ fs) portable distinct = (ground arith, refl)

  blocked_build_ok :
      (first : SkillPackageFinding)
      → started ≤ finished
      → all is_portable (file_paths v.files) ≡ true
      → all_distinct (file_paths v.files) ≡ true
      → all is_portable first.evidence_refs ≡ true
      → receipt_ok h (blocked_build h v first started finished) ≡ true
  unfolding receipt_ok blocked_build is_subset meets
  blocked_build_ok first times portable distinct refs =
      let (evidence, filled) = evidence_ok v.files portable distinct in
      let nothing : paths_ok [] ≡ true = unfold paths_ok in refl in ground arith

  validation_facts :
      validation_ok v ≡ true
      → (all is_portable (file_paths v.files) ≡ true)
        × (all_distinct (file_paths v.files) ≡ true)
        × (all refs_portable v.findings ≡ true)
  unfolding validation_ok
  validation_facts ok = (ground arith, ground arith, ground arith)

  passing_facts :
      validation_ok v ≡ true
      → v.status ≡ pass
      → (is_empty v.files ≡ false) × (v.candidate ≢ none) × (v.identity ≢ none)
  unfolding validation_ok
  passing_facts ok p = (ground arith, λ e. ground arith, λ e. ground arith)

  blocked_facts :
      validation_ok v ≡ true
      → v.status ≡ ValidationStatus.blocked
      → any is_blocking v.findings ≡ true
  unfolding validation_ok
  blocked_facts ok b = ground arith

  -- A valid validation result builds, whether it passes or is blocked, into a receipt that
  -- satisfies the validators of package receipts. The clock does not run backwards, and a candidate
  -- that passes names its files by their content digest.
  pub build_skill_package_ok :
      validation_ok v ≡ true
      → started ≤ finished
      → ((c : PackageCandidateIdentity)
          → v.status ≡ pass
          → v.candidate ≡ some c
          → c.content_sha256 ≡ candidate_content_sha256 h v.files)
      → (r : PackageReceipt) × (build_skill_package h v started finished ≡ some r)
        × (receipt_ok h r ≡ true)
  unfolding build_skill_package
  build_skill_package_ok ok times bound = by_status v.status refl
    where
      Built : Type 0
      Built =
          (r : PackageReceipt) × (build_skill_package h v started finished ≡ some r)
          × (receipt_ok h r ≡ true)

      by_files :
          (c : PackageCandidateIdentity) (i : SkillIdentity) (files : List PackageManifestFile)
          → is_empty files ≡ false
          → all is_portable (file_paths files) ≡ true
          → all_distinct (file_paths files) ≡ true
          → c.content_sha256 ≡ candidate_content_sha256 h files
          → receipt_ok h (built_receipt h c i files started finished) ≡ true
      by_files c i [] filled portable distinct digest = absurd (false≢true (sym filled))
      by_files c i (f ∷ fs) filled portable distinct digest =
          built_receipt_ok c i f fs times portable distinct digest

      by_identity :
          (c : PackageCandidateIdentity) (found : Option SkillIdentity)
          → v.status ≡ pass
          → v.candidate ≡ some c
          → v.identity ≡ found
          → Built
      by_identity c none p has e = absurd ((passing_facts ok p).2 e)
      by_identity c (some i) p has e =
          let (portable, distinct, refs) = validation_facts ok in
          (
            built_receipt h c i v.files started finished,
            rw (p, has, e, build_skill_package) refl,
            by_files c i v.files (passing_facts ok p).0 portable distinct (bound c p has),
          )

      by_candidate :
          (found : Option PackageCandidateIdentity) → v.status ≡ pass → v.candidate ≡ found → Built
      by_candidate none p e = absurd ((passing_facts ok p).1 e)
      by_candidate (some c) p e = by_identity c v.identity p e refl

      by_findings :
          (found : List SkillPackageFinding)
          → v.status ≡ ValidationStatus.blocked
          → v.findings ≡ found
          → Built
      by_findings [] b e =
          absurd (false≢true (subst (λ t. any is_blocking t ≡ true) e (blocked_facts ok b)))
      by_findings (first ∷ others) b e =
          let (portable, distinct, refs) = validation_facts ok in
          (
            blocked_build h v first started finished,
            simp (b, e, build_skill_package),
            blocked_build_ok first times portable distinct
                ((all_iff refs_portable (first ∷ others)).0
                  (subst (λ t. all refs_portable t ≡ true) e refs)).0,
          )

      by_status : (found : ValidationStatus) → v.status ≡ found → Built
      by_status pass e = by_candidate v.candidate e refl
      by_status ValidationStatus.blocked e = by_findings v.findings e refl
