-- ===== src/Registry/Blockers.antt =====
-- The blockers and warnings of `_input_blockers` and `_registry_warnings`, of
-- src/skills_sdk/distribution/private_registry.py, for valid arguments.
use skills_sdk.Registry.Redaction.{registry_evidence_is_redaction_safe}
use skills_sdk.Prelude.{
  option_eq, false, Bool, eq_lem, all_distinct, string_eq, ◌∙◌, Bool-cases, ◌==◌, ◌≡◌, refl, ap,
  true, Option, none, some, List, [], ◌∷◌, arith, all, Option-cases, inl, inr,
}
use skills_sdk.Json.{Hash}
use skills_sdk.Packaging.{
  list_beq_iff, PackageCandidateIdentity, PackageManifest, PackageReceipt, built, manifest_digest,
}
use skills_sdk.Packaging.Validation.{paths_ok, receipt_ok}
use skills_sdk.Hardening.{is_built, PackageHardeningCheck, PackageHardeningReceipt}
use skills_sdk.Registry.Models.{
  RegistryPreparationRequest, RegistryPreparationBlocker, blocker_ok, refs_ok,
}
use skills_sdk.Registry.Validation.{blocker_beq}
use skills_sdk.Registry.Evidence.{
  registry_warnings, refs_ok-split, registry_blocker_ok, hardening_blockers_ok,
}
use skills_sdk.Registry.Prepare.{
  kept_warnings, plain_blocker, blocked_input, name_blockers, version_blockers, input_blockers,
}

module _ (h : Hash) where
  pub built_facts :
      (pkg : PackageReceipt)
      → receipt_ok h pkg ≡ true
      → pkg.status ≡ built
      → (c : PackageCandidateIdentity) × (m : PackageManifest) × (pkg.candidate ≡ some c)
        × (pkg.manifest ≡ some m)
        × (pkg.package_digest ≡ some (manifest_digest h m))
  unfolding receipt_ok
  built_facts pkg ok was = elim (Option-cases pkg.candidate) [
    | inl x ↦ absurd (ground arith)
    | inr (c, x) ↦ elim (Option-cases pkg.manifest) [
      | inl y ↦ absurd (ground arith)
      | inr (m, y) ↦ elim (Option-cases pkg.package_digest) [
        | inl z ↦ absurd (ground arith)
        | inr (d, z) ↦
            let bound : (d == manifest_digest h m) ≡ true = ground arith in
            (c, m, x, y, z ∙ ap some ((string_eq.eqb_iff d (manifest_digest h m)).0 bound))
      ]
    ]
  ]

  pub warnings_ok :
      (cs : List PackageHardeningCheck)
      → all (λ w. refs_ok w.evidence_refs) (registry_warnings h cs) ≡ true
  unfolding registry_warnings
  warnings_ok [] = refl
  warnings_ok (c ∷ cs) = rw (refs_ok-split h c.evidence, warnings_ok cs) refl

  pub kept_warnings_ok :
      (pkg : PackageReceipt) (hardening : PackageHardeningReceipt)
      (first : RegistryPreparationBlocker)
      → all (λ w. refs_ok w.evidence_refs) (kept_warnings h pkg hardening first) ≡ true
  kept_warnings_ok pkg hardening first = ground (arith, warnings_ok hardening.warnings)

  own_blockers_ok :
      (all blocker_ok (
          plain_blocker "package_receipt_blocked"
            "Private-registry preparation requires a built package receipt."
          ∷ plain_blocker "hardening_identity_mismatch"
              "Package and hardening receipts must bind the same candidate and package digest."
          ∷ plain_blocker "package_version_mismatch"
              "Registry version must match the immutable package manifest version."
          ∷ [])
        ≡ true)
      × (all blocker_ok (
            plain_blocker "package_name_mismatch"
              "Registry package name must match the immutable candidate package_id."
            ∷ plain_blocker "registry_package_name_unsupported"
                "Registry package name exceeds the supported length limit."
            ∷ plain_blocker "registry_version_unsupported"
                "Registry version must use canonical Semantic Versioning."
            ∷ [])
          ≡ true)
  unfolding blocker_ok refs_ok paths_ok registry_evidence_is_redaction_safe all_distinct
  own_blockers_ok = (refl, refl)

  blocked_input_ok : (pkg : PackageReceipt) → all blocker_ok (blocked_input h pkg) ≡ true
  unfolding blocked_input
  blocked_input_ok pkg = elim (Option-cases pkg.blocker) [
    | inl x ↦ ground (arith, own_blockers_ok.0)
    | inr (b, x) ↦ ground (arith, registry_blocker_ok h b)
  ]

  name_blockers_ok :
      (c : PackageCandidateIdentity) (request : RegistryPreparationRequest)
      → all blocker_ok (name_blockers h c request) ≡ true
  unfolding name_blockers
  name_blockers_ok c request = ground (arith, own_blockers_ok.1)

  -- The blockers are found, and each is valid.
  abbrev pub blockers_found : Option (List RegistryPreparationBlocker) → Bool
  blockers_found none = false
  blockers_found (some bs) = all blocker_ok bs

  version_blockers_ok :
      (c : PackageCandidateIdentity) (m : PackageManifest) (pkg : PackageReceipt)
      (hardening : PackageHardeningReceipt) (request : RegistryPreparationRequest)
      → pkg.candidate ≡ some c
      → blockers_found (version_blockers h m pkg hardening request) ≡ true
  unfolding version_blockers
  version_blockers_ok c m pkg hardening request named = ground (
    arith,
    hardening_blockers_ok h hardening.blockers,
    name_blockers_ok c request,
    own_blockers_ok.0,
  )

  pub input_blockers_ok :
      (pkg : PackageReceipt) (hardening : PackageHardeningReceipt)
      (request : RegistryPreparationRequest)
      → receipt_ok h pkg ≡ true
      → blockers_found (input_blockers h pkg hardening request) ≡ true
  unfolding input_blockers
  input_blockers_ok pkg hardening request ok = elim (Bool-cases (is_built pkg.status)) [
    | inr not_built ↦ rw not_built (blocked_input_ok pkg)
    | inl was_built ↦
        let (c, m, named, has, _) = built_facts pkg ok (ground arith) in
        ground (
          arith,
          own_blockers_ok.0,
          was_built,
          has,
          version_blockers_ok c m pkg hardening request named,
        )
  ]

  pub blocker_beq_refl : (b : RegistryPreparationBlocker) → blocker_beq b b ≡ true
  blocker_beq_refl b = ground (
    arith,
    string_eq.eqb_iff b.code b.code,
    string_eq.eqb_iff b.message b.message,
    list_beq_iff b.evidence_refs b.evidence_refs,
    list_beq_iff b.source_evidence_sha256 b.source_evidence_sha256,
    eq_lem b.source_blocker_sha256 b.source_blocker_sha256,
  )
