-- ===== src/Hardening/Laws.antt =====
-- When no check of the hardening blocks a package.
use skills_sdk.Prelude.{
  ℕ, ◌≡◌, ◌↔◌, ◌⊎◌, refl, ap, inl, inr, true, false, none, some, List, [], ◌∷◌, String,
  contains_iff, In, All, sorted, to_set, In-sorted, In-to_set, any, string_eq, arith, Option-cases,
}
use skills_sdk.PackageSafety.{unsafe_package_path_reason}
use skills_sdk.Packaging.{PackageManifestFile, PackageManifest, built, PackageReceipt}
use skills_sdk.Hardening.{
  PackageHardeningPolicy, provenance_valid, roles_valid, forbidden_of, included, hardening_of,
  package_receipt_check, forbidden_paths_check, size_budget_check, provenance_check,
  required_role_check, is_readme, roles_of, role_values, is_built,
}

module _ (lower : List ℕ → List ℕ) (show_nat : ℕ → String) where
  forbidden-nil :
      (paths : List String)
      → (forbidden_of lower show_nat paths ≡ [])
        ↔ All (λ p. unsafe_package_path_reason lower p ≡ none) paths
  unfolding forbidden_of
  forbidden-nil [] = (λ e. tt, λ a. refl)
  forbidden-nil (p ∷ ps) = ground (arith, forbidden-nil ps)

  -- What the five checks ask of a package, the size budget apart, which only warns.
  pub record IsHardened (receipt : PackageReceipt) (policy : PackageHardeningPolicy) : Type 0 where
    pub is_built_package : receipt.status ≡ built
    pub safe_paths : All (λ p. unsafe_package_path_reason lower p ≡ none) receipt.included_files
    pub manifest : PackageManifest
    pub has_manifest : receipt.manifest ≡ some manifest
    pub builder : manifest.provenance.builder ≡ "skills-sdk.packaging.manifest/v1"
    pub source : In "SKILL.md" manifest.provenance.source
    pub skill : In "skill_md" (role_values (included lower show_nat receipt))
    pub readme_included :
        (any is_readme (included lower show_nat receipt) ≡ true) ⊎ (policy.require_readme ≡ false)

  no_blockers :
      (receipt : PackageReceipt) (policy : PackageHardeningPolicy)
      → ((hardening_of lower show_nat receipt policy).status_blocked ≡ false) ↔ (
          (is_built receipt.status ≡ true)
          × (forbidden_of lower show_nat receipt.included_files ≡ [])
          × (provenance_valid receipt ≡ true)
          × (roles_valid (included lower show_nat receipt) policy ≡ true))
  unfolding hardening_of package_receipt_check forbidden_paths_check size_budget_check
      provenance_check required_role_check
  no_blockers receipt policy = ground arith

  provenance_iff :
      (receipt : PackageReceipt) (m : PackageManifest)
      → receipt.manifest ≡ some m
      → (provenance_valid receipt ≡ true) ↔ (
          (m.provenance.builder ≡ "skills-sdk.packaging.manifest/v1")
          × In "SKILL.md" m.provenance.source)
  unfolding provenance_valid
  provenance_iff receipt m e = ground (
    arith,
    string_eq.eqb_iff m.provenance.builder "skills-sdk.packaging.manifest/v1",
    contains_iff "SKILL.md" m.provenance.source,
  )

  roles_iff :
      (files : List PackageManifestFile) (policy : PackageHardeningPolicy)
      → (roles_valid files policy ≡ true) ↔ (
          In "skill_md" (role_values files)
          × ((any is_readme files ≡ true) ⊎ (policy.require_readme ≡ false)))
  unfolding roles_valid roles_of
  roles_iff files policy = ground (
    arith,
    contains_iff "skill_md" (sorted (to_set (role_values files))),
    In-sorted "skill_md" (to_set (role_values files)),
    In-to_set "skill_md" (role_values files),
  )

  provenance_none :
      (receipt : PackageReceipt) → receipt.manifest ≡ none → provenance_valid receipt ≡ false
  unfolding provenance_valid
  provenance_none receipt e = ground arith

  pub hardening_of_iff :
      (receipt : PackageReceipt) (policy : PackageHardeningPolicy)
      → ((hardening_of lower show_nat receipt policy).status_blocked ≡ false)
        ↔ IsHardened receipt policy
  hardening_of_iff receipt policy = (forward, backward)
    where
      forward :
          (hardening_of lower show_nat receipt policy).status_blocked ≡ false
          → IsHardened receipt policy
      forward e =
          let (was_built, safe, provenance, roles) = (no_blockers receipt policy).0 e in
          let (skill, doc) = (roles_iff (included lower show_nat receipt) policy).0 roles in
          elim (Option-cases receipt.manifest) [
            | inl x ↦ absurd (cc (provenance_none receipt x))
            | inr (m, x) ↦
                let (builder, source) = (provenance_iff receipt m x).0 provenance in
                record {
                  is_built_package = ground arith;
                  safe_paths = (forbidden-nil receipt.included_files).0 safe;
                  manifest = m;
                  has_manifest = x;
                  builder = builder;
                  source = source;
                  skill = skill;
                  readme_included = doc;
                }
          ]

      backward :
          IsHardened receipt policy
          → (hardening_of lower show_nat receipt policy).status_blocked ≡ false
      backward d = (no_blockers receipt policy).1 (
        ap is_built d.is_built_package,
        (forbidden-nil receipt.included_files).1 d.safe_paths,
        (provenance_iff receipt d.manifest d.has_manifest).1 (d.builder, d.source),
        (roles_iff (included lower show_nat receipt) policy).1 (d.skill, d.readme_included),
      )
