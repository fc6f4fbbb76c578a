-- ===== src/Lifecycle/Identity.antt =====
-- `_identity_blocker` of src/skills_sdk/lifecycle/planning.py. The test of public text is the
-- parameter `is_public`.
use mathlib.Core.Bool.{false≢true}
use skills_sdk.Packaging.{PackageReceipt, PackageManifest, BuildStatus, built, candidate_eq}
use skills_sdk.Registry.Models.{
  RegistryPreparationBlocker, RegistryPreparationReceipt, PreparationStatus, prepared,
}
use skills_sdk.Registry.Prepare.{plain_blocker}
use skills_sdk.Prelude.{
  ◌&&◌, not, if◌then◌else◌, Option, String, Bool, ◌==◌, ◌≡◌, ◌↔◌, refl, arith, none, some, true,
  false, all, string_eq, option_eq,
}

abbrev pub is_prepared : PreparationStatus → Bool
is_prepared prepared = true
is_prepared _ = false

abbrev pub was_built : BuildStatus → Bool
was_built built = true
was_built _ = false

unfoldable pub version_bound : PackageReceipt → RegistryPreparationReceipt → Bool
version_bound pkg registered = elim pkg.manifest [
  | none ↦ false
  | some manifest ↦ manifest.version == registered.version
]

module _ (is_public : String → Bool) where
  unfoldable pub projected_blocker : RegistryPreparationBlocker → RegistryPreparationBlocker
  projected_blocker b =
      if is_public b.code && is_public b.message && all is_public b.evidence_refs
      then b
      else plain_blocker "installation_registry_blocker_not_portable"
          "Registry preparation blocker cannot be projected into a portable install plan."

  -- The outer `none` is the failing assertion on a blocked receipt without a blocker.
  unfoldable pub identity_blocker :
      PackageReceipt → RegistryPreparationReceipt → Option (Option RegistryPreparationBlocker)
  unfolding projected_blocker version_bound
  identity_blocker pkg registered =
      if not (registered.input_receipt_id == pkg.receipt_id)
      then some (
          some (
            plain_blocker "installation_input_receipt_mismatch"
              "Registry preparation must identify the exact package receipt used for planning."))
      else if not (is_prepared registered.status)
      then elim registered.blocker [ none ↦ none | some b ↦ some (some (projected_blocker b)) ]
      else if not (
          was_built pkg.status
          && pkg.candidate == registered.candidate
          && pkg.package_digest == registered.package_digest)
      then some (
          some (
            plain_blocker "installation_identity_mismatch"
              "Package and registry preparation must bind the same built candidate and digest."))
      else if not (version_bound pkg registered)
      then some (
          some (
            plain_blocker "installation_version_mismatch"
              "Package manifest and registry preparation must bind the same version."))
      else some none

-- What lets a plan go on: the receipts are of the same package, built and prepared.
pub record IsBound (pkg : PackageReceipt) (registered : RegistryPreparationReceipt) : Type 0 where
  pub same_receipt : registered.input_receipt_id ≡ pkg.receipt_id
  pub preparation : registered.status ≡ prepared
  pub build : pkg.status ≡ built
  pub same_candidate : pkg.candidate ≡ registered.candidate
  pub same_digest : pkg.package_digest ≡ registered.package_digest
  pub manifest : PackageManifest
  pub has_manifest : pkg.manifest ≡ some manifest
  pub same_version : manifest.version ≡ registered.version

module _ (is_public : String → Bool) (pkg : PackageReceipt)
    (registered : RegistryPreparationReceipt) where
  blocker_tests :
      identity_blocker is_public pkg registered ≡ some none
      → ((registered.input_receipt_id == pkg.receipt_id) ≡ true)
        × (is_prepared registered.status ≡ true)
        × (was_built pkg.status ≡ true)
        × ((pkg.candidate == registered.candidate) ≡ true)
        × ((pkg.package_digest == registered.package_digest) ≡ true)
        × (version_bound pkg registered ≡ true)
  unfolding identity_blocker
  blocker_tests e = ground arith

  bound_version :
      version_bound pkg registered ≡ true
      → (m : PackageManifest) × (pkg.manifest ≡ some m) × (m.version ≡ registered.version)
  unfolding version_bound
  bound_version e = go pkg.manifest refl e
    where
      go :
          (found : Option PackageManifest)
          → pkg.manifest ≡ found
          → elim found [ none ↦ false | some m ↦ m.version == registered.version ] ≡ true
          → (m : PackageManifest) × (pkg.manifest ≡ some m) × (m.version ≡ registered.version)
      go none p e = absurd (false≢true e)
      go (some m) p e = (m, p, (string_eq.eqb_iff m.version registered.version).0 e)

  prepared_of : (s : PreparationStatus) → is_prepared s ≡ true → s ≡ prepared
  prepared_of s e = ground arith

  built_of : (s : BuildStatus) → was_built s ≡ true → s ≡ built
  built_of s e = ground arith

  -- No blocker is reported exactly when the registry receipt is prepared from this package receipt,
  -- which is built, and both name the same candidate, package digest and version.
  pub identity_blocker_iff :
      (identity_blocker is_public pkg registered ≡ some none) ↔ IsBound pkg registered
  unfolding identity_blocker version_bound
  identity_blocker_iff = (forward, backward)
    where
      forward : identity_blocker is_public pkg registered ≡ some none → IsBound pkg registered
      forward e =
          let (receipt, preparation, build, candidate, digest, version) = blocker_tests e in
          let (m, has, same) = bound_version version in
          record {
            same_receipt = (string_eq.eqb_iff _ _).0 receipt;
            preparation = prepared_of registered.status preparation;
            build = built_of pkg.status build;
            same_candidate = (option_eq.eqb_iff pkg.candidate registered.candidate).0 candidate;
            same_digest = (option_eq.eqb_iff pkg.package_digest registered.package_digest).0 digest;
            manifest = m;
            has_manifest = has;
            same_version = same;
          }

      backward : IsBound pkg registered → identity_blocker is_public pkg registered ≡ some none
      backward d =
          let receipt = (string_eq.eqb_iff _ _).1 d.same_receipt in
          let candidate =
            (option_eq.eqb_iff pkg.candidate registered.candidate).1 d.same_candidate in
          let digest =
            (option_eq.eqb_iff pkg.package_digest registered.package_digest).1 d.same_digest in
          let version = (string_eq.eqb_iff _ _).1 d.same_version in
          rw (receipt, d.preparation, d.build, candidate, digest, d.has_manifest, version)
