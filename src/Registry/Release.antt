-- ===== src/Registry/Release.antt =====
-- From a package receipt over the hardening to the registry: `harden_skill_package` of
-- src/skills_sdk/packaging/hardening.py before `prepare_private_registry_candidate` of
-- src/skills_sdk/distribution/private_registry.py.
mod Tests
use skills_sdk.Prelude.{
  inr, inl, Option-cases, ℕ, ◌≡◌, ◌≤◌, ◌↔◌, refl, sym, ap, ◌∙◌, Bool, true, false, not, Option,
  none, some, List, [], ◌∷◌, String, codes, length, arith, filter,
}
use skills_sdk.Json.{Hash}
use skills_sdk.Packaging.{PackageCandidateIdentity, PackageManifest, PackageReceipt, built}
use skills_sdk.Packaging.Validation.{is_empty, receipt_ok}
use skills_sdk.Hardening.{PackageHardeningPolicy, PackageHardeningReceipt, hardening_of}
use skills_sdk.Hardening.Laws.{IsHardened, hardening_of_iff}
use skills_sdk.Hardening.Contract.{harden_skill_package}
use skills_sdk.Hardening.Validation.{harden_skill_package-ok}
use skills_sdk.Hardening.Decision.{harden_skill_package_iff}
use skills_sdk.Registry.Version.{is_registry_version}
use skills_sdk.Registry.Models.{
  RegistryPreparationRequest, RegistryPreparationReceipt, prepared,
  registry_package_name_max_length,
}
use skills_sdk.Registry.Validation.{request_ok}
use skills_sdk.Registry.Candidate.{prepare_private_registry_candidate}
use skills_sdk.Registry.Blockers.{built_facts}
use skills_sdk.Registry.Totality.{prepare_total}
use skills_sdk.Registry.Laws.{IsPreparable, prepare-IsPreparable}

-- The package is hardened, and the registry's receipt for it is prepared.
pub record IsReleased (h : Hash) (lower : List ℕ → List ℕ) (show_nat : ℕ → String)
    (pkg : PackageReceipt) (policy : PackageHardeningPolicy) (request : RegistryPreparationRequest)
    : Type 0 where
  pub hardening : PackageHardeningReceipt
  pub hardened : harden_skill_package lower show_nat h pkg policy ≡ some hardening
  pub receipt : RegistryPreparationReceipt
  pub returned : prepare_private_registry_candidate h pkg hardening request ≡ some receipt
  pub is_prepared : receipt.status ≡ prepared

module _ (h : Hash) (lower : List ℕ → List ℕ) (show_nat : ℕ → String) (pkg : PackageReceipt)
    (policy : PackageHardeningPolicy) (request : RegistryPreparationRequest) where
  bound_hardening :
      ((hardening_of lower show_nat pkg policy).candidate ≡ pkg.candidate)
      × ((hardening_of lower show_nat pkg policy).package_digest ≡ pkg.package_digest)
  unfolding hardening_of
  bound_hardening = (refl, refl)

  -- A valid package receipt, in a valid request under its own version and name, is prepared for the
  -- registry exactly when the package passes the hardening, if the name fits the registry and the
  -- version is canonical.
  pub harden-prepare_iff :
      (c : PackageCandidateIdentity) (m : PackageManifest)
      → receipt_ok h pkg ≡ true
      → request_ok request ≡ true
      → pkg.candidate ≡ some c
      → pkg.manifest ≡ some m
      → request.version ≡ m.version
      → request.package_name ≡ c.package_id
      → length (codes request.package_name) ≤ registry_package_name_max_length
      → is_registry_version request.version ≡ true
      → IsReleased h lower show_nat pkg policy request ↔ IsHardened lower show_nat pkg policy
  harden-prepare_iff c m ok asked named has version name short semantic =
      let (returned, valid) = harden_skill_package-ok lower show_nat h pkg policy ok in
      let hardening = hardening_of lower show_nat pkg policy in
      (
        λ released.
            let unblocked =
              (prepare-IsPreparable h pkg released.hardening request released.receipt
                released.returned released.is_prepared).hardened in
            ((harden_skill_package_iff lower show_nat h pkg policy).0 (record {
              hardening = released.hardening;
              returned = released.hardened;
              unblocked = unblocked;
            })).1,
        λ hardened.
            let (receipt, prepares, made) = prepare_total h pkg hardening request ok valid asked in
            let (_, _, _, _, has_digest) = built_facts h pkg ok hardened.is_built_package in
            let conditions : IsPreparable h pkg hardening request = record {
              candidate = c;
              manifest = m;
              digest = _;
              built_package = hardened.is_built_package;
              has_candidate = named;
              has_manifest = has;
              has_digest = has_digest;
              same_candidate = bound_hardening.0;
              same_digest = bound_hardening.1;
              hardened = (hardening_of_iff lower show_nat pkg policy).1 hardened;
              version = version;
              name = name;
              short_name = short;
              semantic_version = semantic;
            } in
            record {
              hardening = hardening;
              hardened = returned;
              receipt = receipt;
              returned = prepares;
              is_prepared = made.decision.1 conditions;
            },
      )
