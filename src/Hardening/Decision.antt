-- ===== src/Hardening/Decision.antt =====
-- When `harden_skill_package` of src/skills_sdk/packaging/hardening.py passes a package.
use skills_sdk.Prelude.{◌∙◌, ap, ℕ, ◌≡◌, ◌↔◌, true, false, some, List, String, arith}
use skills_sdk.Json.{Hash}
use skills_sdk.Packaging.{PackageReceipt}
use skills_sdk.Packaging.Validation.{receipt_ok}
use skills_sdk.Hardening.{PackageHardeningPolicy, PackageHardeningReceipt, hardening_of}
use skills_sdk.Hardening.Contract.{harden_skill_package}
use skills_sdk.Hardening.Laws.{IsHardened, hardening_of_iff}
use skills_sdk.Hardening.Validation.{harden_skill_package-ok}

module _ (lower : List ℕ → List ℕ) (show_nat : ℕ → String) (h : Hash) where
  -- The hardening returns a receipt with the status `pass`.
  pub record Passes (receipt : PackageReceipt) (policy : PackageHardeningPolicy) : Type 0 where
    pub hardening : PackageHardeningReceipt
    pub returned : harden_skill_package lower show_nat h receipt policy ≡ some hardening
    pub unblocked : hardening.status_blocked ≡ false

  pub harden_skill_package-some :
      (receipt : PackageReceipt) (policy : PackageHardeningPolicy) (out : PackageHardeningReceipt)
      → harden_skill_package lower show_nat h receipt policy ≡ some out
      → (receipt_ok h receipt ≡ true) × (hardening_of lower show_nat receipt policy ≡ out)
  unfolding harden_skill_package
  harden_skill_package-some receipt policy out e = ground arith

  -- The hardening of a package returns a receipt that passes exactly when the package receipt is
  -- valid, the package is built and includes no unsafe path, its manifest comes from the manifest
  -- builder with `SKILL.md` as a source, and the included files have a skill and, if the policy
  -- requires it, the root README.
  pub harden_skill_package_iff :
      (receipt : PackageReceipt) (policy : PackageHardeningPolicy)
      → Passes receipt policy
        ↔ ((receipt_ok h receipt ≡ true) × IsHardened lower show_nat receipt policy)
  harden_skill_package_iff receipt policy = (
    λ p.
        let (ok, same) = harden_skill_package-some receipt policy p.hardening p.returned in
        (
          ok,
          (hardening_of_iff lower show_nat receipt policy).0
              (ap (λ o. o.status_blocked) same ∙ p.unblocked),
        ),
    λ d. record {
      hardening = hardening_of lower show_nat receipt policy;
      returned = (harden_skill_package-ok lower show_nat h receipt policy d.0).0;
      unblocked = (hardening_of_iff lower show_nat receipt policy).1 d.1;
    },
  )
