-- ===== src/Hardening/Tests.antt =====
-- A package that passes the hardening.
use skills_sdk.Prelude.{ℕ, ◌≡◌, ◌↔◌, refl, true, false, none, some, List, [], ◌∷◌, String}
use skills_sdk.PackageSafety.{unsafe_package_path_reason}
use skills_sdk.Packaging.{PackageReceipt, PackageManifest, built, skill_md, readme}
use skills_sdk.Hardening.{default_policy, hardening_of}
use skills_sdk.Json.{Hash}
use skills_sdk.Packaging.Validation.{receipt_ok, paths_ok, manifest_ok, is_subset, meets}
use skills_sdk.Hardening.Contract.{hardening_ok, harden_skill_package}
use skills_sdk.Hardening.Validation.{harden_skill_package-ok}
use skills_sdk.Hardening.Laws.{IsHardened}
use skills_sdk.Hardening.Decision.{Passes, harden_skill_package_iff}

abbrev manifest : PackageManifest
manifest = record {
  candidate = record { package_id = "demo"; source_revision = "r"; content_sha256 = "digest" };
  version = "1.0.0";
  files =
      record { path = "SKILL.md"; sha256 = "digest"; size_bytes = 3; role = skill_md }
      ∷ record { path = "README.md"; sha256 = "digest"; size_bytes = 4; role = readme }
      ∷ [];
  provenance = record { source = "SKILL.md" ∷ []; builder = "skills-sdk.packaging.manifest/v1" };
}

abbrev receipt_of : List String → PackageReceipt
receipt_of paths = record {
  receipt_id = "demo-digest";
  candidate = some manifest.candidate;
  status = built;
  started_at = 1;
  finished_at = 2;
  evidence = paths;
  blocker = none;
  package_digest = some "digest";
  manifest = some manifest;
  included_files = paths;
  excluded_files = [];
}

abbrev lower : List ℕ → List ℕ
lower cs = cs

abbrev show_nat : ℕ → String
show_nat n = "n"

clean_passes :
    ((hardening_of lower show_nat
        (receipt_of ("SKILL.md" ∷ "README.md" ∷ []))
        default_policy).status_blocked
      ≡ false)
    × ((hardening_of lower show_nat
          (receipt_of ("SKILL.md" ∷ "README.md" ∷ ".git/config" ∷ []))
          default_policy).status_blocked
        ≡ true)
    × ((hardening_of lower show_nat (receipt_of ("SKILL.md" ∷ [])) default_policy).status_blocked
        ≡ true)
unfolding hardening_of unsafe_package_path_reason
clean_passes = (refl, refl, refl)

abbrev hash : Hash
hash = record { sha256 = λ b. "digest"; dumps = λ j. [] }

receipt_of_ok : receipt_ok hash (receipt_of ("SKILL.md" ∷ "README.md" ∷ [])) ≡ true
unfolding receipt_ok paths_ok manifest_ok is_subset meets
receipt_of_ok = refl

harden_skill_package-ok_example :
    (harden_skill_package lower show_nat hash
        (receipt_of ("SKILL.md" ∷ "README.md" ∷ []))
        default_policy
      ≡ some
          (hardening_of lower show_nat (receipt_of ("SKILL.md" ∷ "README.md" ∷ [])) default_policy))
    × (hardening_ok
          (hardening_of lower show_nat (receipt_of ("SKILL.md" ∷ "README.md" ∷ [])) default_policy)
        ≡ true)
harden_skill_package-ok_example =
    harden_skill_package-ok lower show_nat hash (receipt_of ("SKILL.md" ∷ "README.md" ∷ []))
      default_policy receipt_of_ok

harden_skill_package_example :
    Passes lower show_nat hash (receipt_of ("SKILL.md" ∷ "README.md" ∷ [])) default_policy ↔ (
      (receipt_ok hash (receipt_of ("SKILL.md" ∷ "README.md" ∷ [])) ≡ true)
      × IsHardened lower show_nat (receipt_of ("SKILL.md" ∷ "README.md" ∷ [])) default_policy)
harden_skill_package_example =
    harden_skill_package_iff lower show_nat hash (receipt_of ("SKILL.md" ∷ "README.md" ∷ []))
      default_policy
