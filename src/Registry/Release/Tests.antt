-- ===== src/Registry/Release/Tests.antt =====
-- The release of a small package.
use skills_sdk.Prelude.{
  all_distinct, ℕ, ◌≡◌, ◌↔◌, refl, true, none, some, List, [], ◌∷◌, String, arith,
}
use skills_sdk.Json.{Hash}
use skills_sdk.Packaging.{PackageReceipt, PackageManifest, built, skill_md, readme}
use skills_sdk.Packaging.Validation.{receipt_ok, paths_ok, manifest_ok, is_subset, meets}
use skills_sdk.Hardening.{default_policy}
use skills_sdk.Hardening.Laws.{IsHardened}
use skills_sdk.Paths.{is_portable}
use skills_sdk.Registry.Redaction.{
  registry_evidence_is_redaction_safe, components_are_redaction_safe,
}
use skills_sdk.Registry.Validation.{request_ok, identity_ok, fields_ok, is_stripped}
use skills_sdk.Registry.Version.{is_registry_version}
use skills_sdk.Registry.Models.{refs_ok, RegistryPreparationRequest}
use skills_sdk.Registry.Release.{IsReleased, harden-prepare_iff}

abbrev hash : Hash
hash = record { sha256 = λ b. "digest"; dumps = λ j. [] }

abbrev lower : List ℕ → List ℕ
lower cs = cs

abbrev show_nat : ℕ → String
show_nat n = "n"

abbrev manifest : PackageManifest
manifest = record {
  candidate = record { package_id = "demo"; source_revision = "r"; content_sha256 = "digest" };
  version = "1.0.0";
  files =
      record { path = "SKILL.md"; sha256 = "digest"; size_bytes = 3; role = skill_md }
      ∷ record { path = "README.md"; sha256 = "digest"; size_bytes = 4; role = readme }
      ∷ [];
  provenance = record { source = "SKILL.md" ∷ []; builder = "skills-sdk.packaging.manifest/v1" };
}

abbrev pkg : PackageReceipt
pkg = record {
  receipt_id = "demo-digest";
  candidate = some manifest.candidate;
  status = built;
  started_at = 1;
  finished_at = 2;
  evidence = "SKILL.md" ∷ "README.md" ∷ [];
  blocker = none;
  package_digest = some "digest";
  manifest = some manifest;
  included_files = "SKILL.md" ∷ "README.md" ∷ [];
  excluded_files = [];
}

abbrev request : RegistryPreparationRequest
request = record {
  registry = record { registry_id = "home"; namespace = "team" };
  package_name = "demo";
  version = "1.0.0";
  evidence = "SKILL.md" ∷ [];
}

accepted : receipt_ok hash pkg ≡ true
unfolding receipt_ok paths_ok manifest_ok is_subset meets
accepted = refl

asked : request_ok request ≡ true
unfolding request_ok identity_ok fields_ok refs_ok paths_ok is_stripped all_distinct
    registry_evidence_is_redaction_safe components_are_redaction_safe is_portable
asked = refl

canonical : is_registry_version request.version ≡ true
unfolding is_registry_version
canonical = refl

harden-prepare_iff_example :
    IsReleased hash lower show_nat pkg default_policy request
    ↔ IsHardened lower show_nat pkg default_policy
harden-prepare_iff_example =
    harden-prepare_iff hash lower show_nat pkg default_policy request manifest.candidate manifest
      accepted asked refl refl refl refl (omega arith) canonical
