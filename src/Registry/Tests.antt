-- ===== src/Registry/Tests.antt =====
-- A registry preparation, versions and evidence.
use skills_sdk.Prelude.{
  arith, ◌≡◌, refl, true, false, none, some, List, [], ◌∷◌, String, all, all_distinct,
}
use skills_sdk.Json.{Hash}
use skills_sdk.Packaging.{PackageReceipt, PackageManifest, PackageReceiptBlocker, built, skill_md}
use skills_sdk.Hardening.{
  default_policy, PackageHardeningCheck, PackageHardeningReceipt, blocker, pass,
}
use skills_sdk.Registry.Redaction.{
  registry_evidence_is_redaction_safe, components_are_redaction_safe,
}
use skills_sdk.Registry.Version.{is_registry_version}
use skills_sdk.Registry.Models.{
  RegistryPreparationRequest, RegistryPreparationReceipt, blocker_ok, refs_ok,
}
use skills_sdk.Registry.Evidence.{
  split_evidence, IsSplit, split_evidence-IsSplit, registry_blocker, registry_blocker_ok,
  hardening_blockers, hardening_blockers_ok,
}
use skills_sdk.Registry.Candidate.{prepare_private_registry_candidate}
use skills_sdk.Registry.Validation.{request_ok, identity_ok, fields_ok, is_stripped}
use skills_sdk.Registry.Totality.{IsPreparation, prepare_total}
use skills_sdk.Hardening.Contract.{hardening_ok}
use skills_sdk.Packaging.Validation.{receipt_ok, paths_ok, manifest_ok, is_subset, meets}
use skills_sdk.Registry.Laws.{IsPreparable, prepare-IsPreparable}

versions :
    (is_registry_version "1.2.3-rc.1+build.007" ≡ true)
    × (is_registry_version "1.02.3" ≡ false)
    × (is_registry_version "1.2" ≡ false)
    × (is_registry_version "1.2.3-01" ≡ false)
    × (is_registry_version "1.2.3-0a.-" ≡ true)
unfolding is_registry_version
versions = (refl, refl, refl, refl, refl)

redaction :
    (registry_evidence_is_redaction_safe "docs/task-list.md" ≡ true)
    × (registry_evidence_is_redaction_safe "id SK-123" ≡ false)
    × (registry_evidence_is_redaction_safe "x/ghp_abc" ≡ false)
unfolding registry_evidence_is_redaction_safe
redaction = (refl, refl, refl)

abbrev hash : Hash
hash = record { sha256 = λ _. "digest"; dumps = λ _. [] }

abbrev manifest : PackageManifest
manifest = record {
  candidate = record { package_id = "demo"; source_revision = "r"; content_sha256 = "digest" };
  version = "1.0.0";
  files = record { path = "SKILL.md"; sha256 = "digest"; size_bytes = 3; role = skill_md } ∷ [];
  provenance = record { source = "SKILL.md" ∷ []; builder = "skills-sdk.packaging.manifest/v1" };
}

abbrev receipt : PackageReceipt
receipt = record {
  receipt_id = "demo-digest";
  candidate = some manifest.candidate;
  status = built;
  started_at = 1;
  finished_at = 2;
  evidence = "SKILL.md" ∷ [];
  blocker = none;
  package_digest = some "digest";
  manifest = some manifest;
  included_files = "SKILL.md" ∷ [];
  excluded_files = [];
}

abbrev hardening : PackageHardeningReceipt
hardening = record {
  candidate = some manifest.candidate;
  build_status = built;
  status_blocked = false;
  package_digest = some "digest";
  effective_policy = default_policy;
  included_files = "SKILL.md" ∷ [];
  file_count = 1;
  total_size_bytes = 3;
  hardening_checks = record { id = "built"; status = pass; message = ""; evidence = [] } ∷ [];
  blockers = [];
  warnings = [];
}

abbrev request : RegistryPreparationRequest
request = record {
  registry = record { registry_id = "local"; namespace = "team" };
  package_name = "demo";
  version = "1.0.0";
  evidence = "SKILL.md" ∷ [];
}

receipt_accepted : receipt_ok hash receipt ≡ true
unfolding receipt_ok paths_ok manifest_ok is_subset meets
receipt_accepted = refl

hardening_accepted : hardening_ok hardening ≡ true
unfolding hardening_ok paths_ok all_distinct
hardening_accepted = refl

request_accepted : request_ok request ≡ true
unfolding request_ok identity_ok fields_ok refs_ok paths_ok is_stripped
    registry_evidence_is_redaction_safe components_are_redaction_safe
request_accepted = refl

prepare_total_example :
    (r : RegistryPreparationReceipt) × (prepare_private_registry_candidate hash receipt hardening
        request
      ≡ some r)
    × IsPreparation hash receipt hardening request r
prepare_total_example =
    prepare_total hash receipt hardening request receipt_accepted hardening_accepted
      request_accepted

conditions : IsPreparable hash receipt hardening request
unfolding is_registry_version
conditions = record {
  candidate = manifest.candidate;
  manifest = manifest;
  digest = "digest";
  built_package = refl;
  has_candidate = refl;
  has_manifest = refl;
  has_digest = refl;
  same_candidate = refl;
  same_digest = refl;
  hardened = refl;
  version = refl;
  name = refl;
  short_name = omega arith;
  semantic_version = refl;
}

-- The receipt that the registry returns.
prepared_once :
    (r : RegistryPreparationReceipt) × (prepare_private_registry_candidate hash receipt hardening
        request
      ≡ some r)
    × IsPreparation hash receipt hardening request r
prepared_once =
    prepare_total hash receipt hardening request receipt_accepted hardening_accepted
      request_accepted

prepare-IsPreparable_example : IsPreparable hash receipt hardening request
prepare-IsPreparable_example =
    prepare-IsPreparable hash receipt hardening request prepared_once.0 prepared_once.1
      (prepared_once.2.decision.1 conditions)

-- A request that names a credential is refused.
refused :
    prepare_private_registry_candidate hash receipt hardening (record {
      registry = request.registry;
      package_name = "sk-tool";
      version = "1.0.0";
      evidence = "SKILL.md" ∷ [];
    })
    ≡ none
unfolding prepare_private_registry_candidate request_ok fields_ok
    registry_evidence_is_redaction_safe receipt_ok hardening_ok paths_ok manifest_ok is_subset meets
    identity_ok components_are_redaction_safe is_stripped
refused = refl

abbrev evidence : List String
evidence = "docs/a.md" ∷ "/tmp/x" ∷ "docs/a.md" ∷ "sk-1" ∷ []

split_evidence-IsSplit_example :
    IsSplit hash evidence (split_evidence hash evidence).0 (split_evidence hash evidence).1
split_evidence-IsSplit_example = split_evidence-IsSplit hash evidence

abbrev leaking : PackageReceiptBlocker
leaking = record { code = "failed"; message = "token ghp_secret"; evidence_refs = evidence }

registry_blocker_ok_example : blocker_ok (registry_blocker hash leaking) ≡ true
registry_blocker_ok_example = registry_blocker_ok hash leaking

abbrev leaking_checks : List PackageHardeningCheck
leaking_checks =
    record { id = "check"; status = blocker; message = "bearer x"; evidence = evidence } ∷ []

hardening_blockers_ok_example : all blocker_ok (hardening_blockers hash leaking_checks) ≡ true
hardening_blockers_ok_example = hardening_blockers_ok hash leaking_checks
